-- ===== src/Base/Bits.antt =====
-- Single bits of a native number, and what the native bit operations do to them.
use Prim.Native.Nat.{
  ℕ, zero, suc, ◌+◌, ◌-◌, ◌*◌, ◌/◌, ◌%◌, ◌^◌, ◌≤◌, ◌<◌, min, max, bit_and, bit_or, digits,
  bit_and-bitwise, bit_or-bitwise,
}
use native.Mathlib.Nat.{pow-suc, mod-eq_of_lt, pow-le-pow_right}
use mathlib.Core.Path.{◌≡◌, refl, ap}
use native.Mathlib.Omega.{arith}
use thread_equivalence_check.Base.Tests.{◌==◌, if◌then◌else◌, u32}

-- Bit `i` of `m`, as 0 or 1.
unfoldable pub bit : ℕ → ℕ → ℕ
bit zero m = m % 2
bit (suc i) m = bit i (m / 2)

pub bit-lt : (i m : ℕ) → bit i m < 2
unfolding bit
bit-lt zero m = omega arith
bit-lt (suc i) m = bit-lt i (m / 2)

-- The digit recursion behind the native operations, without its fuel.
module _ (z : ℕ → ℕ) (f : ℕ → ℕ → ℕ) where
  fuel_irrelevant : (n m a b : ℕ) → a ≤ n → a ≤ m → digits z f n a b ≡ digits z f m a b
  fuel_irrelevant zero zero zero b p q = refl
  fuel_irrelevant zero (suc m) zero b p q = refl
  fuel_irrelevant (suc n) zero zero b p q = refl
  fuel_irrelevant (suc n) (suc m) zero b p q = refl
  fuel_irrelevant zero m (suc a) b p q = absurd (omega arith)
  fuel_irrelevant (suc n) zero (suc a) b p q = absurd (omega arith)
  fuel_irrelevant (suc n) (suc m) (suc a) b p q =
      omega (arith, fuel_irrelevant n m (suc a / 2) (b / 2) (omega arith) (omega arith))

-- The lowest digit and the rest.
pub bit_and_digit : (a b : ℕ) → bit_and a b ≡ bit_and (a / 2) (b / 2) * 2 + min (a % 2) (b % 2)
bit_and_digit zero b = omega (arith, bit_and-bitwise 0 b, bit_and-bitwise 0 (b / 2))
bit_and_digit (suc a) b = omega (
  arith,
  bit_and-bitwise (suc a) b,
  bit_and-bitwise (suc a / 2) (b / 2),
  fuel_irrelevant (λ y. 0) min a (suc a / 2) (suc a / 2) (b / 2) (omega arith) (omega arith),
)

pub bit_or_digit : (a b : ℕ) → bit_or a b ≡ bit_or (a / 2) (b / 2) * 2 + max (a % 2) (b % 2)
bit_or_digit zero b = omega (arith, bit_or-bitwise 0 b, bit_or-bitwise 0 (b / 2))
bit_or_digit (suc a) b = omega (
  arith,
  bit_or-bitwise (suc a) b,
  bit_or-bitwise (suc a / 2) (b / 2),
  fuel_irrelevant (λ y. y) max a (suc a / 2) (suc a / 2) (b / 2) (omega arith) (omega arith),
)

bit_or_rest : (a b : ℕ) → bit_or a b / 2 ≡ bit_or (a / 2) (b / 2)
bit_or_rest a b = omega (arith, bit_or_digit a b)

bit_and_rest : (a b : ℕ) → bit_and a b / 2 ≡ bit_and (a / 2) (b / 2)
bit_and_rest a b = omega (arith, bit_and_digit a b)

pub bit-or : (i a b : ℕ) → bit i (bit_or a b) ≡ max (bit i a) (bit i b)
unfolding bit
bit-or zero a b = omega (arith, bit_or_digit a b)
bit-or (suc i) a b = rw (bit_or_rest a b) (bit-or i (a / 2) (b / 2))

pub bit-and : (i a b : ℕ) → bit i (bit_and a b) ≡ min (bit i a) (bit i b)
unfolding bit
bit-and zero a b = omega (arith, bit_and_digit a b)
bit-and (suc i) a b = rw (bit_and_rest a b) (bit-and i (a / 2) (b / 2))

pub bit-zero : (i : ℕ) → bit i 0 ≡ 0
unfolding bit
bit-zero zero = refl
bit-zero (suc i) = bit-zero i

pow_half : (i : ℕ) → 2 ^ suc i / 2 ≡ 2 ^ i
pow_half i = omega (arith, pow-suc 2 i)

-- A power of two has the one bit.
pub bit-pow : (i j : ℕ) → bit i (2 ^ j) ≡ (if i == j then 1 else 0)
unfolding bit
bit-pow zero zero = refl
bit-pow zero (suc j) = ground (arith, pow-suc 2 j)
bit-pow (suc i) zero = ground (arith, bit-zero i)
bit-pow (suc i) (suc j) = rw (pow_half j) (ground (arith, bit-pow i j))

pub bit_and_none : (n a : ℕ) → a ≤ n → bit_and a 0 ≡ 0
bit_and_none n zero h = bit_and-bitwise 0 0
bit_and_none zero (suc a) h = absurd (omega arith)
bit_and_none (suc n) (suc a) h =
    omega (arith, bit_and_digit (suc a) 0, bit_and_none n (suc a / 2) (omega arith))

-- `m & (1 << i)`.
pub bit_and-pow : (i m : ℕ) → bit_and m (2 ^ i) ≡ bit i m * 2 ^ i
unfolding bit
bit_and-pow zero m = omega (arith, bit_and_digit m 1, bit_and_none (m / 2) (m / 2) (omega arith))
bit_and-pow (suc i) m = omega (
  arith,
  bit_and_digit m (2 ^ suc i),
  bit_and-pow i (m / 2),
  pow-suc 2 i,
  pow_half i,
  ap (λ (t : ℕ). bit_and (m / 2) t) (pow_half i),
  ap (λ (t : ℕ). bit i (m / 2) * t) (pow-suc 2 i),
)

bit_and_bound : (k a b : ℕ) → a < 2 ^ k → bit_and a b < 2 ^ k
bit_and_bound zero zero b h = omega (arith, bit_and-bitwise 0 b)
bit_and_bound zero (suc a) b h = absurd (omega arith)
bit_and_bound (suc k) a b h = omega (
  arith,
  bit_and_digit a b,
  bit_and_bound k (a / 2) (b / 2) (omega (arith, pow-suc 2 k)),
  pow-suc 2 k,
)

pub bit_or_bound : (k a b : ℕ) → a < 2 ^ k → b < 2 ^ k → bit_or a b < 2 ^ k
bit_or_bound zero zero zero h g = omega (arith, bit_or-bitwise 0 0)
bit_or_bound zero zero (suc b) h g = absurd (omega arith)
bit_or_bound zero (suc a) b h g = absurd (omega arith)
bit_or_bound (suc k) a b h g = omega (
  arith,
  bit_or_digit a b,
  bit_or_bound k (a / 2) (b / 2) (omega (arith, pow-suc 2 k)) (omega (arith, pow-suc 2 k)),
  pow-suc 2 k,
)

pub bit_and-lt : (a b : ℕ) → a < 2 ^ 32 → bit_and a b < 2 ^ 32
bit_and-lt a b h = bit_and_bound 32 a b h

pub bit_or-lt : (a b : ℕ) → a < 2 ^ 32 → b < 2 ^ 32 → bit_or a b < 2 ^ 32
bit_or-lt a b h g = bit_or_bound 32 a b h g

-- The complement at a width.
bit_complement : (w i m : ℕ) → i < w → m < 2 ^ w → bit i (2 ^ w - 1 - m) ≡ 1 - bit i m
unfolding bit
bit_complement zero i m h g = absurd (omega arith)
bit_complement (suc w) zero m h g = omega (arith, pow-suc 2 w)
bit_complement (suc w) (suc i) m h g =
    let half : (2 ^ suc w - 1 - m) / 2 ≡ 2 ^ w - 1 - m / 2 = omega (arith, pow-suc 2 w) in
    rw half (bit_complement w i (m / 2) (omega arith) (omega (arith, pow-suc 2 w)))

-- `~m` of a `uint32_t`.
abbrev pub complement : ℕ → ℕ
complement m = 2 ^ 32 - 1 - m

pub bit-complement : (i m : ℕ) → i < 32 → m < 2 ^ 32 → bit i (complement m) ≡ 1 - bit i m
bit-complement i m h g = bit_complement 32 i m h g

bit_or_none : (n a : ℕ) → a ≤ n → bit_or a 0 ≡ a
bit_or_none n zero h = bit_or-bitwise 0 0
bit_or_none zero (suc a) h = absurd (omega arith)
bit_or_none (suc n) (suc a) h =
    omega (arith, bit_or_digit (suc a) 0, bit_or_none n (suc a / 2) (omega arith))

bit_or_swap : (n a b : ℕ) → a ≤ n → bit_or a b ≡ bit_or b a
bit_or_swap n zero b h = omega (arith, bit_or-bitwise 0 b, bit_or_none b b (omega arith))
bit_or_swap zero (suc a) b h = absurd (omega arith)
bit_or_swap (suc n) (suc a) b h = omega (
  arith,
  bit_or_digit (suc a) b,
  bit_or_digit b (suc a),
  bit_or_swap n (suc a / 2) (b / 2) (omega arith),
)

pub bit_or_comm : (a b : ℕ) → bit_or a b ≡ bit_or b a
bit_or_comm a b = bit_or_swap a a b (omega arith)

-- `(q << k) | r` when `r` fits below.
pub bit_or-fields : (k q r : ℕ) → r < 2 ^ k → bit_or (q * 2 ^ k) r ≡ q * 2 ^ k + r
bit_or-fields zero q zero h = ground (arith, bit_or_none q q (omega arith))
bit_or-fields zero q (suc r) h = absurd (omega arith)
bit_or-fields (suc k) q r h =
    let double : q * 2 ^ suc k ≡ 2 * (q * 2 ^ k) =
      omega (arith, ap (λ (t : ℕ). q * t) (pow-suc 2 k)) in
    rw double (
      let half : 2 * (q * 2 ^ k) / 2 ≡ q * 2 ^ k = omega arith in
      omega (
        arith,
        bit_or_digit (2 * (q * 2 ^ k)) r,
        ap (λ (t : ℕ). bit_or t (r / 2)) half,
        bit_or-fields k q (r / 2) (omega (arith, pow-suc 2 k)),
      ))

-- `x & 0x1F`.
pub bit_and-31 : (x : ℕ) → bit_and x 0x1F ≡ x % 32
bit_and-31 x = omega (
  arith,
  bit_and_digit x 31,
  bit_and_digit (x / 2) 15,
  bit_and_digit (x / 2 / 2) 7,
  bit_and_digit (x / 2 / 2 / 2) 3,
  bit_and_digit (x / 2 / 2 / 2 / 2) 1,
  bit_and_none (x / 2 / 2 / 2 / 2 / 2) (x / 2 / 2 / 2 / 2 / 2) (omega arith),
)

-- `1 << i`, `x << i` and `x >> i` of a `uint32_t`.
abbrev pub shl : ℕ → ℕ → ℕ
shl x i = u32 (x * 2 ^ i)

abbrev pub shr : ℕ → ℕ → ℕ
shr x i = x / 2 ^ i

pub pow-lt : (i : ℕ) → i < 32 → 2 ^ i < 2 ^ 32
pow-lt i h = omega (arith, pow-le-pow_right {n = 2} (omega arith) {i = i} {j = 31} (omega arith))

pub shl-one : (i : ℕ) → i < 32 → shl 1 i ≡ 2 ^ i
shl-one i h = omega (arith, mod-eq_of_lt (pow-lt i h))
