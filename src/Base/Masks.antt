-- ===== src/Base/Masks.antt =====
-- Masks: the bits below a position, the lowest bit, and all but the lowest bit of a word.
use Prim.Native.Nat.{ℕ, ◌+◌, ◌*◌, ◌/◌, ◌%◌, ◌^◌, ◌<◌, bit_and}
use mathlib.Core.Path.{◌≡◌, ◌∙◌}
use native.Mathlib.Omega.{arith}
use thread_equivalence_check.Base.Bits.{bit_and_digit, bit_and_none, bit_and-31}

-- A mask of ones, one digit at a time.
pub bit_and-odd : (x m : ℕ) → bit_and x (2 * m + 1) ≡ bit_and (x / 2) m * 2 + x % 2
bit_and-odd x m =
    let half : (2 * m + 1) / 2 ≡ m = omega arith in
    let low : (2 * m + 1) % 2 ≡ 1 = omega arith in
    bit_and_digit x (2 * m + 1) ∙ rw (half, low) (omega arith)

pub five_digits : (x m : ℕ) → bit_and x (32 * m + 31) ≡ bit_and (x / 32) m * 32 + x % 32
five_digits x m =
    let a : 32 * m + 31 ≡ 2 * (2 * (2 * (2 * (2 * m + 1) + 1) + 1) + 1) + 1 = omega arith in
    let d : x / 2 / 2 / 2 / 2 / 2 ≡ x / 32 = omega arith in
    rw a (
      rw
        (
          bit_and-odd x (2 * (2 * (2 * (2 * m + 1) + 1) + 1) + 1),
          bit_and-odd (x / 2) (2 * (2 * (2 * m + 1) + 1) + 1),
          bit_and-odd (x / 2 / 2) (2 * (2 * m + 1) + 1),
          bit_and-odd (x / 2 / 2 / 2) (2 * m + 1),
          bit_and-odd (x / 2 / 2 / 2 / 2) m,
          d,
        )
        (omega arith))

-- The low 20 bits.
pub offset_mask : (x : ℕ) → bit_and x 0xFFFFF ≡ x % 1048576
offset_mask x = omega (
  arith,
  five_digits x 32767,
  five_digits (x / 32) 1023,
  five_digits (x / 32 / 32) 31,
  bit_and-31 (x / 32 / 32 / 32),
)

pub mask_one : (x : ℕ) → bit_and x 1 ≡ x % 2
mask_one x = omega (arith, bit_and-odd x 0, bit_and_none (x / 2) (x / 2) (omega arith))

-- 31 ones.
low_31 : (x : ℕ) → bit_and x 0x7FFFFFFF ≡ x % 2147483648
low_31 x = omega (
  arith,
  bit_and-odd x 1073741823,
  five_digits (x / 2) 33554431,
  five_digits (x / 2 / 32) 1048575,
  offset_mask (x / 2 / 32 / 32),
)

pub mask_even : (x : ℕ) → x < 2 ^ 32 → bit_and x 0xFFFFFFFE ≡ x / 2 * 2
mask_even x h = omega (arith, bit_and_digit x 0xFFFFFFFE, low_31 (x / 2))
