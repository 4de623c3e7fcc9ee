-- ===== src/Base/Exists.antt =====
-- A bounded search: some number below a bound satisfies a test.
use mathlib.Core.Bool.{Bool, true, false, ◌||◌, or_assoc, or-false}
use mathlib.Core.Path.{◌≡◌, refl}
use mathlib.Core.Logic.{inl, inr}
use native.Mathlib.Numerals.{add-one}
use native.Mathlib.Omega.{arith}
use Prim.Native.Nat.{ℕ, zero, suc, ◌+◌, ◌<◌}
use thread_equivalence_check.Base.Tests.{◌==◌, Bool-cases}

-- `p` holds at some number below `n`.
unfoldable pub any_below : ℕ → (ℕ → Bool) → Bool
any_below zero p = false
any_below (suc n) p = any_below n p || p n

pub any_below-suc : (n : ℕ) (p : ℕ → Bool) → any_below (n + 1) p ≡ (any_below n p || p n)
unfolding any_below
any_below-suc n p = rw add-one refl

-- One more round of a loop that collects.
pub collect :
    (f : Bool) (n : ℕ) (p : ℕ → Bool) → ((f || any_below n p) || p n) ≡ (f || any_below (n + 1) p)
collect f n p = rw (any_below-suc n p) (or_assoc f (any_below n p) (p n))

pub nothing : (n : ℕ) (f : Bool) (p : ℕ → Bool) → n ≡ 0 → (f || any_below n p) ≡ f
unfolding any_below
nothing n f p e = rw e (or-false f)

pub absorb : (n : ℕ) (p : ℕ → Bool) (i : ℕ) → i < n → (any_below n p || p i) ≡ any_below n p
unfolding any_below
absorb zero p i h = elim h [ ]
absorb (suc n) p i h = elim (Bool-cases (i == n)) [
  | inl e ↦ let e' : i ≡ n = ground arith in rw e' (ground arith)
  | inr ne ↦ let low : i < n = ground arith in ground (arith, absorb n p i low)
]

-- A number at which the test holds.
pub found_below : (n : ℕ) (p : ℕ → Bool) → any_below n p ≡ true → (i : ℕ) × (i < n) × (p i ≡ true)
unfolding any_below
found_below zero p h = cc
found_below (suc n) p h = elim (Bool-cases (any_below n p)) [
  | inl early ↦ let (i, lt, at) = found_below n p early in (i, omega arith, at)
  | inr late ↦ (n, omega arith, ground (arith, h, late))
]

pub none_below : (n : ℕ) (p : ℕ → Bool) (i : ℕ) → any_below n p ≡ false → i < n → p i ≡ false
none_below n p i h lt = let a = absorb n p i lt in ground (arith, a, h)
