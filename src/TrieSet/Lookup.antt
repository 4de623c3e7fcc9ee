-- ===== src/TrieSet/Lookup.antt =====
-- set.c: `set_lookup` finds the members.
use native.Mathlib.Nat.{one-le-pow, div-eq_of_eq-mul_left}
use thread_equivalence_check.Base.{
  ℕ, zero, suc, ◌^◌, ◌<◌, ◌≡◌, refl, inl, inr, some, of_bool, bit_and, arith,
}
use thread_equivalence_check.Base.Bits.{bit, shl, shr}
use thread_equivalence_check.TrieSet.{SetT, null, node, set_lookup}
use thread_equivalence_check.TrieSet.Wf.{
  Wf, digit, contains, bit-cases, index_at-digit, digit-lt, present-bit, present_zero,
}

shr_present : (m i : ℕ) → i < 32 → shr (bit_and m (shl 1 i)) i ≡ bit i m
shr_present m i h =
    rw (present-bit m i h) (div-eq_of_eq-mul_left {n = 2 ^ i} (one-le-pow i 2 (omega arith)) refl)

pub lookup-contains :
    (k : ℕ) (s : SetT) (v : ℕ) → Wf k s → set_lookup s v ≡ some (of_bool (contains k s v))
unfolding set_lookup
lookup-contains zero null v w = absurd w
lookup-contains (suc k) null v w = absurd w
lookup-contains zero (node m o c) v (h, e) =
    let i : ℕ = digit 0 v in
    rw (e, index_at-digit 0 v, present_zero m i (digit-lt 0 v), shr_present m i (digit-lt 0 v))
      (elim (bit-cases i m) [ inl e ↦ rw e refl | inr e ↦ rw e refl ])
lookup-contains (suc k) (node m o c) v (h, e, b, w) =
    let i : ℕ = digit (suc k) v in
    rw (e, index_at-digit (suc k) v, present_zero m i (digit-lt (suc k) v))
      (elim (bit-cases i m) [
        | inl e ↦ rw e refl
        | inr e ↦ rw e (ground (arith, lookup-contains k (c i) v (w i (digit-lt (suc k) v) e).1))
      ])
