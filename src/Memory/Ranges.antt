-- ===== src/Memory/Ranges.antt =====
-- memory.c: `add_mem`.
use mathlib.Core.Bool.{◌||◌, or_assoc, or-false}
use thread_equivalence_check.Base.{
  ℕ, ◌+◌, ◌≤◌, ◌<◌, ◌^◌, ◌≡◌, refl, sym, Bool, false, some, ◌==◌, ltb, add32, sub32, arith,
}
use thread_equivalence_check.Base.Loops.{for_loop_inv}
use thread_equivalence_check.TrieSet.{SetT}
use thread_equivalence_check.TrieSet.Spec.{Denotes, Denotes-agree, insert-Denotes}
use thread_equivalence_check.Memory.{add_round, add_mem}

-- `v` is one of the `size` bytes from `base` on, wrapping around.
abbrev pub in_range : ℕ → ℕ → ℕ → Bool
in_range base size v = ltb (sub32 v base) size

pub next_byte :
    (base i v : ℕ)
    → base < 2 ^ 32
    → i < 2 ^ 32
    → v < 2 ^ 32
    → (in_range base i v || (v == add32 base i)) ≡ in_range base (i + 1) v
next_byte base i v hb hi hv = ground arith

pub nothing_yet : (base v : ℕ) → in_range base 0 v ≡ false
nothing_yet base v = ground arith

-- `add_mem` succeeds and adds to the set the `size` bytes from `base` on, and no others.
pub add_mem-Denotes :
    (s : SetT) (f : ℕ → Bool) (base size : ℕ)
    → Denotes s f
    → base < 2 ^ 32
    → size ≤ 2 ^ 32
    → (s' : SetT) × (add_mem s base size ≡ some s') × Denotes s' (λ v. f v || in_range base size v)
unfolding add_mem add_round
add_mem-Denotes s f base size d hb hs =
    for_loop_inv (λ i t. Denotes t (λ v. f v || in_range base i v)) (add_round base) size 0 size s
      (omega arith)
      (λ i t low high dt.
        let (t', r, ran, was, dt') = insert-Denotes t _ (add32 base i) dt (omega arith) in
        (
          t',
          rw ran refl,
          Denotes-agree t' _ _ dt' (λ v lt.
              rw (or_assoc (f v) (in_range base i v) (v == add32 base i))
                (rw (next_byte base i v hb (omega arith) lt) refl)),
        ))
      (Denotes-agree s f _ d (λ v lt. rw (nothing_yet base v) (sym (or-false (f v)))))
