-- ===== src/Touched/Run.antt =====
-- equiv-rw-set.c: rounds of `get_touched_bytes` that insert one byte after the other.
use mathlib.Core.Bool.{or_assoc, or-false}
use thread_equivalence_check.Base.{
  ℕ, ◌+◌, ◌≤◌, ◌<◌, ◌^◌, ◌≡◌, refl, sym, ◌∙◌, Bool, ◌||◌, Option, some, ◌==◌, ◌>>=◌, add32, arith,
}
use thread_equivalence_check.Base.Loops.{for_loop, for_loop_inv}
use thread_equivalence_check.TrieSet.{SetT}
use thread_equivalence_check.TrieSet.Spec.{Denotes, Denotes-agree, insert-Denotes}
use thread_equivalence_check.Memory.Ranges.{in_range, next_byte, nothing_yet}
use thread_equivalence_check.Touched.{insert_byte}

-- A call that adds `width` bytes from `addr` on.
abbrev pub Adds : Option SetT → (ℕ → Bool) → ℕ → ℕ → Type 0
Adds r f addr width = (s : SetT) × (r ≡ some s) × Denotes s (λ v. f v || in_range addr width v)

put_byte :
    (s : SetT) (g : ℕ → Bool) (a i w : ℕ)
    → w < 2 ^ 32
    → add32 a i ≡ w
    → Denotes s g
    → (t : SetT) × (insert_byte a i s ≡ some t) × Denotes t (λ v. g v || (v == w))
unfolding insert_byte
put_byte s g a i w lt e d =
    let (t, r, ran, was, dt) = insert-Denotes s g w d lt in (t, rw (e, ran) refl, dt)

module _ (addr : ℕ) (f : ℕ → Bool) (small : addr < 2 ^ 32) where
  one_more :
      (s : SetT) (done a i : ℕ)
      → done < 2 ^ 32
      → add32 a i ≡ add32 addr done
      → Denotes s (λ v. f v || in_range addr done v)
      → Adds (insert_byte a i s) f addr (done + 1)
  one_more s done a i b e d =
      let (t, ran, dt) = put_byte s _ a i (add32 addr done) (omega arith) e d in
      (
        t,
        ran,
        Denotes-agree t _ _ dt (λ v lt.
            or_assoc (f v) (in_range addr done v) (v == add32 addr done)
            ∙ rw (next_byte addr done v small b lt) refl),
      )

  pub more_bytes :
      (k done j a : ℕ) (s : SetT)
      → done + k ≡ j
      → j ≤ 2 ^ 32
      → a ≡ add32 addr done
      → Denotes s (λ v. f v || in_range addr done v)
      → Adds (for_loop k 0 (insert_byte a) s) f addr j
  more_bytes k done j a s total b e d = rw (← total) (
      for_loop_inv (λ i t. Denotes t (λ v. f v || in_range addr (done + i) v)) (insert_byte a) k 0 k
        s (omega arith)
        (λ i t low high dt.
          let assoc : done + (i + 1) ≡ done + i + 1 = omega arith in
          rw assoc (one_more t (done + i) a i (omega arith) (omega (arith, e)) dt))
        (let none_yet : done + 0 ≡ done = omega arith in rw none_yet d))

  pub start : (s : SetT) → Denotes s f → Denotes s (λ v. f v || in_range addr 0 v)
  start s d = Denotes-agree s f _ d (λ v lt. rw (nothing_yet addr v) (sym (or-false (f v))))

  pub first_byte : (s : SetT) → Denotes s f → Adds (insert_byte addr 0 s) f addr 1
  first_byte s d = one_more s 0 addr 0 (omega arith) refl (start s d)

  pub first_half :
      (s : SetT) → Denotes s f → Adds (insert_byte addr 0 s >>= insert_byte addr 1) f addr 2
  first_half s d =
      let (t, ran, dt) = first_byte s d in rw ran (one_more t 1 addr 1 (omega arith) refl dt)

  pub first_bytes :
      (k : ℕ) (s : SetT)
      → k ≤ 2 ^ 32
      → Denotes s f
      → Adds (for_loop k 0 (insert_byte addr) s) f addr k
  first_bytes k s b d = more_bytes k 0 k addr s (omega arith) b (omega arith) (start s d)
