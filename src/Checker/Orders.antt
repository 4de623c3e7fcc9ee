-- ===== src/Checker/Orders.antt =====
-- equiv-checker.c: the valid hashes are those of the sequential runs in every order.
use thread_equivalence_check.Base.{
  ℕ, zero, suc, ◌<◌, ◌^◌, ◌≡◌, ◌↔◌, refl, sym, ap, ◌∙◌, fun_ext, List, [], ◌∷◌, map, Bool, true,
  false, ◌==◌, ==_iff, length, inl, inr, arith,
}
use thread_equivalence_check.Base.Exists.{any_below, found_below, none_below}
use thread_equivalence_check.TrieSet.{SetT}
use thread_equivalence_check.TrieSet.Spec.{Denotes}
use thread_equivalence_check.TrieSet.Count.{values}
use thread_equivalence_check.Memory.{Xxh32}
use thread_equivalence_check.Memory.Hash.{Streams}
use thread_equivalence_check.Permutations.{count_up}
use thread_equivalence_check.Permutations.Entries.{Within}
use thread_equivalence_check.Permutations.Orders.{Reorders}
use thread_equivalence_check.Interleaver.{FunctionExec}
use thread_equivalence_check.Interleaver.Good.{sequential, good_hash, world-suc}
use thread_equivalence_check.Checker.{entry, row_at}

-- A member of the rows is one of them, and a row is a member.
Within-row_at :
    (row : List ℕ) (rows : List (List ℕ))
    → Within row rows
    → (i : ℕ) × (i < length rows) × (row_at rows i ≡ row)
unfolding row_at
Within-row_at row [] h = absurd h
Within-row_at row (r ∷ rows) (inl e) = (0, omega arith, sym e)
Within-row_at row (r ∷ rows) (inr h) =
    let (i, lt, at) = Within-row_at row rows h in (suc i, omega arith, at)

row_at-Within : (rows : List (List ℕ)) (i : ℕ) → i < length rows → Within (row_at rows i) rows
unfolding row_at
row_at-Within [] i h = absurd (omega arith)
row_at-Within (r ∷ rows) zero h = inl refl
row_at-Within (r ∷ rows) (suc i) h = inr (row_at-Within rows i (omega arith))

module _ {H W : Type 0} (x : Xxh32 H) (memory : W → ℕ → ℕ) (init : W → W)
    (call : FunctionExec → W → W) (executables : ℕ → FunctionExec) (n : ℕ) where
  -- `init` resets: the memory after a sequential run does not depend on the world before `init`.
  abbrev pub Resets : Type 0
  Resets =
      (row : ℕ → ℕ) (w w' : W) (v : ℕ)
      → memory (sequential call executables row n (init w)) v
        ≡ memory (sequential call executables row n (init w')) v

  -- The hash of the bytes after the functions have run in the order of the row.
  abbrev pub hash_after : (ℕ → Bool) → W → List ℕ → ℕ
  hash_after bytes w row = x.digest (
      x.update x.create
        (map (memory (sequential call executables (entry row) n (init w))) (values bytes)))

  -- The hash of a sequential run of all the functions in some order.
  abbrev pub IsSequential : (ℕ → Bool) → W → ℕ → Type 0
  IsSequential bytes w h =
      (row : List ℕ) × Reorders (count_up n 0) row × (h ≡ hash_after bytes w row)

  module _ (streams : Streams x) (word : (h : H) → x.digest h < 2 ^ 32) (resets : Resets)
      (rows : List (List ℕ)) (shared : SetT) (bytes : ℕ → Bool) (ds : Denotes shared bytes)
      (w w0 : W) where
    abbrev good : ℕ → ℕ
    good =
        good_hash x streams word memory init call executables n (λ i. entry (row_at rows i)) shared
          bytes ds w

    good-hash_after : (i : ℕ) → good i ≡ hash_after bytes w0 (row_at rows i)
    good-hash_after i =
        rw
          (world-suc x streams word memory init call executables n (λ i. entry (row_at rows i))
            shared bytes ds i w)
          (ap (λ m. x.digest (x.update x.create (map m (values bytes))))
            (fun_ext (λ v. resets (entry (row_at rows i)) _ w0 v)))

    module _ (every : (row : List ℕ) → Within row rows ↔ Reorders (count_up n 0) row) (v : ℕ) where
      pub found-IsSequential :
          any_below (length rows) (λ i. v == good i) ≡ true → IsSequential bytes w0 v
      found-IsSequential h =
          let (i, lt, at) = found_below (length rows) (λ i. v == good i) h in
          (
            row_at rows i,
            (every (row_at rows i)).0 (row_at-Within rows i lt),
            (==_iff v (good i)).0 at ∙ good-hash_after i,
          )

      pub not-found-IsSequential :
          any_below (length rows) (λ i. v == good i) ≡ false → ¬ (IsSequential bytes w0 v)
      not-found-IsSequential h (row, re, e) =
          let (i, lt, at) = Within-row_at row rows ((every row).1 re) in
          let miss = none_below (length rows) (λ i. v == good i) i h lt in
          let hit : (v == good i) ≡ true =
            (==_iff v (good i)).1
              (e ∙ ap (hash_after bytes w0) (sym at) ∙ sym (good-hash_after i)) in
          cc
