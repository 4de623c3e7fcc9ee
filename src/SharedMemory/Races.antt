-- ===== src/SharedMemory/Races.antt =====
-- interleaver.c: what `find_shared_memory` finds.
use mathlib.Core.Bool.{◌||◌, or_comm, or-false}
use thread_equivalence_check.Base.{
  ℕ, ◌+◌, ◌-◌, ◌<◌, ◌≡◌, refl, sym, subst, inl, inr, Bool, not, ◌&&◌, Option, some, ◌==◌, arith,
  Bool-cases,
}
use thread_equivalence_check.Base.Exists.{any_below, collect, nothing, absorb}
use thread_equivalence_check.Base.Loops.{for_loop, for_loop_inv}
use thread_equivalence_check.TrieSet.{SetT, set_alloc, set_alloc_offset, set_mk}
use thread_equivalence_check.TrieSet.Free.{free_total}
use thread_equivalence_check.TrieSet.Wf.{root-not-null}
use thread_equivalence_check.TrieSet.Spec.{
  Denotes, Denotes-agree, intersection-Denotes, union_inplace-Denotes,
}
use thread_equivalence_check.SharedMemory.{
  store, add_intersection, rw_round, rw_sets, pair_round, all_pairs, later_round, later_pairs,
  find_shared_memory,
}

Denotes-as : (s : SetT) (f g : ℕ → Bool) → Denotes s f → ((v : ℕ) → f v ≡ g v) → Denotes s g
Denotes-as s f g d h = Denotes-agree s f g d (λ v lt. h v)

-- A set that a call returns.
abbrev Gives : Option SetT → (ℕ → Bool) → Type 0
Gives r f = (s : SetT) × (r ≡ some s) × Denotes s f

add_intersection-Denotes :
    (x y s : SetT) (f g h : ℕ → Bool)
    → Denotes x f
    → Denotes y g
    → Denotes s h
    → Gives (add_intersection x y s) (λ v. h v || (f v && g v))
unfolding add_intersection set_alloc set_alloc_offset set_mk
add_intersection-Denotes x y s f g h dx dy ds =
    let (tmp, ran, dt) = intersection-Denotes x y f g dx dy 0 (λ i. SetT.null) in
    let (s', ran', ds') = union_inplace-Denotes tmp s (λ v. f v && g v) h dt ds in
    (
      s',
      rw (ran, ran', free_total tmp (root-not-null tmp dt.wf)) refl,
      Denotes-as s' _ _ ds' (λ v. or_comm (f v && g v) (h v)),
    )

-- Function `i` reads `v` and another function writes it.
abbrev pub race_at : (ℕ → ℕ → Bool) → (ℕ → ℕ → Bool) → ℕ → ℕ → ℕ → Bool
race_at rd wr v i j = not (i == j) && (rd i v && wr j v)

abbrev pub raced : (ℕ → ℕ → Bool) → (ℕ → ℕ → Bool) → ℕ → ℕ → Bool
raced rd wr n v = any_below n (λ i. any_below n (λ j. race_at rd wr v i j))

module _ (reads writes : ℕ → SetT) (n : ℕ) (rd wr : ℕ → ℕ → Bool)
    (dr : (i : ℕ) → i < n → Denotes (reads i) (rd i))
    (dw : (i : ℕ) → i < n → Denotes (writes i) (wr i)) where
  pair_step :
      (i j : ℕ) (s : SetT) (h : ℕ → Bool)
      → i < n
      → j < n
      → Denotes s h
      → Gives (pair_round reads writes n i j s) (λ v. h v || race_at rd wr v i j)
  unfolding pair_round
  pair_step i j s h hi hj d = elim (Bool-cases (i == j)) [
    | inl e ↦ rw e (s, refl, Denotes-as s h _ d (λ v. sym (or-false (h v))))
    | inr ne ↦
        rw ne
          (add_intersection-Denotes (reads i) (writes j) s (rd i) (wr j) h (dr i hi) (dw j hj) d)
  ]

  row :
      (i : ℕ) (s : SetT) (h : ℕ → Bool)
      → i < n
      → Denotes s h
      → Gives
          (for_loop n 0 (pair_round reads writes n i) s)
          (λ v. h v || any_below n (race_at rd wr v i))
  row i s h hi d =
      for_loop_inv (λ j t. Denotes t (λ v. h v || any_below j (race_at rd wr v i)))
        (pair_round reads writes n i) n 0 n s (omega arith)
        (λ j t low high dt.
          let (u, ran, du) = pair_step i j t _ hi high dt in
          (u, ran, Denotes-as u _ _ du (λ v. collect (h v) j (race_at rd wr v i))))
        (Denotes-as s h _ d (λ v. sym (nothing 0 (h v) _ refl)))

  all_pairs-Denotes :
      (s : SetT) (f : ℕ → Bool)
      → Denotes s f
      → Gives (all_pairs reads writes n s) (λ v. f v || raced rd wr n v)
  unfolding all_pairs
  all_pairs-Denotes s f d =
      for_loop_inv
        (λ i t. Denotes t (λ v. f v || any_below i (λ i'. any_below n (race_at rd wr v i'))))
        (λ i. for_loop n 0 (pair_round reads writes n i)) n 0 n s (omega arith)
        (λ i t low high dt.
          let (u, ran, du) = row i t _ high dt in
          (
            u,
            ran,
            Denotes-as u _ _ du (λ v. collect (f v) i (λ i'. any_below n (race_at rd wr v i'))),
          ))
        (Denotes-as s f _ d (λ v. sym (nothing 0 (f v) _ refl)))

  -- The pairs of the last loop have been found before.
  known :
      (i j v : ℕ) (b : Bool)
      → i < j
      → j < n
      → ((b || raced rd wr n v) || (rd i v && wr j v)) ≡ (b || raced rd wr n v)
  known i j v b hi hj =
      let hit : race_at rd wr v i j ≡ (rd i v && wr j v) = ground arith in
      let one = absorb n (race_at rd wr v i) j hj in
      let two = absorb n (λ i'. any_below n (race_at rd wr v i')) i (omega arith) in
      ground (arith, hit, one, two)

  later_row :
      (i : ℕ) (s : SetT) (f : ℕ → Bool)
      → i < n
      → Denotes s (λ v. f v || raced rd wr n v)
      → Gives
          (for_loop (n - (i + 1)) (i + 1) (later_round reads writes n i) s)
          (λ v. f v || raced rd wr n v)
  unfolding later_round
  later_row i s f hi d =
      for_loop_inv (λ j t. Denotes t (λ v. f v || raced rd wr n v)) (later_round reads writes n i)
        (n - (i + 1)) (i + 1) n s (omega arith)
        (λ j t low high dt.
          let (u, ran, du) =
            add_intersection-Denotes (reads i) (writes j) t (rd i) (wr j) _ (dr i hi) (dw j high)
              dt in
          (u, ran, Denotes-as u _ _ du (λ v. known i j v (f v) (omega arith) high)))
        d

  later_pairs-Denotes :
      (s : SetT) (f : ℕ → Bool)
      → Denotes s (λ v. f v || raced rd wr n v)
      → Gives (later_pairs reads writes n s) (λ v. f v || raced rd wr n v)
  unfolding later_pairs
  later_pairs-Denotes s f d =
      for_loop_inv (λ j t. Denotes t (λ v. f v || raced rd wr n v))
        (λ i. for_loop (n - (i + 1)) (i + 1) (later_round reads writes n i)) n 0 n s (omega arith)
        (λ i t low high dt. later_row i t f high dt) d

-- What `find_rw_set` is to do: in a state in `Good i` it runs function `i` from empty sets, returns
-- what it read and wrote, and leaves a state in `Good (i + 1)`.
abbrev pub Traces :
    {Exe S : Type 0}
    → (Exe → SetT → SetT → S → Option ((SetT × SetT) × S))
    → (ℕ → S → Type 0)
    → (ℕ → Exe)
    → ℕ
    → (ℕ → ℕ → Bool)
    → (ℕ → ℕ → Bool)
    → Type 0
Traces {S = S} find_rw_set Good executables n rd wr =
    (i : ℕ) (s : S)
    → i < n
    → Good i s
    → (r : SetT) × (w : SetT) × (s' : S) × (find_rw_set (executables i) set_alloc set_alloc s
        ≡ some ((r, w), s'))
      × Denotes r (rd i)
      × Denotes w (wr i)
      × Good (i + 1) s'

module _ {Exe S : Type 0} (find_rw_set : Exe → SetT → SetT → S → Option ((SetT × SetT) × S))
    (Good : ℕ → S → Type 0) (executables : ℕ → Exe) (n : ℕ) (rd wr : ℕ → ℕ → Bool)
    (traces : Traces find_rw_set Good executables n rd wr) where
  abbrev Filled : ℕ → ((ℕ → SetT) × (ℕ → SetT)) × S → Type 0
  Filled k a =
      ((i : ℕ) → i < k → Denotes (a.0.0 i) (rd i))
      × ((i : ℕ) → i < k → Denotes (a.0.1 i) (wr i))
      × Good k a.1

  fill_one :
      (k : ℕ) (a : ℕ → SetT) (x : SetT) (f : ℕ → ℕ → Bool)
      → ((i : ℕ) → i < k → Denotes (a i) (f i))
      → Denotes x (f k)
      → (i : ℕ) → i < k + 1
      → Denotes (store a k x i) (f i)
  fill_one k a x f old new i h = elim (Bool-cases (i == k)) [
    | inl e ↦ rw e (let e' : k ≡ i = ground arith in subst (λ t. Denotes x (f t)) e' new)
    | inr ne ↦ rw ne (old i (ground arith))
  ]

  rw_sets-Filled :
      (a : (ℕ → SetT) × (ℕ → SetT)) (s : S)
      → Good 0 s
      → (b : ((ℕ → SetT) × (ℕ → SetT)) × S) × (rw_sets find_rw_set executables n (a, s) ≡ some b)
        × Filled n b
  unfolding rw_sets rw_round
  rw_sets-Filled a s good =
      for_loop_inv Filled (rw_round find_rw_set executables) n 0 n (a, s) (omega arith)
        (λ i b low high (old_r, old_w, fine).
          let (r, w, s', ran, dr, dw, fine') = traces i b.1 high fine in
          (
            ((store b.0.0 i r, store b.0.1 i w), s'),
            rw ran refl,
            (fill_one i b.0.0 r rd old_r dr, fill_one i b.0.1 w wr old_w dw, fine'),
          ))
        ((λ i h. elim h [ ]), (λ i h. elim h [ ]), good)

  -- The result holds what the set held before and each byte that one function reads and another
  -- writes, and nothing else. A byte that functions only write is not found.
  pub find_shared_memory-raced :
      (a : (ℕ → SetT) × (ℕ → SetT)) (shared : SetT) (f : ℕ → Bool) (s : S)
      → Denotes shared f
      → Good 0 s
      → (found : SetT) × (s' : S) × (find_shared_memory find_rw_set executables n a shared s
          ≡ some (found, s'))
        × Denotes found (λ v. f v || raced rd wr n v)
        × Good n s'
  unfolding find_shared_memory
  find_shared_memory-raced a shared f s d good =
      let (b, ran, filled) = rw_sets-Filled a s good in
      let (found, ran', ds) = all_pairs-Denotes b.0.0 b.0.1 n rd wr filled.0 filled.1 shared f d in
      let (found', ran'', ds') =
        later_pairs-Denotes b.0.0 b.0.1 n rd wr filled.0 filled.1 found f ds in
      (found', b.1, rw (ran, ran', ran'') refl, ds', filled.2)
