-- ===== src/Interleaver/Least.antt =====
-- interleaver.c, `run_interleavings`: the next counts are the least in the lexicographic order.
use thread_equivalence_check.Base.{
  ℕ, zero, suc, ◌+◌, ◌≤◌, ◌<◌, ◌^◌, ◌≡◌, sym, subst, some, List, [], ◌∷◌, false, length, get_elem?,
  All, ◌==◌, Bool-cases, ◌⊎◌, inl, inr, arith,
}
use thread_equivalence_check.Interleaver.{advance}
use thread_equivalence_check.Interleaver.Advance.{NextCounts, advance-NextCounts}

-- The lexicographic order on arrays of the same length.
unfoldable pub LexLeq : List ℕ → List ℕ → Type 0
LexLeq [] ys = Unit
LexLeq (x ∷ xs) [] = ⊥
LexLeq (x ∷ xs) (y ∷ ys) = (x < y) ⊎ ((x ≡ y) × LexLeq xs ys)

-- The slots up to `k` of the second array exceed those of the first, lexicographically.
unfoldable pub ExceedsUpTo : ℕ → List ℕ → List ℕ → Type 0
ExceedsUpTo k [] ys = ⊥
ExceedsUpTo k (x ∷ xs) [] = ⊥
ExceedsUpTo zero (x ∷ xs) (y ∷ ys) = x < y
ExceedsUpTo (suc k) (x ∷ xs) (y ∷ ys) = (x < y) ⊎ ((x ≡ y) × ExceedsUpTo k xs ys)

abbrev pub Counts : List ℕ → Type 0
Counts xs = All (λ c. 1 ≤ c) xs

-- The least array of counts, all at least 1, whose slots up to `k` exceed those of `xs`.
abbrev pub IsNext : ℕ → List ℕ → List ℕ → Type 0
IsNext k xs ys =
    (length ys ≡ length xs)
    × Counts ys
    × ExceedsUpTo k xs ys
    × ((zs : List ℕ) → length zs ≡ length xs → Counts zs → ExceedsUpTo k xs zs → LexLeq ys zs)

ones-Counts : (ys : List ℕ) → ((j : ℕ) → j < length ys → get_elem? ys j ≡ some 1) → Counts ys
ones-Counts [] ones = tt
ones-Counts (y ∷ ys) ones =
    let first : some y ≡ some 1 = ones 0 (omega arith) in
    let one : y ≡ 1 = cc in (omega arith, ones-Counts ys (λ j h. ones (suc j) (omega arith)))

ones-LexLeq :
    (ys zs : List ℕ)
    → length zs ≡ length ys
    → ((j : ℕ) → j < length ys → get_elem? ys j ≡ some 1)
    → Counts zs
    → LexLeq ys zs
unfolding LexLeq
ones-LexLeq [] zs l ones h = tt
ones-LexLeq (y ∷ ys) [] l ones h = absurd (omega (arith, l))
ones-LexLeq (y ∷ ys) (suc (suc z) ∷ zs) l ones (h, hs) =
    let first : some y ≡ some 1 = ones 0 (omega arith) in let one : y ≡ 1 = cc in inl (omega arith)
ones-LexLeq (y ∷ ys) (suc zero ∷ zs) l ones (h, hs) =
    let first : some y ≡ some 1 = ones 0 (omega arith) in
    let one : y ≡ 1 = cc in
    inr (one, ones-LexLeq ys zs (omega (arith, l)) (λ j lt. ones (suc j) (omega arith)) hs)
ones-LexLeq (y ∷ ys) (zero ∷ zs) l ones (h, hs) = absurd (omega arith)

rest-NextCounts :
    (k x y : ℕ) (xs ys : List ℕ)
    → NextCounts (suc k) (length (x ∷ xs)) (x ∷ xs) (y ∷ ys)
    → (y ≡ x) × NextCounts k (length xs) xs ys
rest-NextCounts k x y xs ys (l, kept, (b, was, now), ones) =
    let first : some y ≡ some x = kept 0 (omega arith) in
    let same : y ≡ x = cc in
    (
      same,
      (
        omega (arith, l),
        (λ j lt. kept (suc j) (omega arith)),
        (b, was, now),
        λ j low high. ones (suc j) (omega arith) (omega arith),
      ),
    )

-- The slot that changes, when it is the first: one more, and ones after it.
first-NextCounts :
    (x y : ℕ) (xs ys : List ℕ)
    → NextCounts zero (length (x ∷ xs)) (x ∷ xs) (y ∷ ys)
    → (y ≡ x + 1) × (length ys ≡ length xs) × ((j : ℕ) → j < length ys → get_elem? ys j ≡ some 1)
first-NextCounts x y xs ys (l, kept, (b, was, now), ones) =
    let is : x ≡ b = cc in
    let up : y ≡ b + 1 = cc in
    (omega arith, omega (arith, l), λ j lt. ones (suc j) (omega arith) (omega (arith, l)))

next-Counts :
    (k : ℕ) (xs ys : List ℕ)
    → Counts xs
    → NextCounts k (length xs) xs ys
    → Counts ys × ExceedsUpTo k xs ys
unfolding ExceedsUpTo
next-Counts k [] ys h (l, kept, (b, was, now), ones) = absurd cc
next-Counts k (x ∷ xs) [] h (l, kept, (b, was, now), ones) = absurd cc
next-Counts zero (x ∷ xs) (y ∷ ys) (h, hs) next =
    let (up, l, ones) = first-NextCounts x y xs ys next in
    ((omega arith, ones-Counts ys ones), omega arith)
next-Counts (suc k) (x ∷ xs) (y ∷ ys) (h, hs) next =
    let (same, rest) = rest-NextCounts k x y xs ys next in
    let (tail, more) = next-Counts k xs ys hs rest in
    let back : x ≡ y = cc in ((omega arith, tail), inr (back, more))

least :
    (k : ℕ) (xs ys zs : List ℕ)
    → NextCounts k (length xs) xs ys
    → length zs ≡ length xs
    → Counts zs
    → ExceedsUpTo k xs zs
    → LexLeq ys zs
unfolding ExceedsUpTo LexLeq
least k xs [] zs next l h more = tt
least k [] (y ∷ ys) zs next l h more = absurd more
least k (x ∷ xs) (y ∷ ys) [] next l h more = absurd more
least zero (x ∷ xs) (y ∷ ys) (z ∷ zs) next l (h, hs) more =
    let (up, same, ones) = first-NextCounts x y xs ys next in
    elim (Bool-cases (y == z)) [
      | inl e ↦
          let is : y ≡ z = ground arith in
          inr (is, ones-LexLeq ys zs (omega (arith, l, same)) ones hs)
      | inr ne ↦ inl (ground arith)
    ]
least (suc k) (x ∷ xs) (y ∷ ys) (z ∷ zs) next l (h, hs) (inl more) =
    let (same, rest) = rest-NextCounts k x y xs ys next in inl (omega arith)
least (suc k) (x ∷ xs) (y ∷ ys) (z ∷ zs) next l (h, hs) (inr (is, more)) =
    let (same, rest) = rest-NextCounts k x y xs ys next in
    let first : y ≡ z = cc in inr (first, least k xs ys zs rest (omega (arith, l)) hs more)

-- After a run that made `k + 1` context switches, with counts that are all at least 1, the thread ids
-- stay, the loop goes on, and the next counts are the least in the lexicographic order among the
-- arrays of counts, all at least 1, that exceed those of the run in the slots up to `k`. The ones
-- between, which are left out, agree with the run in these slots.
pub advance-IsNext :
    (ncs num_funcs k a : ℕ) (tids instr_nums : List ℕ)
    → length instr_nums ≡ ncs
    → Counts instr_nums
    → get_elem? instr_nums k ≡ some a
    → a + 1 < 2 ^ 32
    → k < ncs
    → (ys : List ℕ) × (advance ncs num_funcs (k + 1) tids instr_nums ≡ some ((tids, ys), false))
      × IsNext k instr_nums ys
advance-IsNext ncs num_funcs k a tids instr_nums l h old word lt =
    let (ys, ran, next) = advance-NextCounts ncs num_funcs k a tids instr_nums l old word lt in
    let slots : NextCounts k (length instr_nums) instr_nums ys =
      subst (λ n. NextCounts k n instr_nums ys) (sym l) next in
    let (counts, more) = next-Counts k instr_nums ys h slots in
    (
      ys,
      ran,
      (slots.0, counts, more, λ zs same hz over. least k instr_nums ys zs slots same hz over),
    )
