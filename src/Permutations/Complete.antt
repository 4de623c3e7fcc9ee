-- ===== src/Permutations/Complete.antt =====
-- permutations.c: the rows that `permute` adds are all the orders, each once.
use thread_equivalence_check.Base.{
  ℕ, ◌+◌, ◌≤◌, ◌<◌, ◌≡◌, ◌≢◌, sym, ap, ◌∙◌, Option, some, List, ◌++◌, All, All-append, All-map,
  length, get_elem?, inl, inr, Bool-cases, ◌==◌, arith,
}
use thread_equivalence_check.Permutations.Swaps.{count, Swapped, SameBelow, has_entry}
use thread_equivalence_check.Permutations.Entries.{
  Within, IsNodup, count-twice, Within-left, Within-right, append-IsNodup,
}
use thread_equivalence_check.Permutations.Orders.{Reorders}

-- The rows are the reorderings of the array that start like it, each once if its values differ.
pub record IsListing (start : ℕ) (arr : List ℕ) (rows : List (List ℕ)) : Type 0 where
  pub reorders : All (Reorders arr) rows
  pub same : All (SameBelow start arr) rows
  pub complete : (row : List ℕ) → Reorders arr row → SameBelow start arr row → Within row rows
  pub distinct : ((v : ℕ) → count v arr ≤ 1) → IsNodup rows

abbrev pub Lists : ℕ → List ℕ → List (List ℕ) → Option (List ℕ × List (List ℕ)) → Type 0
Lists start arr itl r =
    (rows : List (List ℕ)) × (r ≡ some (arr, itl ++ rows)) × IsListing start arr rows

-- The entry at `start` is one of those before `i`.
abbrev pub IsBelow : ℕ → List ℕ → ℕ → List ℕ → Type 0
IsBelow start arr i row = (j : ℕ) × (j < i) × (get_elem? row start ≡ get_elem? arr j)

-- The rows after the rounds before `i`.
pub record IsPart (start : ℕ) (arr : List ℕ) (i : ℕ) (rows : List (List ℕ)) : Type 0 where
  pub reorders : All (Reorders arr) rows
  pub same : All (SameBelow start arr) rows
  pub heads : All (IsBelow start arr i) rows
  pub complete :
      (row : List ℕ) (j : ℕ)
      → Reorders arr row
      → SameBelow start arr row
      → start ≤ j
      → j < i
      → get_elem? row start ≡ get_elem? arr j
      → Within row rows
  pub distinct : ((v : ℕ) → count v arr ≤ 1) → IsNodup rows

module _ (start i : ℕ) (arr arr1 : List ℕ) (rows rows' : List (List ℕ)) (low : start ≤ i)
    (high : i < length arr) (swapped : Swapped start i arr arr1) (part : IsPart start arr i rows)
    (added : IsListing (start + 1) arr1 rows') where
  abbrev moved : get_elem? arr1 start ≡ get_elem? arr i
  moved = swapped.5

  Reorders-swapped : (row : List ℕ) → Reorders arr1 row → Reorders arr row
  Reorders-swapped row (l, c) = (l ∙ swapped.1, λ v. c v ∙ swapped.2 v)

  SameBelow-swapped : (row : List ℕ) → SameBelow (start + 1) arr1 row → SameBelow start arr row
  SameBelow-swapped row h j lt = h j (omega arith) ∙ swapped.4 (omega arith) j lt

  head_moved :
      (row : List ℕ) → SameBelow (start + 1) arr1 row → get_elem? row start ≡ get_elem? arr i
  head_moved row h = h start (omega arith) ∙ moved

  -- With different values the heads of the rows tell the rounds apart.
  heads_differ :
      ((v : ℕ) → count v arr ≤ 1)
      → (r s : List ℕ) → IsBelow start arr i r
      → SameBelow (start + 1) arr1 s
      → r ≢ s
  heads_differ once r s (j, lt, e) h same =
      let (v, at) = has_entry arr i high in
      let there : get_elem? arr j ≡ some v =
        sym e ∙ ap (λ x. get_elem? x start) same ∙ head_moved s h ∙ at in
      omega (arith, once v, count-twice v arr j i lt there at)

  pub add-IsPart : IsPart start arr (i + 1) (rows ++ rows')
  add-IsPart = record {
    reorders =
        All-append (Reorders arr) rows rows' part.reorders
          (All-map (Reorders arr1) (Reorders arr) rows' Reorders-swapped added.reorders);
    same = All-append (SameBelow start arr) rows rows' part.same (
        All-map (SameBelow (start + 1) arr1) (SameBelow start arr) rows' SameBelow-swapped
          added.same);
    heads =
        All-append (IsBelow start arr (i + 1)) rows rows'
          (All-map (IsBelow start arr i) (IsBelow start arr (i + 1)) rows
            (λ row (j, lt, e). (j, omega arith, e)) part.heads)
          (All-map (SameBelow (start + 1) arr1) (IsBelow start arr (i + 1)) rows'
            (λ row h. (i, omega arith, head_moved row h)) added.same);
    complete = λ row j re same ge lt e. elim (Bool-cases (j == i)) [
      | inl here ↦
          let j' : j ≡ i = ground arith in
          Within-right row rows rows' (
            added.complete row (re.0 ∙ sym swapped.1, λ v. re.1 v ∙ sym (swapped.2 v))
              (λ k below. elim (Bool-cases (k == start)) [
                | inl first ↦
                    let k' : k ≡ start = ground arith in
                    ap (get_elem? row) k'
                    ∙ e
                    ∙ ap (get_elem? arr) j'
                    ∙ sym moved
                    ∙ ap (get_elem? arr1) (sym k')
                | inr ne ↦
                    let lower : k < start = ground arith in
                    same k lower ∙ sym (swapped.4 (omega arith) k lower)
              ]))
      | inr ne ↦ Within-left row rows rows' (part.complete row j re same ge (ground arith) e)
    ];
    distinct = λ once.
        append-IsNodup rows rows' (part.distinct once)
          (added.distinct (λ v. omega (arith, once v, swapped.2 v)))
          (All-map (IsBelow start arr i) (λ r. All (λ s. r ≢ s) rows') rows
            (λ r b.
              All-map (SameBelow (start + 1) arr1) (λ s. r ≢ s) rows'
                (λ s h. heads_differ once r s b h) added.same)
            part.heads);
  }
