-- ===== src/Permutations/Listing.antt =====
-- permutations.c: `permute` and `find_permutations` list every order once.
use mathlib.Core.List.{append_assoc, append-nil}
use thread_equivalence_check.Base.{
  ℕ, zero, suc, ◌+◌, ◌≤◌, ◌<◌, ◌≡◌, ◌↔◌, refl, sym, ap, ◌∙◌, Option, none, some, List, [], ◌∷◌,
  ◌++◌, All, length, inl, inr, Bool-cases, true, false, subst, leb, ◌^◌, ◌%◌, ◌==◌, arith,
}
use thread_equivalence_check.Base.Loops.{for_loop, for_loop_inv}
use thread_equivalence_check.Permutations.{
  permute_round, permute, count_up, find_permutations, factorial, get_func_permutations,
}
use thread_equivalence_check.Permutations.Swaps.{count, swap-Swapped, has_entry}
use thread_equivalence_check.Permutations.Entries.{Within, IsNodup, occurs_after, one_place}
use thread_equivalence_check.Permutations.Orders.{
  fact, Reorders, length-count_up, permute-AddsOrders,
}
use thread_equivalence_check.Permutations.Factorial.{factorial-fact}
use thread_equivalence_check.Permutations.Complete.{IsListing, Lists, IsPart, add-IsPart}

base-IsListing :
    (start : ℕ) (arr : List ℕ) → length arr ≡ start + 1 → IsListing start arr (arr ∷ [])
base-IsListing start arr long = record {
  reorders = ((refl, λ v. refl), tt);
  same = ((λ j lt. refl), tt);
  complete = λ row re same. inl (one_place start arr row long re.0 same re.1);
  distinct = λ once. (tt, tt);
}

whole-IsListing :
    (start : ℕ) (arr : List ℕ) (rows : List (List ℕ))
    → start < length arr
    → IsPart start arr (length arr) rows
    → IsListing start arr rows
whole-IsListing start arr rows h part = record {
  reorders = part.reorders;
  same = part.same;
  complete = λ row re same.
      let (v, at) = has_entry row start (omega (arith, re.0)) in
      let (j, low, lt, e) = occurs_after start v arr row same re.1 re.0 at in
      part.complete row j re same low lt (at ∙ sym e);
  distinct = part.distinct;
}

module _ (start left : ℕ) (arr : List ℕ) (itl : List (List ℕ))
    (long : length arr ≡ start + left + 2)
    (deeper : (arr1 : List ℕ) (itl1 : List (List ℕ))
      → length arr1 ≡ start + left + 2
      → Lists (start + 1) arr1 itl1 (permute left (start + 1) (arr1, itl1))) where
  abbrev Listed : ℕ → List ℕ × List (List ℕ) → Type 0
  Listed i t =
      (t.0 ≡ arr) × ((rows : List (List ℕ)) × (t.1 ≡ itl ++ rows) × IsPart start arr i rows)

  round-Listed :
      (i : ℕ) (t : List ℕ × List (List ℕ))
      → start ≤ i
      → i < start + (left + 2)
      → Listed i t
      → (u : List ℕ × List (List ℕ)) × (permute_round (permute left (start + 1)) start i t ≡ some u)
        × Listed (i + 1) u
  unfolding permute_round
  round-Listed i (arr', itl') low high (same, (rows, e, part)) =
      let (arr1, swapped) = swap-Swapped start i arr (omega (arith, long)) (omega (arith, long)) in
      let (rows', ran, added) = deeper arr1 (itl ++ rows) (swapped.1 ∙ long) in
      (
        (arr, (itl ++ rows) ++ rows'),
        rw (same, e, swapped.0, ran, swapped.3) refl,
        (
          refl,
          (
            rows ++ rows',
            append_assoc itl rows rows',
            add-IsPart start i arr arr1 rows rows' low (omega (arith, long)) swapped part added,
          ),
        ),
      )

  parts :
      (t : List ℕ × List (List ℕ)) (rows : List (List ℕ))
      → t.0 ≡ arr
      → t.1 ≡ itl ++ rows
      → some t ≡ some (arr, itl ++ rows)
  parts (a, r) rows e f = rw (e, f) refl

  none-IsPart : IsPart start arr start []
  none-IsPart = record {
    reorders = tt;
    same = tt;
    heads = tt;
    complete = λ row j re same ge lt e. absurd (omega arith);
    distinct = λ once. tt;
  }

  loop-Lists :
      Lists start arr itl
        (for_loop (left + 2) start (permute_round (permute left (start + 1)) start) (arr, itl))
  loop-Lists =
      let (t, ran, (same, (rows, e, part))) =
        for_loop_inv Listed (permute_round (permute left (start + 1)) start) (left + 2) start
          (start + (left + 2)) (arr, itl) refl round-Listed
          (refl, ([], sym (append-nil itl), none-IsPart)) in
      let end : start + (left + 2) ≡ length arr = omega (arith, long) in
      (
        rows,
        ran ∙ parts t rows same e,
        whole-IsListing start arr rows (omega (arith, long))
            (subst (λ k. IsPart start arr k rows) end part),
      )

pub permute-Lists :
    (left start : ℕ) (arr : List ℕ) (itl : List (List ℕ))
    → length arr ≡ start + left + 1
    → Lists start arr itl (permute left start (arr, itl))
unfolding permute
permute-Lists zero start arr itl long =
    (arr ∷ [], refl, base-IsListing start arr (omega (arith, long)))
permute-Lists (suc left) start arr itl long =
    loop-Lists start left arr itl (omega (arith, long))
      (λ a i l. permute-Lists left (start + 1) a i (omega (arith, l)))

count-below : (v n i : ℕ) → v < i → count v (count_up n i) ≡ 0
unfolding count count_up
count-below v zero i h = refl
count-below v (suc n) i h =
    let rest = count-below v n (i + 1) (omega arith) in
    let other : (i == v) ≡ false = ground arith in rw (other, rest) refl

count-count_up : (v n i : ℕ) → count v (count_up n i) ≤ 1
unfolding count count_up
count-count_up v zero i = omega arith
count-count_up v (suc n) i = elim (Bool-cases (i == v)) [
  | inl e ↦
      let none_later = count-below v n (i + 1) (ground arith) in rw (e, none_later) (omega arith)
  | inr ne ↦ rw ne (omega (arith, count-count_up v n (i + 1)))
]

All-Within :
    (P : List ℕ → Type 0) (row : List ℕ) (rows : List (List ℕ))
    → All P rows
    → Within row rows
    → P row
All-Within P row [] h m = absurd m
All-Within P row (r ∷ rows) (h, hs) (inl e) = rw e h
All-Within P row (r ∷ rows) (h, hs) (inr m) = All-Within P row rows hs m

-- How many rows a result has.
rows_of : Option (List ℕ × List (List ℕ)) → ℕ
rows_of none = 0
rows_of (some (arr, rows)) = length rows

-- For at least one function `find_permutations` finishes, and its rows are the reorderings of the
-- numbers from 0 on that `count_up` lists, all of them and nothing else, each once; their number is
-- the factorial of the number of functions.
pub find_permutations-Reorders :
    (n : ℕ)
    → (rows : List (List ℕ)) × (find_permutations (suc n) ≡ some rows)
      × (length rows ≡ fact (suc n))
      × IsNodup rows
      × ((row : List ℕ) → Within row rows ↔ Reorders (count_up (suc n) 0) row)
unfolding find_permutations rows_of
find_permutations-Reorders n =
    let first = count_up (suc n) 0 in
    let long = length-count_up (suc n) 0 in
    let (rows, ran, listing) = permute-Lists n 0 first [] (omega (arith, long)) in
    let (rows', ran', many, _) = permute-AddsOrders n 0 first [] (omega (arith, long)) in
    (
      rows,
      rw ran refl,
      ap rows_of (sym ran ∙ ran') ∙ many,
      listing.distinct (λ v. count-count_up v (suc n) 0),
      λ row. (
        All-Within (Reorders first) row rows listing.reorders,
        λ re. listing.complete row re (λ j lt. absurd (omega arith)),
      ),
    )

-- For at least one function, and no more than have their factorial below 2 ^ 31 (12), the rows are
-- the reorderings of the numbers from 0 on that `count_up` lists, all of them and nothing else, each
-- once; and the rows that `factorial` says to allocate are exactly filled.
pub get_func_permutations-Reorders :
    (n : ℕ)
    → 1 ≤ n
    → fact n < 2 ^ 31
    → (rows : List (List ℕ)) × (get_func_permutations n ≡ some rows)
      × (factorial n ≡ some (length rows))
      × IsNodup rows
      × ((row : List ℕ) → Within row rows ↔ Reorders (count_up n 0) row)
unfolding get_func_permutations
get_func_permutations-Reorders zero h small = absurd (omega arith)
get_func_permutations-Reorders (suc n) h small =
    let (rows, ran, many, nodup, iff) = find_permutations-Reorders n in
    let fits : fact (suc n) % 2 ^ 32 ≡ length rows = omega (arith, many, small) in
    let room : leb (length rows) (length rows) ≡ true = ground arith in
    let made : factorial (suc n) ≡ some (length rows) = factorial-fact (suc n) ∙ ap some fits in
    (rows, rw (made, ran, room) refl, made, nodup, iff)
