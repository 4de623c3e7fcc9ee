-- ===== src/Permutations/Orders.antt =====
-- permutations.c: the rows that `permute` adds.
use mathlib.Core.List.{append_assoc, append-nil}
use native.Mathlib.Nat.{add-mul}
use thread_equivalence_check.Base.{
  ℕ, zero, suc, ◌+◌, ◌-◌, ◌*◌, ◌≤◌, ◌<◌, ◌≡◌, refl, sym, ◌∙◌, Option, some, List, [], ◌∷◌, ◌++◌,
  All, All-append, length, length-append, arith,
}
use thread_equivalence_check.Base.Loops.{for_loop, for_loop_inv}
use thread_equivalence_check.Permutations.{permute_round, permute, count_up}
use thread_equivalence_check.Permutations.Swaps.{count, swap-Swapped}

unfoldable pub fact : ℕ → ℕ
fact zero = 1
fact (suc n) = suc n * fact n

-- An array with the same values, each as often.
abbrev pub Reorders : List ℕ → List ℕ → Type 0
Reorders xs row = (length row ≡ length xs) × ((v : ℕ) → count v row ≡ count v xs)

-- A call that leaves the array as it was and adds `n` reorderings of it.
abbrev pub AddsOrders : ℕ → List ℕ → List (List ℕ) → Option (List ℕ × List (List ℕ)) → Type 0
AddsOrders n arr itl r =
    (rows : List (List ℕ)) × (r ≡ some (arr, itl ++ rows))
    × (length rows ≡ n)
    × All (Reorders arr) rows

reorder-All :
    (xs ys : List ℕ) (rows : List (List ℕ))
    → length ys ≡ length xs
    → ((v : ℕ) → count v ys ≡ count v xs)
    → All (Reorders ys) rows
    → All (Reorders xs) rows
reorder-All xs ys [] l c h = tt
reorder-All xs ys (row ∷ rows) l c ((l', c'), hs) =
    ((l' ∙ l, λ v. c' v ∙ c v), reorder-All xs ys rows l c hs)

module _ (start left : ℕ) (arr : List ℕ) (itl : List (List ℕ))
    (long : length arr ≡ start + left + 2)
    (deeper : (arr1 : List ℕ) (itl1 : List (List ℕ))
      → length arr1 ≡ start + left + 2
      → AddsOrders (fact (suc left)) arr1 itl1 (permute left (start + 1) (arr1, itl1))) where
  abbrev Added : ℕ → List ℕ × List (List ℕ) → Type 0
  Added i t =
      (t.0 ≡ arr)
      × ((rows : List (List ℕ)) × (t.1 ≡ itl ++ rows)
          × (length rows ≡ (i - start) * fact (suc left))
          × All (Reorders arr) rows)

  round-Added :
      (i : ℕ) (t : List ℕ × List (List ℕ))
      → start ≤ i
      → i < start + (left + 2)
      → Added i t
      → (u : List ℕ × List (List ℕ)) × (permute_round (permute left (start + 1)) start i t ≡ some u)
        × Added (i + 1) u
  unfolding permute_round
  round-Added i (arr', itl') low high (same, (rows, e, n, all)) =
      let (arr1, (there, l1, c1, again, _, _)) =
        swap-Swapped start i arr (omega (arith, long)) (omega (arith, long)) in
      let (rows', ran, n', all') = deeper arr1 (itl ++ rows) (l1 ∙ long) in
      (
        (arr, (itl ++ rows) ++ rows'),
        rw (same, e, there, ran, again) refl,
        (
          refl,
          (
            rows ++ rows',
            append_assoc itl rows rows',
            (let gap : i + 1 - start ≡ i - start + 1 = omega arith in
                rw gap (
                  omega (
                    arith,
                    length-append rows rows',
                    n,
                    n',
                    add-mul (i - start) 1 (fact (suc left)),
                  ))),
            All-append (Reorders arr) rows rows' all (reorder-All arr arr1 rows' l1 c1 all'),
          ),
        ),
      )

  parts :
      (t : List ℕ × List (List ℕ)) (rows : List (List ℕ))
      → t.0 ≡ arr
      → t.1 ≡ itl ++ rows
      → some t ≡ some (arr, itl ++ rows)
  parts (a, r) rows e f = rw (e, f) refl

  loop-AddsOrders :
      AddsOrders
        (fact (suc (suc left)))
        arr
        itl
        (for_loop (left + 2) start (permute_round (permute left (start + 1)) start) (arr, itl))
  unfolding fact
  loop-AddsOrders =
      let none_yet : start - start ≡ 0 = omega arith in
      let rounds : start + (left + 2) - start ≡ suc (suc left) = omega arith in
      let (t, ran, (same, (rows, e, n, all))) =
        for_loop_inv Added (permute_round (permute left (start + 1)) start) (left + 2) start
          (start + (left + 2)) (arr, itl) refl round-Added
          (refl, ([], sym (append-nil itl), rw none_yet (omega arith), tt)) in
      (rows, ran ∙ parts t rows same e, n ∙ rw rounds refl, all)

-- A call on an array of the right length ends with the array as it was, and adds as many rows as the
-- rest of the array has orders, each with the values of the array.
pub permute-AddsOrders :
    (left start : ℕ) (arr : List ℕ) (itl : List (List ℕ))
    → length arr ≡ start + left + 1
    → AddsOrders (fact (suc left)) arr itl (permute left start (arr, itl))
unfolding permute fact
permute-AddsOrders zero start arr itl long = (arr ∷ [], refl, omega arith, ((refl, λ v. refl), tt))
permute-AddsOrders (suc left) start arr itl long =
    loop-AddsOrders start left arr itl (omega (arith, long))
      (λ a i l. permute-AddsOrders left (start + 1) a i (omega (arith, l)))

pub length-count_up : (n i : ℕ) → length (count_up n i) ≡ n
unfolding count_up
length-count_up zero i = refl
length-count_up (suc n) i = omega (arith, length-count_up n (i + 1))
