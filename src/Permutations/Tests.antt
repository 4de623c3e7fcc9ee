-- ===== src/Permutations/Tests.antt =====
-- The orders of a few functions.
use thread_equivalence_check.Base.{
  ◌↔◌, ◌%◌, ◌^◌, ℕ, ◌+◌, ◌≤◌, ◌<◌, ◌≡◌, refl, arith, Option, some, List, [], ◌∷◌, All, length, ◌++◌,
}
use thread_equivalence_check.Permutations.{
  swap, permute_round, permute, count_up, find_permutations, factorial,
}
use thread_equivalence_check.Permutations.{get_func_permutations}
use thread_equivalence_check.Permutations.Entries.{Within, IsNodup}
use thread_equivalence_check.Permutations.Listing.{get_func_permutations-Reorders}
use thread_equivalence_check.Permutations.Orders.{fact, Reorders}

three :
    find_permutations 3
    ≡ some (
        (0 ∷ 1 ∷ 2 ∷ [])
        ∷ (0 ∷ 2 ∷ 1 ∷ [])
        ∷ (1 ∷ 0 ∷ 2 ∷ [])
        ∷ (1 ∷ 2 ∷ 0 ∷ [])
        ∷ (2 ∷ 1 ∷ 0 ∷ [])
        ∷ (2 ∷ 0 ∷ 1 ∷ [])
        ∷ [])
unfolding find_permutations permute permute_round swap count_up
    thread_equivalence_check.Base.Loops.for_loop
three = refl

small : fact 3 < 2 ^ 31
unfolding fact
small = omega arith

get_func_permutations-Reorders_example :
    (rows : List (List ℕ)) × (get_func_permutations 3 ≡ some rows)
    × (factorial 3 ≡ some (length rows))
    × IsNodup rows
    × ((row : List ℕ) → Within row rows ↔ Reorders (count_up 3 0) row)
get_func_permutations-Reorders_example = get_func_permutations-Reorders 3 (omega arith) small

product : factorial 4 ≡ some 24
unfolding factorial thread_equivalence_check.Base.Loops.for_loop
product = refl
