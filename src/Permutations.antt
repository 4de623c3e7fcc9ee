-- ===== src/Permutations.antt =====
-- final_proj/code/permutations.c: all the orders of the functions. The rows of `itl` are a list to
-- which each finished order is added at the end; an index of `arr`
-- that is out of bounds is a fault.
pub mod Swaps
pub mod Entries
pub mod Orders
pub mod Complete
pub mod Listing
pub mod Factorial
pub mod Tests
use thread_equivalence_check.Base.{
  ℕ, zero, suc, ◌+◌, ◌-◌, ◌*◌, ◌%◌, ◌^◌, Option, some, List, [], ◌∷◌, ◌++◌, get_elem?, set, ◌>>=◌,
  leb, length, none, if◌then◌else◌,
}
use thread_equivalence_check.Base.Loops.{for_loop}

unfoldable pub swap : ℕ → ℕ → List ℕ → Option (List ℕ)
swap a b arr = do temp ← get_elem? arr a; y ← get_elem? arr b; some (set (set arr a y) b temp)

-- A round of the loop, with the recursive call as `deeper`: swap, go on, and swap back.
unfoldable pub permute_round :
    (List ℕ × List (List ℕ) → Option (List ℕ × List (List ℕ)))
    → ℕ
    → ℕ
    → List ℕ × List (List ℕ)
    → Option (List ℕ × List (List ℕ))
permute_round deeper start i (arr, itl) = do
  arr1 ← swap start i arr
  (arr2, itl') ← deeper (arr1, itl)
  arr3 ← swap start i arr2
  some (arr3, itl')

-- `permute(itl, arr, start, start + left, &count)`
unfoldable pub permute : ℕ → ℕ → List ℕ × List (List ℕ) → Option (List ℕ × List (List ℕ))
permute zero start (arr, itl) = some (arr, itl ++ arr ∷ [])
permute (suc left) start (arr, itl) =
    for_loop (left + 2) start (permute_round (permute left (start + 1)) start) (arr, itl)

-- `arr[i] = i`
unfoldable pub count_up : ℕ → ℕ → List ℕ
count_up zero i = []
count_up (suc n) i = i ∷ count_up n (i + 1)

-- Without functions `end` is -1, and the loop of `permute` has no round.
unfoldable pub find_permutations : ℕ → Option (List (List ℕ))
find_permutations zero = some []
find_permutations (suc n) = do (_, itl) ← permute n 0 (count_up (suc n) 0, []); some itl

unfoldable pub factorial : ℕ → Option ℕ
factorial n = for_loop n 1 (λ i fact. some (fact * i % 2 ^ 32)) 1

-- The rows that are filled; the array has `factorial(num_funcs)` rows, and a write past them is a
-- fault.
unfoldable pub get_func_permutations : ℕ → Option (List (List ℕ))
get_func_permutations num_funcs = do
  num_perms ← factorial num_funcs
  itl ← find_permutations num_funcs
  if leb (length itl) num_perms then some itl else none
