-- ===== src/SharedMemory.antt =====
-- final_proj/code/interleaver.c, `find_shared_memory`: the bytes that one function reads and another
-- writes. `find_rw_set` runs a function on the machine and is a parameter here, with a state `S` that
-- it changes; the arrays `read_sets` and `write_sets` are functions, of which the entries below
-- `n_funcs` are used.
pub mod Races
pub mod Tests
use thread_equivalence_check.Base.{ℕ, ◌+◌, ◌-◌, Option, some, ◌==◌, if◌then◌else◌, ◌>>=◌, ◌>>◌}
use thread_equivalence_check.Base.Loops.{for_loop}
use thread_equivalence_check.TrieSet.{
  SetT, set_alloc, set_free, set_intersection, set_union_inplace,
}

-- One entry of an array of sets is overwritten.
abbrev pub store : (ℕ → SetT) → ℕ → SetT → ℕ → SetT
store a i x j = if j == i then x else a j

-- `tmp = x ∩ y` is added to the shared memory and freed.
unfoldable pub add_intersection : SetT → SetT → SetT → Option SetT
add_intersection x y shared = do
  tmp ← set_intersection set_alloc x y
  shared' ← set_union_inplace shared tmp
  set_free tmp
  some shared'

module _ {Exe S : Type 0} (find_rw_set : Exe → SetT → SetT → S → Option ((SetT × SetT) × S)) where
  -- The first loop: each function's read and write set.
  unfoldable pub rw_round :
      (ℕ → Exe) → ℕ → ((ℕ → SetT) × (ℕ → SetT)) × S → Option (((ℕ → SetT) × (ℕ → SetT)) × S)
  rw_round executables i ((reads, writes), s) = do
    ((r, w), s') ← find_rw_set (executables i) set_alloc set_alloc s
    some ((store reads i r, store writes i w), s')

  unfoldable pub rw_sets :
      (ℕ → Exe) → ℕ → ((ℕ → SetT) × (ℕ → SetT)) × S → Option (((ℕ → SetT) × (ℕ → SetT)) × S)
  rw_sets executables n_funcs arrays = for_loop n_funcs 0 (rw_round executables) arrays

module _ (reads writes : ℕ → SetT) (n_funcs : ℕ) where
  -- The second loop: every ordered pair of different functions.
  unfoldable pub pair_round : ℕ → ℕ → SetT → Option SetT
  pair_round i j shared =
      if i == j then some shared else add_intersection (reads i) (writes j) shared

  unfoldable pub all_pairs : SetT → Option SetT
  all_pairs shared = for_loop n_funcs 0 (λ i. for_loop n_funcs 0 (pair_round i)) shared

  -- The third loop: the pairs with `i < j`, once more with reads against writes.
  unfoldable pub later_round : ℕ → ℕ → SetT → Option SetT
  later_round i j shared = add_intersection (reads i) (writes j) shared

  unfoldable pub later_pairs : SetT → Option SetT
  later_pairs shared =
      for_loop n_funcs 0 (λ i. for_loop (n_funcs - (i + 1)) (i + 1) (later_round i)) shared

-- The whole function; `arrays` is what the two arrays held before.
unfoldable pub find_shared_memory :
    {Exe S : Type 0}
    → (Exe → SetT → SetT → S → Option ((SetT × SetT) × S))
    → (ℕ → Exe)
    → ℕ
    → (ℕ → SetT) × (ℕ → SetT)
    → SetT
    → S
    → Option (SetT × S)
find_shared_memory find_rw_set executables n_funcs arrays shared s = do
  ((reads, writes), s') ← rw_sets find_rw_set executables n_funcs (arrays, s)
  shared' ← all_pairs reads writes n_funcs shared
  shared'' ← later_pairs reads writes n_funcs shared'
  some (shared'', s')
