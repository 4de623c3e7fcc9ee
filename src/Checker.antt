-- ===== src/Checker.antt =====
-- final_proj/code/equiv-checker.c, `equiv_checker_run`: the whole check. What is printed is a list:
-- for each number of context switches, the schedules that ran, each with its verdict.
pub mod Orders
pub mod Sound
pub mod Start
pub mod Ready
pub mod StartTests
pub mod Tests
use thread_equivalence_check.Base.{
  ℕ, ◌≡◌, Option, none, some, List, [], ◌∷◌, ◌++◌, truthy, assert, get_elem?, ◌>>=◌, ◌>>◌,
}
use thread_equivalence_check.Base.Loops.{for_loop}
use thread_equivalence_check.TrieSet.{SetT, null, set_alloc, set_free, set_union_inplace}
use thread_equivalence_check.Memory.{Xxh32}
use thread_equivalence_check.Permutations.{factorial, get_func_permutations}
use thread_equivalence_check.SharedMemory.{find_shared_memory}
use thread_equivalence_check.Runtime.{RunQueue, State, Libpi}
use thread_equivalence_check.Runtime.Threads.{Cpu}
use thread_equivalence_check.Runtime.Handlers.{Event}
use thread_equivalence_check.Runtime.Traced.{find_rw_set}
use thread_equivalence_check.Interleaver.{
  FunctionExec, Verdict, find_good_hashes, run_interleavings,
}

-- `itl[i][j]`, of which the entries of the rows are used.
unfoldable pub entry : List ℕ → ℕ → ℕ
entry row j = elim (get_elem? row j) [ none ↦ 0 | some v ↦ v ]

unfoldable pub row_at : List (List ℕ) → ℕ → List ℕ
row_at itl i = elim (get_elem? itl i) [ none ↦ [] | some row ↦ row ]

-- `additional_shared_memory` may be NULL.
unfoldable pub add_shared : Option SetT → SetT → Option SetT
add_shared none shared_memory = some shared_memory
add_shared (some s) shared_memory = set_union_inplace shared_memory s

-- What is printed for a number of context switches.
abbrev pub Reports : Type 0
Reports = ℕ × List ((List ℕ × List ℕ) × Verdict)

module _ {H W Q : Type 0} (x : Xxh32 H) (memory : W → ℕ → ℕ) (init : W → W)
    (call : FunctionExec → W → W) (rq : RunQueue Q) (pi : Libpi) (cpu : Cpu) (ss_on_exit : ℕ)
    (machine : W → State Q → Event × W) (run_fuel fuel verbose_p : ℕ) (new_thread : W → ℕ × W)
    (threads : ℕ → ℕ → ℕ) (executables : ℕ → FunctionExec) (n_func : ℕ) where
  -- The schedules with `i` context switches; `threads i` are the threads that this call allocates.
  unfoldable pub check_round :
      SetT → SetT → ℕ → List Reports × (W × State Q) → Option (List Reports × (W × State Q))
  check_round valid_hashes shared_memory i (reports, s) = do
    (report, s') ←
        run_interleavings x memory init rq pi cpu ss_on_exit machine run_fuel fuel verbose_p
          executables n_func valid_hashes i shared_memory (threads i) s
    some (reports ++ (i, report) ∷ [], s')

  unfoldable pub equiv_checker_run :
      ℕ → Option SetT → W × State Q → Option (List Reports × (W × State Q))
  equiv_checker_run ncs additional_shared_memory s = do
    assert (truthy ncs)
    (found, (w, st)) ←
        find_shared_memory (find_rw_set rq pi cpu ss_on_exit machine run_fuel verbose_p new_thread)
          (λ i. (executables i).func_addr) n_func ((λ i. null), (λ i. null)) set_alloc s
    shared_memory ← add_shared additional_shared_memory found
    num_perms ← factorial n_func
    itl ← get_func_permutations n_func
    (w', valid_hashes) ←
        find_good_hashes x memory init call executables n_func (λ i. entry (row_at itl i)) num_perms
          shared_memory (w, set_alloc)
    (reports, s') ← for_loop ncs 1 (check_round valid_hashes shared_memory) ([], (w', st))
    set_free valid_hashes
    set_free shared_memory
    some (reports, s')
