-- ===== src/Interleaver.antt =====
-- final_proj/code/interleaver.c: the hashes of the sequential runs, and the loop over the schedules.
-- What is printed is a list of verdicts. `init` of the test, the code of the functions and the
-- machine are parameters.
pub mod Good
pub mod Verdicts
pub mod Runs
pub mod Rounds
pub mod Covered
pub mod Advance
pub mod Least
pub mod Counts
pub mod Ends
pub mod Total
pub mod EndsTests
pub mod Tests
use thread_equivalence_check.Base.{
  ℕ, zero, suc, ◌+◌, ◌-◌, ◌≡◌, Option, none, some, List, [], ◌∷◌, ◌++◌, Bool, true, false, ◌==◌,
  ltb, if◌then◌else◌, truthy, add32, not, ◌&&◌, get_elem?, set, replicate, ◌>>=◌, ◌>>◌,
}
use thread_equivalence_check.Base.Loops.{for_loop}
use thread_equivalence_check.TrieSet.{SetT, set_insert, set_lookup}
use thread_equivalence_check.Memory.{Xxh32, hash_mem}
use thread_equivalence_check.Schedule.{next_tid}
use thread_equivalence_check.Runtime.{ScheduleT, CtxSwitchStatus, RunQueue, State, Libpi}
use thread_equivalence_check.Runtime.Tracker.{
  enable_ctx_switch, disable_ctx_switch, set_memory_touch_handler, rw_tracker_enable,
  rw_tracker_disable,
}
use thread_equivalence_check.Runtime.Threads.{Cpu, init_threads, reset_threads}
use thread_equivalence_check.Runtime.Run.{equiv_run}
use thread_equivalence_check.Runtime.Handlers.{Event}

-- `function_exec`: `num_vars` is not used.
pub record FunctionExec : Type 0 where
  pub func_addr : ℕ
  pub var_list : ℕ

module _ {H W : Type 0} (x : Xxh32 H) (memory : W → ℕ → ℕ) (init : W → W)
    (call : FunctionExec → W → W) where
  -- The functions run to their ends, one after the other, in the order of a row of `itl`.
  unfoldable pub run_in_order : (ℕ → FunctionExec) → ℕ → (ℕ → ℕ) → W → Option W
  run_in_order executables n_funcs row w =
      for_loop n_funcs 0 (λ j u. some (call (executables (row j)) u)) w

  unfoldable pub good_round :
      (ℕ → FunctionExec) → ℕ → (ℕ → ℕ → ℕ) → SetT → ℕ → W × SetT → Option (W × SetT)
  good_round executables n_funcs itl shared_memory i (w, valid_hashes) = do
    w' ← run_in_order executables n_funcs (itl i) (init w)
    hash ← hash_mem x (memory w') shared_memory
    (valid', _) ← set_insert valid_hashes hash
    some (w', valid')

  unfoldable pub find_good_hashes :
      (ℕ → FunctionExec) → ℕ → (ℕ → ℕ → ℕ) → ℕ → SetT → W × SetT → Option (W × SetT)
  find_good_hashes executables n_funcs itl n_perms shared_memory start =
      for_loop n_perms 0 (good_round executables n_funcs itl shared_memory) start

-- `report` is only printed.
unfoldable pub schedule_of : ℕ → ℕ → List ℕ × List ℕ → ScheduleT
schedule_of ncs num_funcs (tids, instr_nums) = record {
  tids = tids;
  instr_counts = instr_nums;
  n_ctx_switches = ncs;
  n_funcs = num_funcs;
  report = none;
}

-- What the loop prints of a run.
pub data Verdict : Type 0 where
  invalid : Verdict
  valid : Verdict
  unfinished : Verdict

-- Only a run that used all its context switches and did not yield is judged.
unfoldable pub judge :
    {H : Type 0} → Xxh32 H → (ℕ → ℕ) → ℕ → SetT → SetT → CtxSwitchStatus → Option Verdict
judge x memory ncs shared_memory valid_hashes status =
    if not (truthy status.yielded) && status.ctx_switch == ncs
    then (do
      hash ← hash_mem x memory shared_memory
      found ← set_lookup valid_hashes hash
      some (if truthy found then valid else invalid))
    else some unfinished

-- The instruction counts from slot `i` on go back to 1.
unfoldable pub reset_from : ℕ → ℕ → List ℕ → Option (List ℕ)
reset_from ncs i instr_nums = for_loop (ncs - i) i (λ j xs. some (set xs j 1)) instr_nums

-- The end of a round: the arrays of the next one, and whether the loop is done.
unfoldable pub advance : ℕ → ℕ → ℕ → List ℕ → List ℕ → Option ((List ℕ × List ℕ) × Bool)
advance ncs num_funcs ctx_switch tids instr_nums =
    if ltb 0 ctx_switch
    then (do
      old ← get_elem? instr_nums (ctx_switch - 1)
      instr_nums' ← reset_from ncs ctx_switch (set instr_nums (ctx_switch - 1) (add32 old 1))
      some ((tids, instr_nums'), false))
    else (do
      instr_nums' ← reset_from ncs 0 instr_nums
      (tids', more) ← next_tid tids num_funcs
      some ((tids', instr_nums'), more == 0))

module _ {W Q : Type 0} (init : W → W) (rq : RunQueue Q) (pi : Libpi) (cpu : Cpu) (ss_on_exit : ℕ)
    (machine : W → State Q → Event × W) (run_fuel : ℕ) where
  -- A run under one schedule, and the status at its end.
  unfoldable pub run_schedule :
      ScheduleT → (ℕ → ℕ) → SetT → W × State Q → Option ((W × State Q) × CtxSwitchStatus)
  run_schedule schedule threads shared_memory (w, st) = do
    st1 ← reset_threads rq cpu threads schedule.n_funcs st
    let st2 = enable_ctx_switch schedule shared_memory (set_memory_touch_handler true st1) in
        (do
          (st3, w') ←
              equiv_run rq pi ss_on_exit machine run_fuel (init w) (rw_tracker_enable pi st2)
          some ((w', disable_ctx_switch (rw_tracker_disable pi st3)), st3.ctx_switch_status))

module _ {H W Q : Type 0} (x : Xxh32 H) (memory : W → ℕ → ℕ) (init : W → W) (rq : RunQueue Q)
    (pi : Libpi) (cpu : Cpu) (ss_on_exit : ℕ) (machine : W → State Q → Event × W)
    (run_fuel : ℕ) where
  -- One round: the verdict, the arrays and the state for the next round, and `done`.
  unfoldable pub interleaving_round :
      ℕ
      → ℕ
      → (ℕ → ℕ)
      → SetT
      → SetT
      → List ℕ × List ℕ
      → W × State Q
      → Option (Verdict × (((List ℕ × List ℕ) × Bool) × (W × State Q)))
  interleaving_round ncs num_funcs threads valid_hashes shared_memory arrays start = do
    ((w, st), status) ←
        run_schedule init rq pi cpu ss_on_exit machine run_fuel (schedule_of ncs num_funcs arrays)
          threads shared_memory start
    verdict ← judge x (memory w) ncs shared_memory valid_hashes status
    next ← advance ncs num_funcs status.ctx_switch arrays.0 arrays.1
    some (verdict, (next, (w, st)))

  -- The while loop on fuel: the schedules that ran, each with its verdict, and the state at the end.
  unfoldable pub interleavings_fuel :
      ℕ
      → ℕ
      → ℕ
      → (ℕ → ℕ)
      → SetT
      → SetT
      → List ℕ × List ℕ
      → W × State Q
      → Option (List ((List ℕ × List ℕ) × Verdict) × (W × State Q))
  interleavings_fuel zero ncs num_funcs threads valid_hashes shared_memory arrays start = none
  interleavings_fuel (suc fuel) ncs num_funcs threads valid_hashes shared_memory arrays start = do
    (verdict, ((next, done), end)) ←
        interleaving_round ncs num_funcs threads valid_hashes shared_memory arrays start
    let rest = interleavings_fuel fuel ncs num_funcs threads valid_hashes shared_memory next end in
        if done
        then some ((arrays, verdict) ∷ [], end)
        else (do (later, last) ← rest; some ((arrays, verdict) ∷ later, last))

  -- `equiv_init` installs the handlers, which the model has from the start.
  unfoldable pub run_interleavings :
      ℕ
      → ℕ
      → (ℕ → FunctionExec)
      → ℕ
      → SetT
      → ℕ
      → SetT
      → (ℕ → ℕ)
      → W × State Q
      → Option (List ((List ℕ × List ℕ) × Verdict) × (W × State Q))
  run_interleavings fuel verbose_p executables num_funcs valid_hashes ncs shared_memory threads
        (w, st) =
      do
        st1 ←
            init_threads rq cpu verbose_p threads (λ i. (executables i).func_addr) num_funcs
              (disable_ctx_switch st)
        st2 ← reset_threads rq cpu threads num_funcs st1
        (tids, _) ← next_tid (replicate (ncs + 1) 1) num_funcs
        interleavings_fuel fuel ncs num_funcs threads valid_hashes shared_memory
            (tids, replicate ncs 1) (w, st2)
