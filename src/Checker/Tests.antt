-- ===== src/Checker/Tests.antt =====
-- A check of two functions that exit at once when they run as threads.
use thread_equivalence_check.Base.{
  ℕ, zero, suc, ◌+◌, ◌*◌, ◌%◌, ◌^◌, ◌<◌, ◌≤◌, ◌≡◌, refl, sym, subst, All, Option, none, some, List,
  [], ◌∷◌, Bool, true, false, ◌==◌, ◌||◌, if◌then◌else◌, arith, ◌>>=◌,
}
use thread_equivalence_check.Base.Loops.{for_loop}
use thread_equivalence_check.TrieSet.{SetT, set_alloc, set_alloc_offset, set_mk}
use thread_equivalence_check.TrieSet.Spec.{Denotes, alloc-Denotes}
use thread_equivalence_check.Memory.Tests.{sum, sum-Streams}
use thread_equivalence_check.Permutations.Orders.{fact}
use thread_equivalence_check.SharedMemory.Races.{Traces, raced}
use thread_equivalence_check.Runtime.{Regs, EqTh, CtxSwitchStatus, RwTracker, State}
use thread_equivalence_check.Runtime.Tests.{list_queue, pi, thread}
use thread_equivalence_check.Runtime.Threads.{Cpu}
use thread_equivalence_check.Runtime.Handlers.{Event, syscall}
use thread_equivalence_check.Runtime.Traced.{find_rw_set}
use thread_equivalence_check.Interleaver.{FunctionExec, Verdict, unfinished, run_interleavings}
use thread_equivalence_check.Interleaver.Covered.{Ran, run_interleavings-Ran}
use thread_equivalence_check.Schedule.{tids_valid}
use thread_equivalence_check.Interleaver.Good.{sequential}
use thread_equivalence_check.Checker.{Reports, equiv_checker_run}
use thread_equivalence_check.Checker.Orders.{Resets}
use thread_equivalence_check.Checker.Sound.{IsSound, equiv_checker_run-IsSound}

-- A clock and one variable.
abbrev World : Type 0
World = ℕ × ℕ

abbrev memory : World → ℕ → ℕ
memory w v = w.1

abbrev init : World → World
init w = (w.0, 1)

abbrev call : FunctionExec → World → World
call f w = (w.0, w.1 * 2 + f.func_addr)

abbrev executables : ℕ → FunctionExec
executables i = record { func_addr = i; var_list = 0 }

-- The stack pointer is at the end of the stack, and the system call is the exit.
abbrev exit_regs : Option ℕ → State (List ℕ) → Regs
exit_regs none st r = 0
exit_regs (some th) st r = if r == 13 then (st.heap th).stack_end else 0

abbrev exits : World → State (List ℕ) → Event × World
exits w st = (syscall (exit_regs st.cur_thread st), (w.0 + 1, w.1))

abbrev new_thread : World → ℕ × World
new_thread w = (4096 * (w.0 + 1), (w.0 + 1, w.1))

abbrev threads : ℕ → ℕ → ℕ
threads k i = 65536 * k + 4096 * i

abbrev cpu : Cpu
cpu = record { sys_equiv_exit = 0; user_cpsr = 16 }

abbrev status : CtxSwitchStatus
status = record { ctx_switch = 0; instr_count = 0; do_instr_count = 0; yielded = 0 }

abbrev no_tracker : RwTracker
no_tracker = record { read = none; write = none; shared_memory = none; flagged_pcs = none }

abbrev idle : State (List ℕ)
idle = record {
  heap = thread;
  equiv_runq = [];
  cur_thread = none;
  schedule = none;
  shared_memory = none;
  ctx_switch_status = status;
  ntids = 1;
  rw_tracker_enabled = 0;
  current_tracker = no_tracker;
  memory_touch_handler = false;
  domain_acl = 0;
  single_step_on_p = 0;
  breakpoint = 0;
}

resets : Resets sum memory init call executables 2
unfolding sequential
resets row w w' v = refl

-- The line names the whole program, for the tests below.
traced : ℕ → World × State (List ℕ) → Option ((SetT × SetT) × (World × State (List ℕ)))
unfolding thread_equivalence_check.Checker.add_shared thread_equivalence_check.Checker.check_round
    thread_equivalence_check.Checker.equiv_checker_run
    thread_equivalence_check.SharedMemory.add_intersection
    thread_equivalence_check.SharedMemory.rw_round thread_equivalence_check.SharedMemory.rw_sets
    thread_equivalence_check.SharedMemory.pair_round thread_equivalence_check.SharedMemory.all_pairs
    thread_equivalence_check.SharedMemory.later_round
    thread_equivalence_check.SharedMemory.later_pairs
    thread_equivalence_check.SharedMemory.find_shared_memory
    thread_equivalence_check.Runtime.Traced.run_alone
    thread_equivalence_check.Runtime.Traced.find_rw_set
    thread_equivalence_check.Runtime.Tracker.rw_tracker_mk
    thread_equivalence_check.Runtime.Tracker.zero_status
    thread_equivalence_check.Runtime.Tracker.reset_ctx_switch
    thread_equivalence_check.Runtime.Tracker.enable_ctx_switch
    thread_equivalence_check.Runtime.Tracker.disable_ctx_switch
    thread_equivalence_check.Runtime.Tracker.set_tracker
    thread_equivalence_check.Runtime.Tracker.set_memory_touch_handler
    thread_equivalence_check.Runtime.Tracker.set_data_faults
    thread_equivalence_check.Runtime.Tracker.rw_tracker_disarm
    thread_equivalence_check.Runtime.Tracker.rw_tracker_enable
    thread_equivalence_check.Runtime.Tracker.rw_tracker_disable
    thread_equivalence_check.Runtime.Threads.retrieve_fuel
    thread_equivalence_check.Runtime.Threads.retrieve_tid_from_queue
    thread_equivalence_check.Runtime.Threads.check_sp
    thread_equivalence_check.Runtime.Threads.equiv_regs_init
    thread_equivalence_check.Runtime.Threads.reset_ntids
    thread_equivalence_check.Runtime.Threads.equiv_fork
    thread_equivalence_check.Runtime.Threads.equiv_refresh
    thread_equivalence_check.Runtime.Threads.reset_threads
    thread_equivalence_check.Runtime.Threads.init_threads
    thread_equivalence_check.Runtime.Threads.mismatch_pc_set
    thread_equivalence_check.Runtime.Threads.mismatch_on
    thread_equivalence_check.Runtime.Threads.mismatch_off
    thread_equivalence_check.Runtime.Threads.mismatch_run
    thread_equivalence_check.Runtime.Run.first_thread
    thread_equivalence_check.Runtime.Run.run_events thread_equivalence_check.Runtime.Run.equiv_run
    thread_equivalence_check.Runtime.Handlers.exit_to
    thread_equivalence_check.Runtime.Handlers.sys_exit
    thread_equivalence_check.Runtime.Handlers.equiv_syscall_handler
    thread_equivalence_check.Runtime.Handlers.handle
    thread_equivalence_check.Interleaver.run_in_order
    thread_equivalence_check.Interleaver.good_round
    thread_equivalence_check.Interleaver.find_good_hashes
    thread_equivalence_check.Interleaver.schedule_of thread_equivalence_check.Interleaver.judge
    thread_equivalence_check.Interleaver.reset_from thread_equivalence_check.Interleaver.advance
    thread_equivalence_check.Interleaver.run_schedule
    thread_equivalence_check.Interleaver.interleaving_round
    thread_equivalence_check.Interleaver.interleavings_fuel
    thread_equivalence_check.Interleaver.run_interleavings
    thread_equivalence_check.Schedule.tids_valid thread_equivalence_check.Schedule.carry_over
    thread_equivalence_check.Schedule.next_fuel thread_equivalence_check.Schedule.next_tid
    thread_equivalence_check.Memory.hash_mem thread_equivalence_check.Permutations.swap
    thread_equivalence_check.Permutations.permute_round
    thread_equivalence_check.Permutations.permute thread_equivalence_check.Permutations.count_up
    thread_equivalence_check.Permutations.find_permutations
    thread_equivalence_check.Permutations.factorial
    thread_equivalence_check.Permutations.get_func_permutations thread_equivalence_check.TrieSet.put
    thread_equivalence_check.TrieSet.set_mk thread_equivalence_check.TrieSet.set_alloc_offset
    thread_equivalence_check.TrieSet.set_alloc thread_equivalence_check.TrieSet.mask_has
    thread_equivalence_check.TrieSet.index_at thread_equivalence_check.TrieSet.visit_child
    thread_equivalence_check.TrieSet.set_foreach_recurse
    thread_equivalence_check.TrieSet.set_foreach thread_equivalence_check.TrieSet.set_free
    thread_equivalence_check.TrieSet.insert_fuel thread_equivalence_check.TrieSet.set_insert
    thread_equivalence_check.TrieSet.union_inplace_child
    thread_equivalence_check.TrieSet.set_union_inplace
    thread_equivalence_check.TrieSet.intersection_child
    thread_equivalence_check.TrieSet.set_intersection thread_equivalence_check.Base.Loops.for_loop
traced i s =
    find_rw_set list_queue pi cpu 99 exits 20 0 new_thread (executables i).func_addr set_alloc
      set_alloc s

run : Option (List Reports × (World × State (List ℕ)))
unfolding traced
run =
    equiv_checker_run sum memory init call list_queue pi cpu 99 exits 20 20 0 new_thread threads
      executables 2 1 none ((0, 0), idle)

reports_of : Option (List Reports × (World × State (List ℕ))) → List Reports
reports_of none = []
reports_of (some r) = r.0

listed :
    reports_of run
    ≡ (1, ((2 ∷ 1 ∷ [], 1 ∷ []), unfinished) ∷ ((1 ∷ 2 ∷ [], 1 ∷ []), unfinished) ∷ []) ∷ []
unfolding run reports_of
listed = refl

-- The state after a run, if there was one.
end_of :
    Option ((SetT × SetT) × (World × State (List ℕ)))
    → World × State (List ℕ)
    → World × State (List ℕ)
end_of none s = s
end_of (some r) s = r.1

start : World × State (List ℕ)
start = ((0, 0), idle)

second : World × State (List ℕ)
unfolding traced end_of start
second = end_of (traced 0 start) start

abbrev Before : ℕ → World × State (List ℕ) → Type 0
Before zero s = s ≡ start
Before (suc zero) s = s ≡ second
Before (suc (suc i)) s = Unit

third : World × State (List ℕ)
unfolding traced end_of second
third = end_of (traced 1 second) second

traced-start : traced 0 start ≡ some ((set_alloc, set_alloc), second)
unfolding traced second start
traced-start = refl

traced-second : traced 1 second ≡ some ((set_alloc, set_alloc), third)
unfolding traced third second start
traced-second = refl

traced-Traces :
    Traces
      (find_rw_set list_queue pi cpu 99 exits 20 0 new_thread)
      Before
      (λ i. (executables i).func_addr)
      2
      (λ i v. false)
      (λ i v. false)
unfolding traced
traced-Traces zero s h g = (
  set_alloc,
  set_alloc,
  second,
  subst (λ t. traced 0 t ≡ some ((set_alloc, set_alloc), second)) (sym g) traced-start,
  alloc-Denotes,
  alloc-Denotes,
  refl,
)
traced-Traces (suc zero) s h g = (
  set_alloc,
  set_alloc,
  third,
  subst (λ t. traced 1 t ≡ some ((set_alloc, set_alloc), third)) (sym g) traced-second,
  alloc-Denotes,
  alloc-Denotes,
  tt,
)
traced-Traces (suc (suc i)) s h g = absurd (omega arith)

last_of : Option (List Reports × (World × State (List ℕ))) → World × State (List ℕ)
unfolding start
last_of none = start
last_of (some r) = r.1

run_ends :
    equiv_checker_run sum memory init call list_queue pi cpu 99 exits 20 20 0 new_thread threads
      executables 2 1 none start
    ≡ some (reports_of run, last_of run)
unfolding run reports_of last_of start
run_ends = refl

small : fact 2 < 2 ^ 31
unfolding fact
small = omega arith

word : (h : ℕ) → h % 2 ^ 32 < 2 ^ 32
word h = omega arith

equiv_checker_run-IsSound_example :
    (shared : SetT) × Denotes shared (λ v. raced (λ i u. false) (λ i u. false) 2 v || false)
    × All
        (λ r.
          All
            (IsSound sum sum-Streams word memory init call list_queue pi cpu 99 exits 20 20 0
              new_thread threads executables 2 resets shared
              (λ v. raced (λ i u. false) (λ i u. false) 2 v || false)
              start.0
              r.0)
            r.1)
        (reports_of run)
equiv_checker_run-IsSound_example =
    equiv_checker_run-IsSound sum sum-Streams word memory init call list_queue pi cpu 99 exits 20 20
      0 new_thread threads executables 2 resets Before (λ i u. false) (λ i u. false) none
      (λ v. false) 1 start (last_of run) (reports_of run) (omega arith) small traced-Traces refl
      (λ v. refl) run_ends

loop_ends : Option (List ((List ℕ × List ℕ) × Verdict) × (World × State (List ℕ)))
unfolding traced start
loop_ends =
    run_interleavings sum memory init list_queue pi cpu 99 exits 20 20 0 executables 2 set_alloc 1
      set_alloc (threads 1) start

reports_in :
    Option (List ((List ℕ × List ℕ) × Verdict) × (World × State (List ℕ)))
    → List ((List ℕ × List ℕ) × Verdict)
reports_in none = []
reports_in (some r) = r.0

end_in :
    Option (List ((List ℕ × List ℕ) × Verdict) × (World × State (List ℕ))) → World × State (List ℕ)
unfolding start
end_in none = start
end_in (some r) = r.1

loop_ran :
    run_interleavings sum memory init list_queue pi cpu 99 exits 20 20 0 executables 2 set_alloc 1
      set_alloc
      (threads 1)
      start
    ≡ some (reports_in loop_ends, end_in loop_ends)
unfolding loop_ends reports_in end_in
loop_ran = refl

in_turn : tids_valid (1 ∷ 2 ∷ []) ≡ 1
unfolding tids_valid
in_turn = refl

run_interleavings-Ran_example : Ran (1 ∷ 2 ∷ []) (reports_in loop_ends)
run_interleavings-Ran_example =
    run_interleavings-Ran sum memory init list_queue pi cpu 99 exits 20 20 0 executables 2 set_alloc
      1 set_alloc (threads 1) start (end_in loop_ends) (reports_in loop_ends) (1 ∷ 2 ∷ []) loop_ran
      (omega arith) (omega arith) (omega arith)
      ((omega arith, omega arith), ((omega arith, omega arith), tt)) refl in_turn
