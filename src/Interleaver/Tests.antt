-- ===== src/Interleaver/Tests.antt =====
-- The schedules of three threads and the verdicts on a memory that the functions overwrite.
use thread_equivalence_check.Base.{
  length, Option, none, OnSome, ℕ, ◌+◌, ◌%◌, ◌^◌, ◌<◌, ◌≡◌, refl, some, List, [], ◌∷◌, false, ◌||◌,
  ◌==◌, if◌then◌else◌, get_elem?, arith,
}
use thread_equivalence_check.TrieSet.{SetT, set_alloc}
use thread_equivalence_check.TrieSet.Spec.{Denotes, alloc-Denotes}
use thread_equivalence_check.Memory.Tests.{sum, sum-Streams}
use thread_equivalence_check.Schedule.Next.{Outcome}
use thread_equivalence_check.Base.Exists.{any_below}
use thread_equivalence_check.Base.Loops.{for_loop}
use thread_equivalence_check.Runtime.{Regs, CtxSwitchStatus, State}
use thread_equivalence_check.Runtime.Tests.{list_queue, two_slices, pi, state_at}
use thread_equivalence_check.Runtime.Tracker.{
  zero_status, reset_ctx_switch, enable_ctx_switch, set_memory_touch_handler, rw_tracker_enable,
}
use thread_equivalence_check.Runtime.Threads.{
  Cpu, retrieve_fuel, retrieve_tid_from_queue, check_sp, equiv_regs_init, equiv_refresh,
  reset_threads, mismatch_pc_set, mismatch_on, mismatch_off, mismatch_run,
}
use thread_equivalence_check.Runtime.Handlers.{
  Event, syscall, handle, equiv_syscall_handler, sys_exit, exit_to,
}
use thread_equivalence_check.Runtime.Run.{first_thread, run_events, equiv_run}
use thread_equivalence_check.Runtime.Bounded.{InSchedule}
use thread_equivalence_check.Interleaver.Runs.{run_schedule-InSchedule}
use thread_equivalence_check.Interleaver.{
  run_schedule, FunctionExec, find_good_hashes, invalid, judge, advance,
}
use thread_equivalence_check.Interleaver.Good.{good_hash, find_good_hashes-Denotes}
use thread_equivalence_check.Interleaver.Verdicts.{judge_lem}
use thread_equivalence_check.Interleaver.Advance.{advance-Outcome}
use thread_equivalence_check.Interleaver.Least.{IsNext, advance-IsNext}

-- The world is the memory.
abbrev World : Type 0
World = ℕ → ℕ

abbrev memory : World → ℕ → ℕ
memory w = w

abbrev init : World → World
init w v = 0

-- A function adds its address to every byte.
abbrev call : FunctionExec → World → World
call f w v = w v + f.func_addr

abbrev executables : ℕ → FunctionExec
executables i = record { func_addr = i; var_list = 0 }

abbrev itl : ℕ → ℕ → ℕ
itl i j = if i == j then 0 else 1

word : (h : ℕ) → h % 2 ^ 32 < 2 ^ 32
word h = omega arith

abbrev good : ℕ → ℕ
good =
    good_hash sum sum-Streams word memory init call executables 2 itl set_alloc (λ v. false)
      alloc-Denotes (λ v. 0)

find_good_hashes-Denotes_example :
    (w' : World) × (valid' : SetT) × (find_good_hashes sum memory init call executables 2 itl 2
        set_alloc
        ((λ v. 0), set_alloc)
      ≡ some (w', valid'))
    × Denotes valid' (λ v. false || any_below 2 (λ i. v == good i))
find_good_hashes-Denotes_example =
    find_good_hashes-Denotes sum sum-Streams word memory init call executables 2 itl set_alloc
      (λ v. false) alloc-Denotes 2 (λ v. 0) set_alloc (λ v. false) alloc-Denotes

abbrev complete : CtxSwitchStatus
complete = record { ctx_switch = 2; instr_count = 0; do_instr_count = 0; yielded = 0 }

judge_example : judge sum (λ v. v) 2 set_alloc set_alloc complete ≡ some invalid
judge_example =
    judge_lem sum sum-Streams word (λ v. v) 2 set_alloc set_alloc (λ v. false) (λ v. false)
      alloc-Denotes alloc-Denotes complete

advance-IsNext_example :
    (ys : List ℕ) × (advance 3 2 2 (1 ∷ 2 ∷ 1 ∷ 2 ∷ []) (4 ∷ 5 ∷ 6 ∷ [])
      ≡ some ((1 ∷ 2 ∷ 1 ∷ 2 ∷ [], ys), false))
    × IsNext 1 (4 ∷ 5 ∷ 6 ∷ []) ys
advance-IsNext_example =
    advance-IsNext 3 2 1 5 (1 ∷ 2 ∷ 1 ∷ 2 ∷ []) (4 ∷ 5 ∷ 6 ∷ []) refl
      (omega arith, (omega arith, (omega arith, tt))) refl (omega arith) (omega arith)

advance-Outcome_example :
    (ys : List ℕ) × (out : List ℕ × ℕ) × (advance 1 2 0 (1 ∷ 2 ∷ []) (4 ∷ [])
      ≡ some ((out.0, ys), out.1 == 0))
    × Outcome 2 (1 ∷ 2 ∷ []) out
    × (length ys ≡ 1)
    × ((j : ℕ) → j < 1 → get_elem? ys j ≡ some 1)
advance-Outcome_example =
    advance-Outcome 1 2 (1 ∷ 2 ∷ []) (4 ∷ []) refl (omega arith) (omega arith)
      ((omega arith, omega arith), ((omega arith, omega arith), tt))

-- A machine on which every thread exits at once.
abbrev exit_regs : Option ℕ → State (List ℕ) → Regs
exit_regs none st r = 0
exit_regs (some th) st r = if r == 13 then (st.heap th).stack_end else 0

abbrev exits : ℕ → State (List ℕ) → Event × ℕ
exits w st = (syscall (exit_regs st.cur_thread st), w + 1)

abbrev idle : State (List ℕ)
idle = record (state_at 0 set_alloc) { equiv_runq = []; single_step_on_p = 0 }

abbrev cpu : Cpu
cpu = record { sys_equiv_exit = 0; user_cpsr = 16 }

status_of : Option ((ℕ × State (List ℕ)) × CtxSwitchStatus) → Option CtxSwitchStatus
status_of none = none
status_of (some out) = some out.1

run : Option CtxSwitchStatus
unfolding status_of run_schedule reset_threads equiv_refresh equiv_regs_init check_sp for_loop
    enable_ctx_switch reset_ctx_switch zero_status set_memory_touch_handler rw_tracker_enable
    equiv_run first_thread retrieve_tid_from_queue retrieve_fuel mismatch_on mismatch_pc_set
    run_events handle equiv_syscall_handler sys_exit exit_to mismatch_run mismatch_off
run =
    status_of (
      run_schedule (λ w. w) list_queue pi cpu 99 exits 4 two_slices (λ i. i + 1) set_alloc
        (0, idle))

-- The run ends, without a context switch.
run_ends : run ≡ some zero_status
unfolding run zero_status
run_ends = refl

run_schedule-InSchedule_example :
    OnSome
      (λ out. InSchedule 2 out.1)
      (run_schedule
        (λ w. w)
        list_queue
        pi
        cpu
        99
        exits
        4
        two_slices
        (λ i. i + 1)
        set_alloc
        (0, idle))
run_schedule-InSchedule_example =
    run_schedule-InSchedule (λ w. w) list_queue pi cpu 99 exits 4 two_slices (λ i. i + 1) set_alloc
      0 idle (omega arith)
