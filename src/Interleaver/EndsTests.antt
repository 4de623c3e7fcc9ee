-- ===== src/Interleaver/EndsTests.antt =====
-- The loop over the schedules, for two threads that exit at once.
use thread_equivalence_check.Base.{
  ℕ, ◌+◌, ◌*◌, ◌%◌, ◌^◌, ◌<◌, ◌≡◌, refl, ◌⊎◌, inl, inr, Option, none, some, List, [], ◌∷◌, false,
  ◌==◌, if◌then◌else◌, Bool-cases, arith,
}
use thread_equivalence_check.Base.Loops.{for_loop}
use thread_equivalence_check.TrieSet.{set_alloc}
use thread_equivalence_check.TrieSet.Spec.{alloc-Denotes}
use thread_equivalence_check.Memory.Tests.{sum, sum-Streams}
use thread_equivalence_check.Runtime.{Regs, EqTh, State, CtxSwitchStatus}
use thread_equivalence_check.Runtime.Tests.{list_queue, pi, state_at}
use thread_equivalence_check.Runtime.Threads.{
  Cpu, reset_ntids, equiv_fork, init_threads, retrieve_fuel, retrieve_tid_from_queue, check_sp,
  equiv_regs_init, equiv_refresh, reset_threads, mismatch_pc_set, mismatch_on, mismatch_off,
  mismatch_run,
}
use thread_equivalence_check.Runtime.Tracker.{
  zero_status, reset_ctx_switch, enable_ctx_switch, disable_ctx_switch, set_memory_touch_handler,
  set_data_faults, rw_tracker_disarm, rw_tracker_enable, rw_tracker_disable,
}
use thread_equivalence_check.Runtime.Handlers.{
  Event, syscall, exit_to, sys_exit, equiv_syscall_handler, handle,
}
use thread_equivalence_check.Runtime.Run.{first_thread, run_events, equiv_run}
use thread_equivalence_check.Interleaver.{
  FunctionExec, schedule_of, run_schedule, run_interleavings,
}
use thread_equivalence_check.Interleaver.Rounds.{Report}
use thread_equivalence_check.Interleaver.Total.{run_interleavings-Ends}
use thread_equivalence_check.Schedule.{tids_valid}
use thread_equivalence_check.Interleaver.Ends.{IsArrays, RunEnds}

abbrev exit_regs : Option ℕ → State (List ℕ) → Regs
exit_regs none st r = 0
exit_regs (some th) st r = if r == 13 then (st.heap th).stack_end else 0

abbrev exits : ℕ → State (List ℕ) → Event × ℕ
exits w st = (syscall (exit_regs st.cur_thread st), w + 1)

abbrev memory : ℕ → ℕ → ℕ
memory w v = w

abbrev init : ℕ → ℕ
init w = w

abbrev cpu : Cpu
cpu = record { sys_equiv_exit = 0; user_cpsr = 16 }

abbrev threads : ℕ → ℕ
threads i = 4096 * (i + 1)

word : (h : ℕ) → h % 2 ^ 32 < 2 ^ 32
word h = omega arith

-- The stacks start where the threads do.
abbrev Stored : ℕ → ℕ → EqTh → Type 0
Stored p id th = (th.tid ≡ id) × (th.stack_start ≡ p) × (th.stack_end ≡ p + 2048)

-- Nothing runs, the threads are set up, and the queue is empty, or each thread is queued twice, as
-- `init_threads` and `reset_threads` leave it.
abbrev Ready : ℕ × State (List ℕ) → Type 0
Ready s =
    ((s.1.equiv_runq ≡ []) ⊎ (s.1.equiv_runq ≡ 8192 ∷ 4096 ∷ 8192 ∷ 4096 ∷ []))
    × (s.1.single_step_on_p ≡ 0)
    × Stored 4096 1 (s.1.heap 4096)
    × Stored 8192 2 (s.1.heap 8192)

-- There is a result, and it has the property.
abbrev Holds : {A : Type 0} → (A → Type 0) → Option A → Type 0
Holds P none = ⊥
Holds P (some a) = P a

held : {A : Type 0} (P : A → Type 0) (m : Option A) → Holds P m → (a : A) × (m ≡ some a) × P a
held P none h = absurd h
held P (some a) h = (a, refl, h)

abbrev run_of : ℕ → ℕ → ℕ → ℕ → State (List ℕ) → Option ((ℕ × State (List ℕ)) × CtxSwitchStatus)
run_of t u c w st =
    run_schedule init list_queue pi cpu 99 exits 20 (schedule_of 1 2 (t ∷ u ∷ [], c ∷ [])) threads
      set_alloc (w, st)

abbrev Finished : (ℕ × State (List ℕ)) × CtxSwitchStatus → Type 0
Finished r = Ready r.0 × (r.1.ctx_switch ≡ 0)

-- The line names the program, for the tests below.
ran :
    (t u c w : ℕ) (st : State (List ℕ))
    → (t ≡ 1) ⊎ (t ≡ 2)
    → Ready (w, st)
    → Holds Finished (run_of t u c w st)
unfolding run_schedule schedule_of reset_threads for_loop equiv_refresh equiv_regs_init check_sp
    enable_ctx_switch disable_ctx_switch reset_ctx_switch zero_status set_memory_touch_handler
    set_data_faults rw_tracker_disarm rw_tracker_enable rw_tracker_disable equiv_run first_thread
    retrieve_tid_from_queue retrieve_fuel mismatch_on mismatch_off mismatch_pc_set mismatch_run
    run_events handle equiv_syscall_handler sys_exit exit_to
ran t u c w st (inl e) (inl q, s, (t1, a1, b1), (t2, a2, b2)) =
    rw (e, q, s, t1, a1, b1, t2, a2, b2)
      ((inl refl, refl, (refl, refl, refl), (refl, refl, refl)), refl)
ran t u c w st (inl e) (inr q, s, (t1, a1, b1), (t2, a2, b2)) =
    rw (e, q, s, t1, a1, b1, t2, a2, b2)
      ((inl refl, refl, (refl, refl, refl), (refl, refl, refl)), refl)
ran t u c w st (inr e) (inl q, s, (t1, a1, b1), (t2, a2, b2)) =
    rw (e, q, s, t1, a1, b1, t2, a2, b2)
      ((inl refl, refl, (refl, refl, refl), (refl, refl, refl)), refl)
ran t u c w st (inr e) (inr q, s, (t1, a1, b1), (t2, a2, b2)) =
    rw (e, q, s, t1, a1, b1, t2, a2, b2)
      ((inl refl, refl, (refl, refl, refl), (refl, refl, refl)), refl)

runs :
    (arrays : List ℕ × List ℕ) (start : ℕ × State (List ℕ))
    → IsArrays 1 2 0 arrays
    → Ready start
    → RunEnds sum sum-Streams word memory init list_queue pi cpu 99 exits 20 1 2 threads set_alloc
        set_alloc
        (λ v. false)
        (λ v. false)
        alloc-Denotes
        alloc-Denotes
        0
        Ready
        arrays
        start
runs ([], counts) start h ready = let l = h.1 in absurd (omega (arith, l))
runs (t ∷ [], counts) start h ready = let l = h.1 in absurd (omega (arith, l))
runs (t ∷ u ∷ v ∷ ts, counts) start h ready = let l = h.1 in absurd (omega (arith, l))
runs (t ∷ u ∷ [], []) start h ready = let l = h.2 in absurd (omega (arith, l))
runs (t ∷ u ∷ [], c ∷ d ∷ cs) start h ready = let l = h.2 in absurd (omega (arith, l))
runs (t ∷ u ∷ [], c ∷ []) start h ready =
    let range = h.0.0 in
    let id : (t ≡ 1) ⊎ (t ≡ 2) = elim (Bool-cases (t == 1)) [
      | inl e ↦ inl (ground arith)
      | inr ne ↦ inr (ground (arith, range.0, range.1))
    ] in
    let (end, is, (ready', still)) =
      held Finished (run_of t u c start.0 start.1) (ran t u c start.0 start.1 id ready) in
    (
      end.0,
      end.1,
      is,
      ready',
      omega (arith, still),
      λ k a made old. absurd (omega (arith, still, made)),
    )

abbrev idle : State (List ℕ)
idle = record (state_at 0 set_alloc) { equiv_runq = []; single_step_on_p = 0 }

abbrev executables : ℕ → FunctionExec
executables i = record { func_addr = i; var_list = 0 }

state_of : Option (State (List ℕ)) → State (List ℕ)
state_of none = idle
state_of (some st) = st

abbrev made : Option (State (List ℕ))
made =
    init_threads list_queue cpu 0 threads (λ i. (executables i).func_addr) 2
      (disable_ctx_switch idle)

made-some : made ≡ some (state_of made)
unfolding state_of init_threads reset_ntids for_loop equiv_fork equiv_regs_init check_sp
    disable_ctx_switch reset_ctx_switch
made-some = refl

abbrev set_up : Option (State (List ℕ))
set_up = reset_threads list_queue cpu threads 2 (state_of made)

set_up-some : set_up ≡ some (state_of set_up)
unfolding state_of init_threads reset_ntids for_loop equiv_fork equiv_regs_init check_sp
    disable_ctx_switch reset_ctx_switch reset_threads equiv_refresh
set_up-some = refl

set_up-Ready : Ready (0, state_of set_up)
unfolding state_of init_threads reset_ntids for_loop equiv_fork equiv_regs_init check_sp
    disable_ctx_switch reset_ctx_switch reset_threads equiv_refresh
set_up-Ready = (inr refl, refl, (refl, refl, refl), (refl, refl, refl))

in_turn : tids_valid (1 ∷ 2 ∷ []) ≡ 1
unfolding tids_valid
in_turn = refl

run_interleavings-Ends_example :
    (fuel : ℕ) × (reports : List Report) × (last : ℕ × State (List ℕ)) × (run_interleavings sum
        memory init list_queue pi cpu 99 exits 20 fuel 0 executables 2 set_alloc 1 set_alloc threads
        (0, idle)
      ≡ some (reports, last))
run_interleavings-Ends_example =
    run_interleavings-Ends sum sum-Streams word memory init list_queue pi cpu 99 exits 20 1 2
      threads set_alloc set_alloc (λ v. false) (λ v. false) alloc-Denotes alloc-Denotes 0 Ready 0
      executables 0 idle (state_of made) (state_of set_up) (1 ∷ 2 ∷ []) (omega arith) (omega arith)
      (omega arith) (omega arith) ((omega arith, omega arith), ((omega arith, omega arith), tt))
      refl in_turn made-some set_up-some set_up-Ready runs
