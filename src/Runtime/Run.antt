-- ===== src/Runtime/Run.antt =====
-- equiv-threads.c, `equiv_run`. The machine is a parameter: it runs the current thread up to the
-- next exception, and `W` is all that the handlers do not see.
use thread_equivalence_check.Base.{
  ℕ, zero, suc, Option, none, some, Bool, true, false, if◌then◌else◌, get_elem?, ◌>>=◌,
}
use thread_equivalence_check.Runtime.{EqTh, ScheduleT, RunQueue, State, Libpi}
use thread_equivalence_check.Runtime.Threads.{
  retrieve_tid_from_queue, mismatch_pc_set, mismatch_on, mismatch_off,
}
use thread_equivalence_check.Runtime.Handlers.{Event, Ending, returns, switches, finishes, handle}

abbrev pub is_finished : Ending → Bool
is_finished returns = false
is_finished switches = false
is_finished finishes = true

module _ {Q : Type 0} (rq : RunQueue Q) where
  -- Without a schedule the thread at the head of the queue runs first.
  unfoldable pub first_thread : Option ScheduleT → (ℕ → EqTh) → Q → Option (ℕ × Q)
  first_thread none heap q = rq.eq_pop q
  first_thread (some sched) heap q = do
    tid ← get_elem? sched.tids 0
    retrieve_tid_from_queue rq heap tid q

module _ {Q W : Type 0} (rq : RunQueue Q) (pi : Libpi) (ss_on_exit : ℕ)
    (machine : W → State Q → Event × W) where
  -- One exception after the other; `none` also means that the fuel ran out.
  unfoldable pub run_events : ℕ → W → State Q → Option (State Q × W)
  run_events zero w st = none
  run_events (suc fuel) w st =
      let (e, w') = machine w st in
      (do
        (st', ending) ← handle rq pi ss_on_exit e st
        let rest = run_events fuel w' st' in if is_finished ending then some (st', w') else rest)

  unfoldable pub equiv_run : ℕ → W → State Q → Option (State Q × W)
  equiv_run fuel w st = do
    (th, q) ← first_thread rq st.schedule st.heap st.equiv_runq
    st1 ← mismatch_on (record st { cur_thread = some th; equiv_runq = q })
    st2 ← mismatch_pc_set 0 st1
    (st3, w') ← run_events fuel w st2
    st4 ← mismatch_off st3
    some (st4, w')
