-- ===== src/Runtime/Untracked.antt =====
-- The handlers of final_proj/code that leave the sets of the tracker alone: all but the data abort.
use thread_equivalence_check.Base.{
  ℕ, ◌≡◌, Option, none, some, Bool, true, false, ◌==◌, ltb, truthy, add32, not, assert,
  if◌then◌else◌, get_elem?, OnSome, ◌%◌, ◌>>=◌, ◌>>◌, inl, inr, Bool-cases,
}
use thread_equivalence_check.TrieSet.{SetT, set_alloc, set_free, set_empty, set_intersection}
use thread_equivalence_check.Runtime.{
  Regs, EqTh, write_thread, ScheduleT, RwTracker, RunQueue, State, Libpi,
}
use thread_equivalence_check.Runtime.Tracker.{rw_tracker_arm, set_data_faults}
use thread_equivalence_check.Runtime.Threads.{
  Cpu, stack_size, equiv_regs_init, equiv_fork, reset_ntids, check_sp, retrieve_tid_from_queue,
  mismatch_pc_set, mismatch_on, mismatch_off, mismatch_run,
}
use thread_equivalence_check.Runtime.Handlers.{
  Ending, returns, switches, finishes, mark_touch, touch_scheduled, ctx_switch_handler,
  touch_installed, switch_scheduled, count_instr, after_touch, equiv_hash_handler, after_step,
  mismatch_fault, schedule_left, take_turn, equiv_schedule, sys_yield, exit_to, sys_exit,
  equiv_syscall_handler, save_regs,
}
use thread_equivalence_check.Runtime.Reached.{chain, any}

pub choose :
    {C : Type 0} (R : C → Type 0) (b : Bool) (x y : Option C)
    → OnSome R x
    → OnSome R y
    → OnSome R (if b then x else y)
choose R true x y h g = h
choose R false x y h g = g

module _ {Q : Type 0} (tracker : RwTracker) where
  abbrev pub Has : State Q → Type 0
  Has st = st.current_tracker ≡ tracker

  abbrev pub HasAfter : State Q × Ending → Type 0
  HasAfter out = Has out.0

  ended :
      (e : Ending) (o : Option (State Q)) → OnSome Has o → OnSome HasAfter (o >>= λ s. some (s, e))
  ended e o h = chain Has HasAfter o (λ s. some (s, e)) h (λ s k. k)

  pub pc-Has : (pc : ℕ) (st : State Q) → Has st → OnSome Has (mismatch_pc_set pc st)
  unfolding mismatch_pc_set
  pc-Has pc st h = any Has (assert (truthy st.single_step_on_p)) _ (λ u. h)

  pub on-Has : (st : State Q) → Has st → OnSome Has (mismatch_on st)
  unfolding mismatch_on
  on-Has st h = any Has (assert (not (truthy st.single_step_on_p))) _ (λ u. pc-Has 0 _ h)

  pub off-Has : (st : State Q) → Has st → OnSome Has (mismatch_off st)
  unfolding mismatch_off
  off-Has st h = any Has (assert (truthy st.single_step_on_p)) _ (λ u. h)

  run-Has : (st : State Q) → Has st → OnSome Has (mismatch_run st)
  unfolding mismatch_run
  run-Has st h = any Has st.cur_thread _ (λ th. pc-Has _ st h)

  arm-Has : (pi : Libpi) (st : State Q) → Has st → Has (rw_tracker_arm pi st)
  unfolding rw_tracker_arm set_data_faults
  arm-Has pi st h = elim (Bool-cases (truthy st.rw_tracker_enabled)) [
    | inl e ↦ rw e h
    | inr e ↦ rw e h
  ]

  marked :
      (empty : ℕ) (sched : ScheduleT) (pc : ℕ) (st : State Q)
      → Has st
      → Has (if empty == 0 then mark_touch sched pc st else st)
  unfolding mark_touch
  marked empty sched pc st h = elim (Bool-cases (empty == 0)) [ inl e ↦ rw e h | inr e ↦ rw e h ]

  touch-Has :
      (s : Option ScheduleT) (touched : SetT) (pc : ℕ) (st : State Q)
      → Has st
      → OnSome Has (touch_scheduled s touched pc st)
  unfolding touch_scheduled
  touch-Has none touched pc st h = h
  touch-Has (some sched) touched pc st h =
      choose Has (ltb st.ctx_switch_status.ctx_switch sched.n_ctx_switches) _ _
        (any Has st.shared_memory _ (λ shared.
          any Has (set_intersection set_alloc shared touched) _ (λ i.
            any Has (set_empty i) _
              (λ empty. any Has (set_free i) _ (λ u. marked empty sched pc st h)))))
        h

  pub installed-Has :
      (touched : SetT) (pc : ℕ) (st : State Q) → Has st → OnSome Has (touch_installed touched pc st)
  unfolding touch_installed ctx_switch_handler
  installed-Has touched pc st h =
      choose Has st.memory_touch_handler _ _ (touch-Has st.schedule touched pc st h) h

  module _ (rq : RunQueue Q) (pi : Libpi) where
    pub fork-Has :
        (cpu : Cpu) (verbose_p th fn args : ℕ) (st : State Q)
        → Has st
        → OnSome Has (equiv_fork rq cpu verbose_p th fn args st)
    unfolding equiv_fork
    fork-Has cpu verbose_p th fn args st h =
        let blank : EqTh = record {
          regs = λ r. 0;
          tid = st.ntids;
          fn = fn;
          args = args;
          stack_start = th;
          stack_end = add32 th stack_size;
          verbose_p = verbose_p;
        } in
        let t : EqTh = record blank { regs = equiv_regs_init rq cpu blank } in
        let forked : State Q = record st {
          ntids = add32 st.ntids 1;
          heap = write_thread st.heap th t;
          equiv_runq = rq.eq_push st.equiv_runq th;
        } in
        any Has (assert (th % 8 == 0))
          (λ u. assert (t.stack_end % 8 == 0) >> (check_sp rq t >> some forked))
          (λ u1.
            any Has (assert (t.stack_end % 8 == 0)) (λ u. check_sp rq t >> some forked)
              (λ u2. any Has (check_sp rq t) (λ u. some forked) (λ u3. h)))

    pub ntids-Has : (st : State Q) → Has st → OnSome Has (reset_ntids rq st)
    unfolding reset_ntids
    ntids-Has st h = any Has (assert (rq.eq_empty st.equiv_runq)) _ (λ u. h)

    switch-Has :
        (sched : ScheduleT) (cur : ℕ) (st : State Q)
        → Has st
        → OnSome Has (switch_scheduled rq sched cur st)
    unfolding switch_scheduled
    switch-Has sched cur st h =
        any Has (get_elem? sched.tids (add32 st.ctx_switch_status.ctx_switch 1)) _ (λ tid.
          any Has (retrieve_tid_from_queue rq st.heap tid st.equiv_runq) _ (λ found. run-Has _ h))

    count-Has : (cur : ℕ) (st : State Q) → Has st → OnSome HasAfter (count_instr rq cur st)
    unfolding count_instr
    count-Has cur st h = any HasAfter st.schedule _ (λ sched.
        any HasAfter (get_elem? sched.instr_counts st.ctx_switch_status.ctx_switch) _ (λ limit.
          choose HasAfter (ltb (add32 st.ctx_switch_status.instr_count 1) limit) _ _ h
            (ended switches _ (switch-Has sched cur _ h))))

    hash-Has : (r : Regs) (st : State Q) → Has st → OnSome HasAfter (equiv_hash_handler rq pi r st)
    unfolding equiv_hash_handler after_touch
    hash-Has r st h = any HasAfter st.cur_thread _ (λ cur.
        let armed : Has (save_regs rq cur r (rw_tracker_arm pi st)) = arm-Has pi st h in
        choose HasAfter (truthy (rw_tracker_arm pi st).ctx_switch_status.do_instr_count) _ _
          (count-Has cur _ armed) armed)

    resumed-Has :
        (pc : ℕ) (out : State Q × Ending) → HasAfter out → OnSome HasAfter (after_step rq pc out)
    unfolding after_step
    resumed-Has pc (st, returns) h = ended switches _ (pc-Has pc st h)
    resumed-Has pc (st, switches) h = h
    resumed-Has pc (st, finishes) h = h

    pub fault-Has :
        (stop : ℕ) (r : Regs) (st : State Q)
        → Has st
        → OnSome HasAfter (mismatch_fault rq pi stop r st)
    unfolding mismatch_fault
    fault-Has stop r st h = choose HasAfter (r 15 == stop) none _ tt (
        chain HasAfter HasAfter (equiv_hash_handler rq pi r st) _ (hash-Has r st h)
          (resumed-Has (r 15)))

    turn-Has : (cur : ℕ) (o : Option (ℕ × Q)) (st : State Q) → Has st → Has (take_turn rq cur o st)
    unfolding take_turn
    turn-Has cur none st h = h
    turn-Has cur (some (th, q)) st h = h

    schedule-Has : (st : State Q) → Has st → OnSome HasAfter (equiv_schedule rq st)
    unfolding equiv_schedule
    schedule-Has st h = any HasAfter st.cur_thread _ (λ cur.
        any HasAfter (assert (not (schedule_left rq st.schedule st))) _
          (λ u. ended switches _ (run-Has _ (turn-Has cur (rq.eq_pop st.equiv_runq) st h))))

    exit-Has : (o : Option (ℕ × Q)) (st : State Q) → Has st → OnSome HasAfter (exit_to rq o st)
    unfolding exit_to
    exit-Has none st h = h
    exit-Has (some (th, q)) st h = ended switches _ (run-Has _ h)

    pub syscall-Has :
        (r : Regs) (st : State Q) → Has st → OnSome HasAfter (equiv_syscall_handler rq r st)
    unfolding equiv_syscall_handler sys_exit sys_yield
    syscall-Has r st h = any HasAfter st.cur_thread _ (λ cur.
        any HasAfter (check_sp rq ((save_regs rq cur r st).heap cur)) _ (λ u.
          choose HasAfter (r 0 == 1) _ _ (schedule-Has _ h) (
            choose HasAfter (r 0 == 3) _ _
              (any HasAfter (rq.eq_pop (rq.eq_append st.equiv_runq cur)) _
                (λ next. ended switches _ (run-Has _ h)))
              (choose HasAfter (r 0 == 0) _ _ (exit-Has _ _ h) tt))))
