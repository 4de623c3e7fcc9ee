-- ===== src/Runtime/Handled.antt =====
-- The exception handlers: the context switches of a run stay within its schedule.
use thread_equivalence_check.Base.{
  ℕ, ◌<◌, ◌^◌, ◌≡◌, refl, subst, Option, none, some, ◌==◌, ltb, truthy, add32, not, bit_or,
  get_elem?, assert, OnSome, Option-cases, ◌>>=◌, inl, inr, Bool-cases, arith,
}
use thread_equivalence_check.Base.Bits.{shl}
use thread_equivalence_check.TrieSet.{SetT, set_alloc, set_free}
use thread_equivalence_check.Touched.{get_touched_bytes}
use thread_equivalence_check.Runtime.{Regs, ScheduleT, RunQueue, State, Libpi}
use thread_equivalence_check.Runtime.Tracker.{user_dom, rw_tracker_disarm, set_data_faults}
use thread_equivalence_check.Runtime.Threads.{check_sp, retrieve_tid_from_queue, mismatch_pc_set}
use thread_equivalence_check.Runtime.Handlers.{
  Event, data_abort, prefetch_abort, syscall, Ending, returns, switches, finishes,
  ctx_switch_handler, touch_installed, track, rw_tracker_data_abort_handler, switch_scheduled,
  count_instr, after_touch, equiv_hash_handler, after_step, mismatch_fault, schedule_left,
  take_turn, equiv_schedule, sys_yield, exit_to, sys_exit, equiv_syscall_handler, handle, save_regs,
}
use thread_equivalence_check.Runtime.Bounded.{
  HasSwitches, Bounded, Kept, touch-Bounded, each, each_state, after_state, either, ended,
  run-Bounded, arm-Bounded,
}

module _ {Q : Type 0} (n : ℕ) (word : n < 2 ^ 32) where
  module _ (rq : RunQueue Q) (pi : Libpi) where
    switch-Bounded :
        (sched : ScheduleT) (cur : ℕ) (st : State Q)
        → HasSwitches n st.schedule
        → st.ctx_switch_status.ctx_switch < n
        → st.ctx_switch_status.do_instr_count ≡ 0
        → OnSome (Bounded n) (switch_scheduled rq sched cur st)
    unfolding switch_scheduled
    switch-Bounded sched cur st e lt off =
        elim (Option-cases (get_elem? sched.tids (add32 st.ctx_switch_status.ctx_switch 1))) [
          | inl h ↦ rw h tt
          | inr (tid, h) ↦
              elim (Option-cases (retrieve_tid_from_queue rq st.heap tid st.equiv_runq)) [
                | inl h1 ↦ rw (h, h1) tt
                | inr (found, h1) ↦
                    rw (h, h1)
                      (run-Bounded n word _
                        ((omega arith, λ on. absurd (ground (arith, on, off))), e))
              ]
        ]

    count-Bounded :
        (cur : ℕ) (st : State Q)
        → st.ctx_switch_status.ctx_switch < n
        → HasSwitches n st.schedule
        → OnSome (Kept n word) (count_instr rq cur st)
    unfolding count_instr
    count-Bounded cur st lt e = elim (Option-cases st.schedule) [
      | inl h ↦ rw h tt
      | inr (sched, h) ↦
          let e' : sched.n_ctx_switches ≡ n = subst (HasSwitches n) h e in
          elim (Option-cases (get_elem? sched.instr_counts st.ctx_switch_status.ctx_switch)) [
            | inl h1 ↦ rw (h, h1) tt
            | inr (limit, h1) ↦
                elim (Bool-cases (ltb (add32 st.ctx_switch_status.instr_count 1) limit)) [
                  | inl room ↦
                      rw (h, h1, room) ((omega arith, λ on. absurd (ground (arith, on))), e')
                  | inr full ↦
                      rw (h, h1, full)
                        (ended n word _ switches (switch-Bounded sched cur _ e' lt refl))
                ]
          ]
    ]

    step-Bounded :
        (cur : ℕ) (st : State Q) → Bounded n st → OnSome (Kept n word) (after_touch rq cur st)
    unfolding after_touch
    step-Bounded cur st ((le, lt), e) =
        elim (Bool-cases (truthy st.ctx_switch_status.do_instr_count)) [
          | inl on ↦ rw on (count-Bounded cur st (lt on) e)
          | inr off ↦ rw off ((le, lt), e)
        ]

    hash-Bounded :
        (r : Regs) (st : State Q)
        → Bounded n st
        → OnSome (Kept n word) (equiv_hash_handler rq pi r st)
    unfolding equiv_hash_handler
    hash-Bounded r st b = elim (Option-cases st.cur_thread) [
      | inl h ↦ rw h tt
      | inr (cur, h) ↦ rw h (step-Bounded cur _ (arm-Bounded n word pi _ b))
    ]

    resumed-Bounded :
        (pc : ℕ) (o : Option (State Q × Ending))
        → OnSome (Kept n word) o
        → OnSome (Kept n word) (o >>= after_step rq pc)
    unfolding after_step mismatch_pc_set
    resumed-Bounded pc none h = tt
    resumed-Bounded pc (some (st, returns)) h = elim (Bool-cases (truthy st.single_step_on_p)) [
      | inl on ↦ rw on h
      | inr off ↦ rw off tt
    ]
    resumed-Bounded pc (some (st, switches)) h = h
    resumed-Bounded pc (some (st, finishes)) h = h

    fault-Bounded :
        (stop : ℕ) (r : Regs) (st : State Q)
        → Bounded n st
        → OnSome (Kept n word) (mismatch_fault rq pi stop r st)
    unfolding mismatch_fault
    fault-Bounded stop r st b = elim (Bool-cases (r 15 == stop)) [
      | inl e ↦ rw e tt
      | inr e ↦ rw e (resumed-Bounded (r 15) _ (hash-Bounded r st b))
    ]

    turn-Bounded :
        (cur : ℕ) (o : Option (ℕ × Q)) (st : State Q)
        → Bounded n st
        → Bounded n (take_turn rq cur o st)
    unfolding take_turn
    turn-Bounded cur none st b = b
    turn-Bounded cur (some (th, q)) st b = b

    schedule-Bounded : (st : State Q) → Bounded n st → OnSome (Kept n word) (equiv_schedule rq st)
    unfolding equiv_schedule
    schedule-Bounded st b = each n word st.cur_thread _ (λ cur.
        each n word (assert (not (schedule_left rq st.schedule st))) _ (λ u.
          ended n word _ switches
            (run-Bounded n word _ (turn-Bounded cur (rq.eq_pop st.equiv_runq) st b))))

    yield-Bounded :
        (cur : ℕ) (st : State Q) → Bounded n st → OnSome (Kept n word) (sys_yield rq cur st)
    unfolding sys_yield
    yield-Bounded cur st (b, e) =
        each n word (rq.eq_pop (rq.eq_append st.equiv_runq cur)) _
          (λ next. ended n word _ switches (run-Bounded n word _ (b, tt)))

    exit-Bounded :
        (o : Option (ℕ × Q)) (st : State Q) → Bounded n st → OnSome (Kept n word) (exit_to rq o st)
    unfolding exit_to
    exit-Bounded none st b = b
    exit-Bounded (some (th, q)) st b = ended n word _ switches (run-Bounded n word _ b)

    syscall-Bounded :
        (r : Regs) (st : State Q)
        → Bounded n st
        → OnSome (Kept n word) (equiv_syscall_handler rq r st)
    unfolding equiv_syscall_handler sys_exit
    syscall-Bounded r st b = each n word st.cur_thread _ (λ cur.
        each n word (check_sp rq ((save_regs rq cur r st).heap cur)) _ (λ u.
          either n word (r 0 == 1) _ _ (schedule-Bounded _ b) (
            either n word (r 0 == 3) _ _ (yield-Bounded cur _ b)
              (either n word (r 0 == 0) _ _ (exit-Bounded _ _ (b.0, tt)) tt))))

    installed-Bounded :
        (touched : SetT) (pc : ℕ) (st : State Q)
        → Bounded n st
        → OnSome (Bounded n) (touch_installed touched pc st)
    unfolding touch_installed ctx_switch_handler
    installed-Bounded touched pc st b = elim (Bool-cases st.memory_touch_handler) [
      | inl on ↦ rw on (touch-Bounded n word st.schedule touched pc _ b.1 b)
      | inr off ↦ rw off b
    ]

    disarm-Bounded : (st : State Q) → Bounded n st → Bounded n (rw_tracker_disarm pi st)
    unfolding rw_tracker_disarm set_data_faults
    disarm-Bounded st b = b

    abort-Bounded :
        (r : Regs) (addr dfsr instruction : ℕ) (st : State Q)
        → Bounded n st
        → OnSome (Bounded n) (rw_tracker_data_abort_handler pi r addr dfsr instruction st)
    unfolding rw_tracker_data_abort_handler
    abort-Bounded r addr dfsr instruction st b =
        each_state n word
          (assert (bit_or (shl (pi.bit_isset dfsr 10) 4) (pi.bits_get dfsr 0 3) == 13)) _
          (λ u1. each_state n word (assert (not (pi.bits_get dfsr 4 7 == user_dom))) _ (λ u2.
            each_state n word
              (get_touched_bytes pi.bits_get pi.bit_isset instruction addr set_alloc) _
              (λ touched.
                after_state n word (touch_installed touched (r 15) st) _
                  (installed-Bounded touched (r 15) st b)
                  (λ st1 b1.
                    each_state n word
                      (track (truthy (pi.bit_isset dfsr 11)) touched st1.current_tracker) _
                      (λ tracker.
                        each_state n word (set_free touched) _
                          (λ u3. disarm-Bounded (record st1 { current_tracker = tracker }) b1))))))

    -- Every exception handler keeps the bounds: the number of context switches is at most that of the
    -- schedule, a touch of shared memory is marked only while a switch is left, and the schedule, as
    -- long as there is one, has the same number of switches.
    pub handle-Bounded :
        (stop : ℕ) (e : Event) (st : State Q)
        → Bounded n st
        → OnSome (λ out. Bounded n out.0) (handle rq pi stop e st)
    unfolding handle
    handle-Bounded stop (data_abort r addr dfsr instruction) st b =
        ended n word _ returns (abort-Bounded r addr dfsr instruction st b)
    handle-Bounded stop (prefetch_abort r) st b = fault-Bounded stop r st b
    handle-Bounded stop (syscall r) st b = syscall-Bounded r st b
