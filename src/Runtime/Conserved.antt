-- ===== src/Runtime/Conserved.antt =====
-- equiv-threads.c and mini-step.c: what the exception handlers do to the current thread and the
-- queued ones.
use thread_equivalence_check.Base.{
  ℕ, ◌+◌, ◌≤◌, ◌≡◌, refl, ◌∙◌, Option, none, some, ◌∷◌, Bool, false, ◌==◌, ltb, not, truthy, add32,
  assert, get_elem?, if◌then◌else◌, OnSome, arith,
}
use thread_equivalence_check.Runtime.{Regs, RunQueue, State, ScheduleT, Libpi}
use thread_equivalence_check.Runtime.Tracker.{rw_tracker_arm}
use thread_equivalence_check.Runtime.Threads.{retrieve_tid_from_queue, check_sp, mismatch_run}
use thread_equivalence_check.Runtime.Handlers.{
  Event, data_abort, prefetch_abort, syscall, Ending, returns, switches, finishes,
  rw_tracker_data_abort_handler, save_regs, switch_scheduled, count_instr, after_touch,
  equiv_hash_handler, after_step, mismatch_fault, schedule_left, take_turn, equiv_schedule,
  sys_yield, exit_to, sys_exit, equiv_syscall_handler, handle,
}
use thread_equivalence_check.Runtime.Reached.{chain, any}
use thread_equivalence_check.Runtime.Untracked.{choose}
use thread_equivalence_check.Runtime.Roster.{
  one, one_self, occurs, Same, pop-Same, found-Same, turned, weaken, pick, append-occurs,
}
use thread_equivalence_check.Runtime.Kept.{
  current, itself, roster, Kept, KeptAfter, ended, pc-Kept, run-Kept, arm-Kept, arm_thread,
  abort-Kept,
}

module _ {Q : Type 0} (rq : RunQueue Q) where
  module _ (f : ℕ → ℕ) (once : (x : ℕ) → f x ≤ 1) where
    abbrev K : State Q → Type 0
    K = Kept rq f

    abbrev KeptOut : State Q × Ending → Type 0
    KeptOut = KeptAfter rq f

    -- The thread `cur` and the queue have the threads that `f` counts.
    abbrev With : ℕ → State Q → Type 0
    With cur st = (x : ℕ) → one x cur + occurs x (rq.items st.equiv_runq) ≡ f x

    queued :
        (cur : ℕ) (st : State Q)
        → With cur st
        → (x : ℕ) → occurs x (cur ∷ rq.items st.equiv_runq) ≤ 1
    unfolding occurs
    queued cur st h x = omega (arith, h x, once x)

    apart : (cur : ℕ) (st : State Q) → With cur st → occurs cur (rq.items st.equiv_runq) ≡ 0
    apart cur st h = omega (arith, h cur, once cur, one_self cur)

    -- The thread `cur` is put at the end of the queue from which `a` was popped.
    moved :
        (cur : ℕ) (st : State Q) (a : ℕ × Q)
        → With cur st
        → Same rq (λ x. occurs x (rq.items st.equiv_runq)) a
        → (x : ℕ) → one x a.0 + occurs x (rq.items (rq.eq_append a.1 cur)) ≡ f x
    unfolding occurs
    moved cur st a h k x = turned rq st.equiv_runq cur (queued cur st h) a k x ∙ h x

    switch-Kept :
        (sched : ScheduleT) (cur : ℕ) (st : State Q)
        → With cur st
        → OnSome K (switch_scheduled rq sched cur st)
    unfolding switch_scheduled
    switch-Kept sched cur st h =
        any K (get_elem? sched.tids (add32 st.ctx_switch_status.ctx_switch 1)) _ (λ tid.
          chain (Same rq (λ x. occurs x (rq.items st.equiv_runq))) K
            (retrieve_tid_from_queue rq st.heap tid st.equiv_runq) _
            (found-Same rq st.heap tid st.equiv_runq (λ x. omega (arith, h x, once x)))
            (λ a k. run-Kept rq f _ (moved cur st a h k)))

    count-Kept :
        (cur : ℕ) (st : State Q) → K st → With cur st → OnSome KeptOut (count_instr rq cur st)
    unfolding count_instr
    count-Kept cur st k h = any KeptOut st.schedule _ (λ sched.
        any KeptOut (get_elem? sched.instr_counts st.ctx_switch_status.ctx_switch) _ (λ limit.
          choose KeptOut (ltb (add32 st.ctx_switch_status.instr_count 1) limit) _ _ k
            (ended rq f switches _ (switch-Kept sched cur _ h))))

    -- The thread that the state names as the current one.
    current-With : (cur : ℕ) (st : State Q) → K st → st.cur_thread ≡ some cur → With cur st
    current-With cur st k c x = rw c at k x

    hash-Kept :
        (pi : Libpi) (r : Regs) (st : State Q)
        → K st
        → OnSome KeptOut (equiv_hash_handler rq pi r st)
    unfolding equiv_hash_handler after_touch
    hash-Kept pi r st k =
        chain (λ cur. st.cur_thread ≡ some cur) KeptOut st.cur_thread _ (itself st.cur_thread)
          (λ cur c.
            let armed : K (rw_tracker_arm pi st) = arm-Kept rq f pi st k in
            choose KeptOut (truthy (rw_tracker_arm pi st).ctx_switch_status.do_instr_count) _ _
              (count-Kept cur _ armed
                (current-With cur (rw_tracker_arm pi st) armed (arm_thread rq pi st ∙ c)))
              armed)

    resumed-Kept :
        (pc : ℕ) (out : State Q × Ending) → KeptOut out → OnSome KeptOut (after_step rq pc out)
    unfolding after_step
    resumed-Kept pc (st, returns) k = ended rq f switches _ (pc-Kept rq f pc st k)
    resumed-Kept pc (st, switches) k = k
    resumed-Kept pc (st, finishes) k = k

    fault-Kept :
        (pi : Libpi) (stop : ℕ) (r : Regs) (st : State Q)
        → K st
        → OnSome KeptOut (mismatch_fault rq pi stop r st)
    unfolding mismatch_fault
    fault-Kept pi stop r st k = choose KeptOut (r 15 == stop) none _ tt (
        chain KeptOut KeptOut (equiv_hash_handler rq pi r st) _ (hash-Kept pi r st k)
          (resumed-Kept (r 15)))

    turn-Kept :
        (cur : ℕ) (o : Option (ℕ × Q)) (st : State Q)
        → K st
        → With cur st
        → OnSome (Same rq (λ x. occurs x (rq.items st.equiv_runq))) o
        → K (take_turn rq cur o st)
    unfolding take_turn
    turn-Kept cur none st k h same = k
    turn-Kept cur (some a) st k h same = moved cur st a h same

    schedule-Kept :
        (cur : ℕ) (st : State Q)
        → st.cur_thread ≡ some cur
        → K st
        → OnSome KeptOut (equiv_schedule rq st)
    unfolding equiv_schedule
    schedule-Kept cur st c k =
        chain (λ now. st.cur_thread ≡ some now) KeptOut st.cur_thread _ (itself st.cur_thread)
          (λ now same. any KeptOut (assert (not (schedule_left rq st.schedule st))) _ (λ u.
            ended rq f switches _ (
              run-Kept rq f _ (
                turn-Kept now (rq.eq_pop st.equiv_runq) st k (current-With now st k same)
                  (pop-Same rq st.equiv_runq)))))

    yield-Kept : (cur : ℕ) (st : State Q) → With cur st → OnSome KeptOut (sys_yield rq cur st)
    unfolding sys_yield occurs
    yield-Kept cur st h =
        chain (Same rq (λ x. occurs x (rq.items (rq.eq_append st.equiv_runq cur)))) KeptOut
          (rq.eq_pop (rq.eq_append st.equiv_runq cur)) _
          (pop-Same rq (rq.eq_append st.equiv_runq cur))
          (λ a k. ended rq f switches _ (
            run-Kept rq f _
              (λ x. k x ∙ append-occurs rq st.equiv_runq cur (apart cur st h) x ∙ h x)))

  -- A system call to exit, after which another thread runs.
  abbrev pub exits : Event → Ending → Bool
  exits (data_abort r addr dfsr instruction) ending = false
  exits (prefetch_abort r) ending = false
  exits (syscall r) returns = false
  exits (syscall r) finishes = false
  exits (syscall r) switches = r 0 == 0

  -- The threads after an exception, and the one that has exited.
  abbrev pub Accounts : State Q → Event → State Q × Ending → Type 0
  Accounts st e out =
      (x : ℕ)
      → roster rq out.0 x + (if exits e out.1 then current st.cur_thread x else 0) ≡ roster rq st x

  module _ (st : State Q) (once : (x : ℕ) → roster rq st x ≤ 1) where
    abbrev before : ℕ → ℕ
    before = roster rq st

    accounts :
        (e : Event) (out : State Q × Ending)
        → exits e out.1 ≡ false
        → KeptAfter rq before out
        → Accounts st e out
    accounts e out stays k x = rw stays (omega (arith, k x))

    exit-Accounts :
        (r : Regs) (cur : ℕ) (o : Option (ℕ × Q)) (st1 : State Q)
        → r 0 ≡ 0
        → st.cur_thread ≡ some cur
        → Kept rq before st1
        → OnSome (Same rq (λ x. occurs x (rq.items st.equiv_runq))) o
        → OnSome (Accounts st (syscall r)) (exit_to rq o st1)
    unfolding exit_to occurs
    exit-Accounts r cur none st1 exited c k same = accounts (syscall r) (st1, finishes) refl k
    exit-Accounts r cur (some a) st1 exited c k same =
        chain (Kept rq (λ x. occurs x (rq.items st.equiv_runq))) (Accounts st (syscall r))
          (mismatch_run _) _ (run-Kept rq (λ x. occurs x (rq.items st.equiv_runq)) _ same)
          (λ st2 j x. rw (exited, c) (omega (arith, j x)))

    no_exit : (r : Regs) → (r 0 == 0) ≡ false → (ending : Ending) → exits (syscall r) ending ≡ false
    no_exit r other returns = refl
    no_exit r other switches = other
    no_exit r other finishes = refl

    staying :
        (r : Regs) (o : Option (State Q × Ending))
        → (r 0 == 0) ≡ false
        → OnSome (KeptAfter rq before) o
        → OnSome (Accounts st (syscall r)) o
    staying r o other h =
        weaken (KeptAfter rq before) (Accounts st (syscall r)) o h
          (λ out k. accounts (syscall r) out (no_exit r other out.1) k)

    syscall-Accounts : (r : Regs) → OnSome (Accounts st (syscall r)) (equiv_syscall_handler rq r st)
    unfolding equiv_syscall_handler sys_exit
    syscall-Accounts r =
        let A : State Q × Ending → Type 0 = Accounts st (syscall r) in
        chain (λ cur. st.cur_thread ≡ some cur) (Accounts st (syscall r)) st.cur_thread _
          (itself st.cur_thread)
          (λ cur c.
            let saved : State Q = save_regs rq cur r st in
            any (Accounts st (syscall r)) (check_sp rq (saved.heap cur)) _ (λ u.
              pick A (r 0 == 1) _ _
                (λ putc.
                  staying r _ (ground arith) (schedule-Kept before once cur saved c (λ x. refl)))
                (λ e1.
                  pick A (r 0 == 3) _ _
                    (λ yield. staying r _ (ground arith) (
                      yield-Kept before once cur saved
                        (current-With before once cur st (λ x. refl) c)))
                    (λ e2.
                      pick A (r 0 == 0) _ _
                        (λ exit.
                          exit-Accounts r cur (rq.eq_pop st.equiv_runq) _ (ground arith) c
                            (λ x. refl) (pop-Same rq st.equiv_runq))
                        (λ e3. tt)))))

    -- The exceptions lose no thread and queue none twice: how often a thread is the current one or in
    -- the queue is the same after every exception that is handled, but that a thread that exits, when
    -- another one follows it, is there once less.
    pub handle-Accounts :
        (pi : Libpi) (stop : ℕ) (e : Event) → OnSome (Accounts st e) (handle rq pi stop e st)
    unfolding handle
    handle-Accounts pi stop (data_abort r addr dfsr instruction) =
        chain (Kept rq before) (Accounts st (data_abort r addr dfsr instruction))
          (rw_tracker_data_abort_handler pi r addr dfsr instruction st) _
          (abort-Kept rq before pi r addr dfsr instruction st (λ x. refl))
          (λ st' k. accounts (data_abort r addr dfsr instruction) (st', returns) refl k)
    handle-Accounts pi stop (prefetch_abort r) =
        weaken (KeptAfter rq before) (Accounts st (prefetch_abort r))
          (mismatch_fault rq pi stop r st) (fault-Kept before once pi stop r st (λ x. refl))
          (λ out k. accounts (prefetch_abort r) out refl k)
    handle-Accounts pi stop (syscall r) = syscall-Accounts r
