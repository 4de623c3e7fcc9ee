-- ===== src/Runtime/Kept.antt =====
-- equiv-rw-set.c and mini-step.c: the operations that change neither the current thread nor the
-- queue.
use thread_equivalence_check.Base.{
  ℕ, ◌+◌, ◌≡◌, refl, bit_or, Option, none, some, ◌==◌, ltb, not, truthy, assert, OnSome, ◌>>=◌, inl,
  inr, Bool-cases,
}
use thread_equivalence_check.Base.Bits.{shl}
use thread_equivalence_check.TrieSet.{SetT, set_alloc, set_free, set_empty, set_intersection}
use thread_equivalence_check.Touched.{get_touched_bytes}
use thread_equivalence_check.Runtime.{Regs, RunQueue, State, ScheduleT, Libpi}
use thread_equivalence_check.Runtime.Tracker.{
  rw_tracker_arm, rw_tracker_disarm, set_data_faults, user_dom,
}
use thread_equivalence_check.Runtime.Threads.{mismatch_pc_set, mismatch_run}
use thread_equivalence_check.Runtime.Handlers.{
  Ending, mark_touch, touch_scheduled, ctx_switch_handler, touch_installed, track,
  rw_tracker_data_abort_handler,
}
use thread_equivalence_check.Runtime.Reached.{chain, any}
use thread_equivalence_check.Runtime.Untracked.{choose}
use thread_equivalence_check.Runtime.Roster.{one, occurs}

-- How often a thread is the current one.
abbrev pub current : Option ℕ → ℕ → ℕ
current none x = 0
current (some c) x = one x c

-- The value of a result that is there.
pub itself : {A : Type 0} (o : Option A) → OnSome (λ a. o ≡ some a) o
itself none = tt
itself (some a) = refl

module _ {Q : Type 0} (rq : RunQueue Q) where
  -- How often a thread is the current one or in the queue.
  abbrev pub roster : State Q → ℕ → ℕ
  roster st x = current st.cur_thread x + occurs x (rq.items st.equiv_runq)

  pub arm_thread : (pi : Libpi) (st : State Q) → (rw_tracker_arm pi st).cur_thread ≡ st.cur_thread
  unfolding rw_tracker_arm set_data_faults
  arm_thread pi st = elim (Bool-cases (truthy st.rw_tracker_enabled)) [
    | inl e ↦ rw e refl
    | inr e ↦ rw e refl
  ]

  module _ (f : ℕ → ℕ) where
    abbrev pub Kept : State Q → Type 0
    Kept st = (x : ℕ) → roster st x ≡ f x

    abbrev pub KeptAfter : State Q × Ending → Type 0
    KeptAfter out = Kept out.0

    pub ended :
        (e : Ending) (o : Option (State Q))
        → OnSome Kept o
        → OnSome KeptAfter (o >>= λ s. some (s, e))
    ended e o h = chain Kept KeptAfter o (λ s. some (s, e)) h (λ s k. k)

    pub pc-Kept : (pc : ℕ) (st : State Q) → Kept st → OnSome Kept (mismatch_pc_set pc st)
    unfolding mismatch_pc_set
    pc-Kept pc st h = any Kept (assert (truthy st.single_step_on_p)) _ (λ u. h)

    pub run-Kept : (st : State Q) → Kept st → OnSome Kept (mismatch_run st)
    unfolding mismatch_run
    run-Kept st h = any Kept st.cur_thread _ (λ th. pc-Kept _ st h)

    faults-Kept :
        (pi : Libpi) (enable : ℕ) (st : State Q) → Kept st → Kept (set_data_faults pi enable st)
    unfolding set_data_faults
    faults-Kept pi enable st h = elim (Bool-cases (truthy enable)) [
      | inl e ↦ rw e h
      | inr e ↦ rw e h
    ]

    pub arm-Kept : (pi : Libpi) (st : State Q) → Kept st → Kept (rw_tracker_arm pi st)
    unfolding rw_tracker_arm
    arm-Kept pi st h = elim (Bool-cases (truthy st.rw_tracker_enabled)) [
      | inl e ↦ rw e (faults-Kept pi 1 st h)
      | inr e ↦ rw e h
    ]

    touch-Kept :
        (s : Option ScheduleT) (touched : SetT) (pc : ℕ) (st : State Q)
        → Kept st
        → OnSome Kept (touch_scheduled s touched pc st)
    unfolding touch_scheduled mark_touch
    touch-Kept none touched pc st h = h
    touch-Kept (some sched) touched pc st h =
        choose Kept (ltb st.ctx_switch_status.ctx_switch sched.n_ctx_switches) _ _
          (any Kept st.shared_memory _ (λ shared.
            any Kept (set_intersection set_alloc shared touched) _ (λ intersection.
              any Kept (set_empty intersection) _ (λ empty.
                any Kept (set_free intersection) _
                  (λ u. elim (Bool-cases (empty == 0)) [ inl e ↦ rw e h | inr e ↦ rw e h ])))))
          h

    installed-Kept :
        (touched : SetT) (pc : ℕ) (st : State Q)
        → Kept st
        → OnSome Kept (touch_installed touched pc st)
    unfolding touch_installed ctx_switch_handler
    installed-Kept touched pc st h =
        choose Kept st.memory_touch_handler _ (some st) (touch-Kept st.schedule touched pc st h) h

    pub abort-Kept :
        (pi : Libpi) (r : Regs) (addr dfsr instruction : ℕ) (st : State Q)
        → Kept st
        → OnSome Kept (rw_tracker_data_abort_handler pi r addr dfsr instruction st)
    unfolding rw_tracker_data_abort_handler rw_tracker_disarm
    abort-Kept pi r addr dfsr instruction st h =
        any Kept (assert (bit_or (shl (pi.bit_isset dfsr 10) 4) (pi.bits_get dfsr 0 3) == 13)) _
          (λ u. any Kept (assert (not (pi.bits_get dfsr 4 7 == user_dom))) _ (λ v.
            any Kept (get_touched_bytes pi.bits_get pi.bit_isset instruction addr set_alloc) _
              (λ touched.
                chain Kept Kept (touch_installed touched (r 15) st) _
                  (installed-Kept touched (r 15) st h)
                  (λ st1 k.
                    any Kept (track (truthy (pi.bit_isset dfsr 11)) touched st1.current_tracker) _
                      (λ tracker. any Kept (set_free touched) _ (λ w. faults-Kept pi 0 _ k))))))
