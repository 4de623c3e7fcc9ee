-- ===== src/Runtime/Bounded.antt =====
-- The bounds of a schedule on the state, and how they pass through chains of calls that may fault.
use thread_equivalence_check.Base.{
  ℕ, ◌≤◌, ◌<◌, ◌^◌, ◌≡◌, Option, none, some, Bool, true, false, ◌==◌, ltb, ltb→lt, truthy,
  if◌then◌else◌, OnSome, Option-cases, ◌>>=◌, inl, inr, Bool-cases, arith,
}
use thread_equivalence_check.TrieSet.{SetT, set_alloc, set_free, set_empty, set_intersection}
use thread_equivalence_check.Runtime.{ScheduleT, CtxSwitchStatus, State, Libpi}
use thread_equivalence_check.Runtime.Tracker.{rw_tracker_arm, set_data_faults}
use thread_equivalence_check.Runtime.Threads.{mismatch_pc_set, mismatch_run}
use thread_equivalence_check.Runtime.Handlers.{Ending, mark_touch, touch_scheduled}

-- The schedule, while there is one, has `n` context switches.
abbrev pub HasSwitches : ℕ → Option ScheduleT → Type 0
HasSwitches n none = Unit
HasSwitches n (some sched) = sched.n_ctx_switches ≡ n

-- At most `n` context switches have been made, and a touch is only marked while one is left.
abbrev pub InSchedule : ℕ → CtxSwitchStatus → Type 0
InSchedule n status =
    (status.ctx_switch ≤ n) × (truthy status.do_instr_count ≡ true → status.ctx_switch < n)

abbrev pub Bounded : {Q : Type 0} → ℕ → State Q → Type 0
Bounded n st = InSchedule n st.ctx_switch_status × HasSwitches n st.schedule

module _ {Q : Type 0} (n : ℕ) (word : n < 2 ^ 32) where
  pub mark-Bounded :
      (sched : ScheduleT) (pc : ℕ) (st : State Q)
      → sched.n_ctx_switches ≡ n
      → st.ctx_switch_status.ctx_switch < n
      → Bounded n (mark_touch sched pc st)
  unfolding mark_touch
  mark-Bounded sched pc st e lt = ((omega arith, λ on. lt), e)

  pub marked :
      (empty : ℕ) (sched : ScheduleT) (pc : ℕ) (st : State Q)
      → sched.n_ctx_switches ≡ n
      → st.ctx_switch_status.ctx_switch < n
      → Bounded n st
      → Bounded n (if empty == 0 then mark_touch sched pc st else st)
  marked empty sched pc st e lt b = elim (Bool-cases (empty == 0)) [
    | inl z ↦ rw z (mark-Bounded sched pc st e lt)
    | inr z ↦ rw z b
  ]

  pub touch-Bounded :
      (s : Option ScheduleT) (touched : SetT) (pc : ℕ) (st : State Q)
      → HasSwitches n s
      → Bounded n st
      → OnSome (Bounded n) (touch_scheduled s touched pc st)
  unfolding touch_scheduled
  touch-Bounded none touched pc st e b = b
  touch-Bounded (some sched) touched pc st e b =
      elim (Bool-cases (ltb st.ctx_switch_status.ctx_switch sched.n_ctx_switches)) [
        | inr none_left ↦ rw none_left b
        | inl left ↦
            let lt : st.ctx_switch_status.ctx_switch < n = omega (arith, e, ltb→lt _ _ left) in
            elim (Option-cases st.shared_memory) [
              | inl h ↦ rw (left, h) tt
              | inr (shared, h) ↦ elim (Option-cases (set_intersection set_alloc shared touched)) [
                | inl h1 ↦ rw (left, h, h1) tt
                | inr (i, h1) ↦ elim (Option-cases (set_empty i)) [
                  | inl h2 ↦ rw (left, h, h1, h2) tt
                  | inr (empty, h2) ↦ elim (Option-cases (set_free i)) [
                    | inl h3 ↦ rw (left, h, h1, h2, h3) tt
                    | inr (u, h3) ↦ rw (left, h, h1, h2, h3) (marked empty sched pc _ e lt b)
                  ]
                ]
              ]
            ]
      ]

  abbrev pub Kept : State Q × Ending → Type 0
  Kept out = Bounded n out.0

  pub ended :
      (o : Option (State Q)) (e : Ending)
      → OnSome (Bounded n) o
      → OnSome Kept (o >>= λ s. some (s, e))
  ended none e h = tt
  ended (some s) e h = h

  pub each :
      {A : Type 0} (o : Option A) (f : A → Option (State Q × Ending))
      → ((a : A) → OnSome Kept (f a))
      → OnSome Kept (o >>= f)
  each none f h = tt
  each (some a) f h = h a

  pub each_state :
      {A : Type 0} (o : Option A) (f : A → Option (State Q))
      → ((a : A) → OnSome (Bounded n) (f a))
      → OnSome (Bounded n) (o >>= f)
  each_state none f h = tt
  each_state (some a) f h = h a

  pub after_state :
      (o : Option (State Q)) (f : State Q → Option (State Q))
      → OnSome (Bounded n) o
      → ((s : State Q) → Bounded n s → OnSome (Bounded n) (f s))
      → OnSome (Bounded n) (o >>= f)
  after_state none f b h = tt
  after_state (some s) f b h = h s b

  pub either :
      (c : Bool) (x y : Option (State Q × Ending))
      → OnSome Kept x
      → OnSome Kept y
      → OnSome Kept (if c then x else y)
  either true x y h g = h
  either false x y h g = g

  pub run-Bounded : (st : State Q) → Bounded n st → OnSome (Bounded n) (mismatch_run st)
  unfolding mismatch_run mismatch_pc_set
  run-Bounded st b = elim (Option-cases st.cur_thread) [
    | inl h ↦ rw h tt
    | inr (th, h) ↦ elim (Bool-cases (truthy st.single_step_on_p)) [
      | inl on ↦ rw (h, on) b
      | inr off ↦ rw (h, off) tt
    ]
  ]

  pub arm-Bounded : (pi : Libpi) (st : State Q) → Bounded n st → Bounded n (rw_tracker_arm pi st)
  unfolding rw_tracker_arm set_data_faults
  arm-Bounded pi st b = elim (Bool-cases (truthy st.rw_tracker_enabled)) [
    | inl e ↦ rw e b
    | inr e ↦ rw e b
  ]
