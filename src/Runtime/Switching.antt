-- ===== src/Runtime/Switching.antt =====
-- equiv-threads.c, `equiv_hash_handler`: when it switches threads, and to which.
use thread_equivalence_check.Base.{
  ℕ, ◌+◌, ◌≤◌, ◌<◌, ◌^◌, ◌≡◌, refl, sym, ap, ◌∙◌, some, List, [], ◌∷◌, ◌++◌, All-append, All-left,
  All-right, true, false, ◌==◌, ltb, truthy, add32, get_elem?, inl, inr, Bool-cases, arith,
}
use thread_equivalence_check.Runtime.{
  Regs, EqTh, ScheduleT, CtxSwitchStatus, RunQueue, State, write_thread, Libpi,
}
use thread_equivalence_check.Runtime.Tracker.{rw_tracker_arm, set_data_faults}
use thread_equivalence_check.Runtime.Threads.{mismatch_pc_set, mismatch_run}
use thread_equivalence_check.Runtime.Handlers.{
  returns, switches, switch_scheduled, count_instr, after_touch, equiv_hash_handler,
}
use thread_equivalence_check.Runtime.Rotation.{
  tid_of, Apart, Apart-pointers, Distinct, retrieve_tid-rotates,
}

module _ (h h' : ℕ → EqTh) (same : (x : ℕ) → tid_of h x ≡ tid_of h' x) where
  Apart-same : (th : ℕ) (xs : List ℕ) → Apart h th xs → Apart h' th xs
  Apart-same th [] a = tt
  Apart-same th (x ∷ xs) (ne, a) = ((λ e. ne (same th ∙ e ∙ sym (same x))), Apart-same th xs a)

  Distinct-same : (xs : List ℕ) → Distinct h xs → Distinct h' xs
  Distinct-same [] d = tt
  Distinct-same (x ∷ xs) (a, d) = (Apart-same x xs a, Distinct-same xs d)

around :
    (heap : ℕ → EqTh) (th : ℕ) (pre : List ℕ) (p : ℕ) (post : List ℕ)
    → Apart heap th (pre ++ p ∷ post)
    → Apart heap th (post ++ pre)
around heap th pre p post a =
    All-append _ post pre (All-right _ pre (p ∷ post) a).1 (All-left _ pre (p ∷ post) a)

-- The heap with new registers of one thread.
abbrev pub with_regs : (ℕ → EqTh) → ℕ → Regs → ℕ → EqTh
with_regs heap th r = write_thread heap th (record (heap th) { regs = r })

with_regs-tid :
    (heap : ℕ → EqTh) (th : ℕ) (r : Regs) (x : ℕ) → tid_of heap x ≡ tid_of (with_regs heap th r) x
with_regs-tid heap th r x = elim (Bool-cases (x == th)) [
  | inl e ↦ let e' : x ≡ th = ground arith in rw (e, tid_of) (ap (tid_of heap) e')
  | inr ne ↦ rw (ne, tid_of) refl
]

module _ {Q : Type 0} (rq : RunQueue Q) (pi : Libpi) where
  arm-cases : (st : State Q) → (a : ℕ) × (rw_tracker_arm pi st ≡ record st { domain_acl = a })
  unfolding rw_tracker_arm set_data_faults
  arm-cases st = elim (Bool-cases (truthy st.rw_tracker_enabled)) [
    | inl e ↦ (pi.bits_set st.domain_acl 2 3 1, rw e refl)
    | inr e ↦ (st.domain_acl, rw e refl)
  ]

  -- The thread that runs next, the queue, and what else the handler writes.
  pub record SwitchedTo (old new : State Q) (sched : ScheduleT) (cur p : ℕ) (r : Regs)
      (order : List ℕ) : Type 0 where
    pub running : new.cur_thread ≡ some p
    pub queued : rq.items new.equiv_runq ≡ order
    pub saved : new.heap ≡ with_regs old.heap cur r
    pub status : new.ctx_switch_status ≡ record old.ctx_switch_status {
      ctx_switch = old.ctx_switch_status.ctx_switch + 1;
      instr_count = 0;
      do_instr_count = 0;
    }
    pub aimed : new.breakpoint ≡ (with_regs old.heap cur r p).regs 15
    pub kept : new.schedule ≡ some sched

  -- When the thread has touched shared memory for the last time that its slice allows, the step
  -- handler saves its registers, puts it at the end of the queue, counts a context switch, and
  -- switches to the thread that the schedule names next, whichever place it has in the queue.
  pub hash_handler-SwitchedTo :
      (st : State Q) (r : Regs) (sched : ScheduleT) (cur p limit : ℕ) (pre post : List ℕ)
      → st.cur_thread ≡ some cur
      → st.schedule ≡ some sched
      → truthy st.ctx_switch_status.do_instr_count ≡ true
      → get_elem? sched.instr_counts st.ctx_switch_status.ctx_switch ≡ some limit
      → st.ctx_switch_status.instr_count + 1 < 2 ^ 32
      → limit ≤ st.ctx_switch_status.instr_count + 1
      → st.ctx_switch_status.ctx_switch + 1 < 2 ^ 32
      → get_elem? sched.tids (st.ctx_switch_status.ctx_switch + 1) ≡ some (tid_of st.heap p)
      → rq.items st.equiv_runq ≡ pre ++ p ∷ post
      → Distinct st.heap (cur ∷ pre ++ p ∷ post)
      → truthy st.single_step_on_p ≡ true
      → (st' : State Q) × (equiv_hash_handler rq pi r st ≡ some (st', switches))
        × SwitchedTo st st' sched cur p r (post ++ pre ++ cur ∷ [])
  unfolding equiv_hash_handler after_touch count_instr switch_scheduled mismatch_run mismatch_pc_set
  hash_handler-SwitchedTo st r sched cur p limit pre post c s on l small enough small' next items
        (apart, d) step =
      let (a, armed) = arm-cases st in
      let heap' = with_regs st.heap cur r in
      let same = with_regs-tid st.heap cur r in
      let (q', ran, items') =
        retrieve_tid-rotates heap' rq pre p post st.equiv_runq items
          (Distinct-same st.heap heap' same _ d) in
      let full : ltb (add32 st.ctx_switch_status.instr_count 1) limit ≡ false = ground arith in
      let idx : add32 st.ctx_switch_status.ctx_switch 1 ≡ st.ctx_switch_status.ctx_switch + 1 =
        omega arith in
      let find : get_elem? sched.tids (st.ctx_switch_status.ctx_switch + 1)
          ≡ some (tid_of heap' p) =
        next ∙ ap some (same p) in
      let status' : CtxSwitchStatus = record (st.ctx_switch_status) {
        ctx_switch = st.ctx_switch_status.ctx_switch + 1;
        instr_count = 0;
        do_instr_count = 0;
      } in
      let new : State Q = record st {
        heap = heap';
        equiv_runq = rq.eq_append q' cur;
        cur_thread = some p;
        ctx_switch_status = status';
        domain_acl = a;
        breakpoint = (heap' p).regs 15;
      } in
      (
        new,
        rw (armed, c, on, s, l, full, idx, find, ran, step) refl,
        record {
          running = refl;
          queued =
              rq.append_items q' cur (
                rw items'
                  (Apart-pointers st.heap cur (post ++ pre) (around st.heap cur pre p post apart)))
              ∙ rw items' refl;
          saved = refl;
          status = refl;
          aimed = refl;
          kept = s;
        },
      )

  -- The thread goes on and one more touch is counted.
  record CountedTouch (old new : State Q) (cur : ℕ) (r : Regs) : Type 0 where
    pub running : new.cur_thread ≡ some cur
    pub queued : new.equiv_runq ≡ old.equiv_runq
    pub saved : new.heap ≡ with_regs old.heap cur r
    pub status : new.ctx_switch_status ≡ record old.ctx_switch_status {
      instr_count = old.ctx_switch_status.instr_count + 1;
      do_instr_count = 0;
    }
    pub kept : new.schedule ≡ old.schedule

  -- When the thread has touched shared memory and its slice allows more touches, the step handler
  -- saves its registers, counts the touch and returns without a switch.
  hash_handler-CountedTouch :
      (st : State Q) (r : Regs) (sched : ScheduleT) (cur limit : ℕ)
      → st.cur_thread ≡ some cur
      → st.schedule ≡ some sched
      → truthy st.ctx_switch_status.do_instr_count ≡ true
      → get_elem? sched.instr_counts st.ctx_switch_status.ctx_switch ≡ some limit
      → limit < 2 ^ 32
      → st.ctx_switch_status.instr_count + 1 < limit
      → (st' : State Q) × (equiv_hash_handler rq pi r st ≡ some (st', returns))
        × CountedTouch st st' cur r
  unfolding equiv_hash_handler after_touch count_instr
  hash_handler-CountedTouch st r sched cur limit c s on l word room =
      let (a, armed) = arm-cases st in
      let one : add32 st.ctx_switch_status.instr_count 1 ≡ st.ctx_switch_status.instr_count + 1 =
        omega arith in
      let low : ltb (st.ctx_switch_status.instr_count + 1) limit ≡ true = ground arith in
      let status' : CtxSwitchStatus = record (st.ctx_switch_status) {
        instr_count = st.ctx_switch_status.instr_count + 1;
        do_instr_count = 0;
      } in
      let new : State Q = record st {
        heap = with_regs st.heap cur r;
        ctx_switch_status = status';
        domain_acl = a;
      } in
      (
        new,
        rw (armed, c, on, s, l, one, low) refl,
        record { running = c; queued = refl; saved = refl; status = refl; kept = refl },
      )
