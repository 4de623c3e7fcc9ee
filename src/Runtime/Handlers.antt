-- ===== src/Runtime/Handlers.antt =====
-- The exception handlers of final_proj/code: equiv-threads.c (touched memory, single step, system
-- call), equiv-rw-set.c (data abort) and mini-step.c (prefetch abort), and `equiv_run`, which lets
-- the machine run until the last thread exits. Trace output is left out; `th->verbose_p`, which the
-- exit reads from NULL after the last thread, only decides on a trace line.
use thread_equivalence_check.Base.{
  ℕ, Option, none, some, Bool, true, false, ◌==◌, ltb, if◌then◌else◌, truthy, add32, not, ◌&&◌,
  bit_or, get_elem?, assert, ◌>>=◌, ◌>>◌,
}
use thread_equivalence_check.Base.Bits.{shl}
use thread_equivalence_check.TrieSet.{
  SetT, set_alloc, set_free, set_empty, set_intersection, set_union_inplace,
}
use thread_equivalence_check.Touched.{get_touched_bytes}
use thread_equivalence_check.Runtime.{
  Regs, EqTh, ScheduleT, CtxSwitchStatus, RwTracker, RunQueue, State, write_thread, Libpi,
}
use thread_equivalence_check.Runtime.Tracker.{user_dom, rw_tracker_arm, rw_tracker_disarm}
use thread_equivalence_check.Runtime.Threads.{
  retrieve_tid_from_queue, check_sp, mismatch_pc_set, mismatch_run,
}

-- `report->pcs[c][i] = pc`, if there is a report.
unfoldable pub record_pc : Option (ℕ → ℕ → ℕ) → ℕ → ℕ → ℕ → Option (ℕ → ℕ → ℕ)
record_pc none c i pc = none
record_pc (some pcs) c i pc = some (λ a b. if a == c && b == i then pc else pcs a b)

-- A union with a set, if there is one.
unfoldable pub union_into : SetT → Option SetT → Option (Option SetT)
union_into touched none = some none
union_into touched (some s) = do s' ← set_union_inplace s touched; some (some s')

abbrev pub is_some : Option SetT → Bool
is_some none = false
is_some (some s) = true

-- The tracker gets what was touched; `w` tells a write.
unfoldable pub track : Bool → SetT → RwTracker → Option RwTracker
track w touched tracker =
    if is_some tracker.write && w
    then (do write' ← union_into touched tracker.write; some (record tracker { write = write' }))
    else if is_some tracker.read && not w
    then (do read' ← union_into touched tracker.read; some (record tracker { read = read' }))
    else some tracker

module _ {Q : Type 0} where
  -- The touched memory has a byte in common with the shared memory.
  unfoldable pub mark_touch : ScheduleT → ℕ → State Q → State Q
  mark_touch sched pc st =
      let status = st.ctx_switch_status in
      let sched' : ScheduleT = record sched {
        report = record_pc sched.report status.ctx_switch status.instr_count pc;
      } in
      let status' : CtxSwitchStatus = record status { do_instr_count = 1 } in
      record st { schedule = some sched'; ctx_switch_status = status' }

  unfoldable pub touch_scheduled : Option ScheduleT → SetT → ℕ → State Q → Option (State Q)
  touch_scheduled none touched pc st = some st
  touch_scheduled (some sched) touched pc st =
      if ltb st.ctx_switch_status.ctx_switch sched.n_ctx_switches
      then (do
        shared ← st.shared_memory
        intersection ← set_intersection set_alloc shared touched
        empty ← set_empty intersection
        set_free intersection
        some (if empty == 0 then mark_touch sched pc st else st))
      else some st

  unfoldable pub ctx_switch_handler : SetT → ℕ → State Q → Option (State Q)
  ctx_switch_handler touched pc st = touch_scheduled st.schedule touched pc st

  unfoldable pub touch_installed : SetT → ℕ → State Q → Option (State Q)
  touch_installed touched pc st =
      if st.memory_touch_handler then ctx_switch_handler touched pc st else some st

  -- The arguments are the registers, the fault address and status, and the word at the PC.
  unfoldable pub rw_tracker_data_abort_handler :
      Libpi → Regs → ℕ → ℕ → ℕ → State Q → Option (State Q)
  rw_tracker_data_abort_handler pi r addr dfsr instruction st =
      let status = bit_or (shl (pi.bit_isset dfsr 10) 4) (pi.bits_get dfsr 0 3) in
      let domain = pi.bits_get dfsr 4 7 in
      let w = truthy (pi.bit_isset dfsr 11) in
      (do
        assert (status == 13)
        assert (not (domain == user_dom))
        touched ← get_touched_bytes pi.bits_get pi.bit_isset instruction addr set_alloc
        st1 ← touch_installed touched (r 15) st
        tracker ← track w touched st1.current_tracker
        set_free touched
        some (rw_tracker_disarm pi (record st1 { current_tracker = tracker })))

-- What a handler does at its end: it returns, switches to the current thread, or switches back to
-- the caller of `equiv_run`.
pub data Ending : Type 0 where
  returns : Ending
  switches : Ending
  finishes : Ending

module _ {Q : Type 0} (rq : RunQueue Q) where
  abbrev pub save_regs : ℕ → Regs → State Q → State Q
  save_regs th r st =
      let t : EqTh = record (st.heap th) { regs = r } in
      record st { heap = write_thread st.heap th t }

  -- The end of a slice: switch to the thread that the schedule names next.
  unfoldable pub switch_scheduled : ScheduleT → ℕ → State Q → Option (State Q)
  switch_scheduled sched cur st =
      let status = st.ctx_switch_status in
      let tid_idx = add32 status.ctx_switch 1 in
      let status' : CtxSwitchStatus = record status { ctx_switch = tid_idx; instr_count = 0 } in
      (do
        tid ← get_elem? sched.tids tid_idx
        (th, q) ← retrieve_tid_from_queue rq st.heap tid st.equiv_runq
        mismatch_run (record st {
          ctx_switch_status = status';
          equiv_runq = rq.eq_append q cur;
          cur_thread = some th;
        }))

  unfoldable pub count_instr : ℕ → State Q → Option (State Q × Ending)
  count_instr cur st =
      let status = st.ctx_switch_status in
      let status' : CtxSwitchStatus = record status {
        do_instr_count = 0;
        instr_count = add32 status.instr_count 1;
      } in
      let st' : State Q = record st { ctx_switch_status = status' } in
      (do
        sched ← st.schedule
        limit ← get_elem? sched.instr_counts status.ctx_switch
        if ltb status'.instr_count limit
            then some (st', returns)
            else (do st'' ← switch_scheduled sched cur st'; some (st'', switches)))

  unfoldable pub after_touch : ℕ → State Q → Option (State Q × Ending)
  after_touch cur st =
      if truthy st.ctx_switch_status.do_instr_count then count_instr cur st else some (st, returns)

  unfoldable pub equiv_hash_handler : Libpi → Regs → State Q → Option (State Q × Ending)
  equiv_hash_handler pi r st = do
    cur ← st.cur_thread
    after_touch cur (save_regs cur r (rw_tracker_arm pi st))

  -- The prefetch abort: the step handler is `equiv_hash_handler`. When it returns, the breakpoint is
  -- set on the PC and the thread goes on.
  unfoldable pub after_step : ℕ → State Q × Ending → Option (State Q × Ending)
  after_step pc (st, returns) = do st' ← mismatch_pc_set pc st; some (st', switches)
  after_step pc (st, e) = some (st, e)

  -- At `ss_on_exit` the code switches to the registers that `mini_step_run` saves. The checker runs
  -- its threads by `equiv_run`, which does not save them: the switch is taken for a fault.
  unfoldable pub mismatch_fault : Libpi → ℕ → Regs → State Q → Option (State Q × Ending)
  mismatch_fault pi ss_on_exit r st =
      if r 15 == ss_on_exit then none else equiv_hash_handler pi r st >>= after_step (r 15)

  abbrev run_current : State Q → Option (State Q × Ending)
  run_current st = do st' ← mismatch_run st; some (st', switches)

  -- With context switches left, the function panics.
  unfoldable pub schedule_left : Option ScheduleT → State Q → Bool
  schedule_left none st = false
  schedule_left (some sched) st = ltb st.ctx_switch_status.ctx_switch sched.n_ctx_switches

  unfoldable pub take_turn : ℕ → Option (ℕ × Q) → State Q → State Q
  take_turn cur none st = st
  take_turn cur (some (th, q)) st = record st {
    equiv_runq = rq.eq_append q cur;
    cur_thread = some th;
  }

  unfoldable pub equiv_schedule : State Q → Option (State Q × Ending)
  equiv_schedule st = do
    cur ← st.cur_thread
    assert (not (schedule_left st.schedule st))
    run_current (take_turn cur (rq.eq_pop st.equiv_runq) st)

  unfoldable pub sys_yield : ℕ → State Q → Option (State Q × Ending)
  sys_yield cur st =
      let status' : CtxSwitchStatus = record (st.ctx_switch_status) { yielded = 1 } in
      (do
        (th, q) ← rq.eq_pop (rq.eq_append st.equiv_runq cur)
        run_current (record st {
          schedule = none;
          ctx_switch_status = status';
          equiv_runq = q;
          cur_thread = some th;
        }))

  unfoldable pub exit_to : Option (ℕ × Q) → State Q → Option (State Q × Ending)
  exit_to none st = some (st, finishes)
  exit_to (some (th, q)) st = run_current (record st { equiv_runq = q; cur_thread = some th })

  unfoldable pub sys_exit : State Q → Option (State Q × Ending)
  sys_exit st = exit_to (rq.eq_pop st.equiv_runq) (record st { schedule = none })

  -- `EQUIV_EXIT` is 0, `EQUIV_PUTC` 1 and `EQUIV_YIELD` 3.
  unfoldable pub equiv_syscall_handler : Regs → State Q → Option (State Q × Ending)
  equiv_syscall_handler r st = do
    cur ← st.cur_thread
    let saved = save_regs cur r st in
        (do
          check_sp rq (saved.heap cur)
          if r 0 == 1
              then equiv_schedule saved
              else if r 0 == 3
              then sys_yield cur saved
              else if r 0 == 0
              then sys_exit saved
              else none)

-- The exceptions of the machine, with what they report.
pub data Event : Type 0 where
  data_abort : Regs → ℕ → ℕ → ℕ → Event
  prefetch_abort : Regs → Event
  syscall : Regs → Event

module _ {Q : Type 0} (rq : RunQueue Q) (pi : Libpi) (ss_on_exit : ℕ) where
  unfoldable pub handle : Event → State Q → Option (State Q × Ending)
  handle (data_abort r addr dfsr instruction) st = do
    st' ← rw_tracker_data_abort_handler pi r addr dfsr instruction st
    some (st', returns)
  handle (prefetch_abort r) st = mismatch_fault rq pi ss_on_exit r st
  handle (syscall r) st = equiv_syscall_handler rq r st
