-- ===== src/Interleaver/Runs.antt =====
-- interleaver.c, `run_interleavings`: a run under a schedule stays within it.
use thread_equivalence_check.Base.{ℕ, ◌<◌, ◌^◌, refl, true, OnSome, arith}
use thread_equivalence_check.TrieSet.{SetT}
use thread_equivalence_check.Runtime.{ScheduleT, RunQueue, State, Libpi}
use thread_equivalence_check.Runtime.Tracker.{
  zero_status, reset_ctx_switch, enable_ctx_switch, set_memory_touch_handler, rw_tracker_enable,
}
use thread_equivalence_check.Runtime.Threads.{Cpu, reset_threads}
use thread_equivalence_check.Runtime.Handlers.{Event}
use thread_equivalence_check.Runtime.Run.{equiv_run}
use thread_equivalence_check.Runtime.Bounded.{InSchedule, Bounded}
use thread_equivalence_check.Runtime.Reached.{chain, any, equiv_run-Bounded}
use thread_equivalence_check.Interleaver.{run_schedule}

module _ {W Q : Type 0} (init : W → W) (rq : RunQueue Q) (pi : Libpi) (cpu : Cpu) (ss_on_exit : ℕ)
    (machine : W → State Q → Event × W) (run_fuel : ℕ) where
  enabled-Bounded :
      (schedule : ScheduleT) (shared : SetT) (st : State Q)
      → Bounded schedule.n_ctx_switches (
          rw_tracker_enable pi
            (enable_ctx_switch schedule shared (set_memory_touch_handler true st)))
  unfolding rw_tracker_enable enable_ctx_switch set_memory_touch_handler reset_ctx_switch
      zero_status
  enabled-Bounded schedule shared st = ((omega arith, λ on. absurd (ground (arith, on))), refl)

  -- The status with which a run under a schedule ends counts at most the context switches of the
  -- schedule, whatever the machine does and whatever state the threads were left in.
  pub run_schedule-InSchedule :
      (schedule : ScheduleT) (threads : ℕ → ℕ) (shared : SetT) (w : W) (st : State Q)
      → schedule.n_ctx_switches < 2 ^ 32
      → OnSome
          (λ out. InSchedule schedule.n_ctx_switches out.1)
          (run_schedule init rq pi cpu ss_on_exit machine run_fuel schedule threads shared (w, st))
  unfolding run_schedule
  run_schedule-InSchedule schedule threads shared w st word =
      any (λ out. InSchedule schedule.n_ctx_switches out.1)
        (reset_threads rq cpu threads schedule.n_funcs st) _
        (λ st1.
          chain (λ (out : State Q × W). Bounded schedule.n_ctx_switches out.0)
            (λ out. InSchedule schedule.n_ctx_switches out.1)
            (equiv_run rq pi ss_on_exit machine run_fuel (init w) (
              rw_tracker_enable pi
                (enable_ctx_switch schedule shared (set_memory_touch_handler true st1))))
            _
            (equiv_run-Bounded schedule.n_ctx_switches word rq pi ss_on_exit machine run_fuel
              (init w) _ (enabled-Bounded schedule shared st1))
            (λ a b. b.0))
