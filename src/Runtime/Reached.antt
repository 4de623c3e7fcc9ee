-- ===== src/Runtime/Reached.antt =====
-- equiv-threads.c, `equiv_run`: what every exception of a run keeps holds at its end.
use thread_equivalence_check.Base.{
  ℕ, zero, suc, ◌<◌, ◌^◌, Option, none, some, Bool, true, false, not, truthy, assert, OnSome,
  if◌then◌else◌, ◌>>=◌,
}
use thread_equivalence_check.Runtime.{RunQueue, State, Libpi}
use thread_equivalence_check.Runtime.Threads.{mismatch_pc_set, mismatch_on, mismatch_off}
use thread_equivalence_check.Runtime.Handlers.{Event, handle}
use thread_equivalence_check.Runtime.Run.{first_thread, is_finished, run_events, equiv_run}
use thread_equivalence_check.Runtime.Bounded.{Bounded}
use thread_equivalence_check.Runtime.Handled.{handle-Bounded}

pub chain :
    {A C : Type 0} (P : A → Type 0) (R : C → Type 0) (o : Option A) (f : A → Option C)
    → OnSome P o
    → ((a : A) → P a → OnSome R (f a))
    → OnSome R (o >>= f)
chain P R none f h g = tt
chain P R (some a) f h g = g a h

pub any :
    {A C : Type 0} (R : C → Type 0) (o : Option A) (f : A → Option C)
    → ((a : A) → OnSome R (f a))
    → OnSome R (o >>= f)
any R none f g = tt
any R (some a) f g = g a

pub stop_or :
    {C : Type 0} (R : C → Type 0) (b : Bool) (x : C) (o : Option C)
    → R x
    → OnSome R o
    → OnSome R (if b then some x else o)
stop_or R true x o h g = h
stop_or R false x o h g = g

module _ {Q : Type 0} (n : ℕ) where
  pc-Bounded : (pc : ℕ) (st : State Q) → Bounded n st → OnSome (Bounded n) (mismatch_pc_set pc st)
  unfolding mismatch_pc_set
  pc-Bounded pc st b =
      any (Bounded n) (assert (truthy st.single_step_on_p))
        (λ u. some (record st { breakpoint = pc })) (λ u. b)

  on-Bounded : (st : State Q) → Bounded n st → OnSome (Bounded n) (mismatch_on st)
  unfolding mismatch_on
  on-Bounded st b =
      any (Bounded n) (assert (not (truthy st.single_step_on_p)))
        (λ u. mismatch_pc_set 0 (record st { single_step_on_p = 1 })) (λ u. pc-Bounded 0 _ b)

  off-Bounded : (st : State Q) → Bounded n st → OnSome (Bounded n) (mismatch_off st)
  unfolding mismatch_off
  off-Bounded st b =
      any (Bounded n) (assert (truthy st.single_step_on_p))
        (λ u. some (record st { single_step_on_p = 0 })) (λ u. b)

module _ {Q W : Type 0} (n : ℕ) (word : n < 2 ^ 32) (rq : RunQueue Q) (pi : Libpi) (stop : ℕ)
    (machine : W → State Q → Event × W) where
  abbrev InBounds : State Q × W → Type 0
  InBounds out = Bounded n out.0

  run_events-Bounded :
      (fuel : ℕ) (w : W) (st : State Q)
      → Bounded n st
      → OnSome InBounds (run_events rq pi stop machine fuel w st)
  unfolding run_events
  run_events-Bounded zero w st b = tt
  run_events-Bounded (suc fuel) w st b =
      chain (λ out. Bounded n out.0) InBounds (handle rq pi stop (machine w st).0 st) _
        (handle-Bounded n word rq pi stop (machine w st).0 st b)
        (λ a b'.
          stop_or InBounds (is_finished a.1) (a.0, (machine w st).1) _ b'
            (run_events-Bounded fuel (machine w st).1 a.0 b'))

  -- A run of any machine under a schedule, from a state within the schedule's bounds, ends within
  -- them: it makes no more context switches than the schedule has.
  pub equiv_run-Bounded :
      (fuel : ℕ) (w : W) (st : State Q)
      → Bounded n st
      → OnSome (λ out. Bounded n out.0) (equiv_run rq pi stop machine fuel w st)
  unfolding equiv_run
  equiv_run-Bounded fuel w st b =
      any InBounds (first_thread rq st.schedule st.heap st.equiv_runq) _ (λ next.
        chain (Bounded n) InBounds
          (mismatch_on (record st { cur_thread = some next.0; equiv_runq = next.1 })) _
          (on-Bounded n _ b)
          (λ st1 b1.
            chain (Bounded n) InBounds (mismatch_pc_set 0 st1) _ (pc-Bounded n 0 st1 b1) (λ st2 b2.
              chain InBounds InBounds (run_events rq pi stop machine fuel w st2) _
                (run_events-Bounded fuel w st2 b2)
                (λ a b3.
                  chain (Bounded n) InBounds (mismatch_off a.0) _ (off-Bounded n a.0 b3)
                    (λ st4 b4. b4)))))
