-- ===== src/Runtime/Ended.antt =====
-- equiv-rw-set.c, `find_rw_set`: the run of a function that comes to its end.
use thread_equivalence_check.Base.{
  ℕ, zero, suc, ◌≤◌, ◌≡◌, refl, sym, subst, ap, ◌∙◌, Option, some, List, [], ◌∷◌, Bool, true, false,
  ◌||◌, length, truthy, >>=-eq-some, >>=-some, some-inj, inl, inr, ◌⊎◌, arith,
}
use thread_equivalence_check.TrieSet.{SetT}
use thread_equivalence_check.TrieSet.Spec.{Denotes}
use thread_equivalence_check.Touched.Arm.{ReadsBits}
use thread_equivalence_check.Runtime.{RwTracker, RunQueue, State, Libpi}
use thread_equivalence_check.Runtime.Tracker.{
  rw_tracker_mk, disable_ctx_switch, set_tracker, rw_tracker_enable, rw_tracker_disable,
  rw_tracker_disarm, set_data_faults,
}
use thread_equivalence_check.Runtime.Threads.{
  Cpu, reset_ntids, equiv_fork, mismatch_on, mismatch_off, mismatch_pc_set,
}
use thread_equivalence_check.Runtime.Handlers.{Event, Ending, handle}
use thread_equivalence_check.Runtime.Run.{first_thread, is_finished, run_events, equiv_run}
use thread_equivalence_check.Runtime.Traced.{run_alone, find_rw_set}
use thread_equivalence_check.Runtime.Untracked.{pc-Has, on-Has, fork-Has}
use thread_equivalence_check.Runtime.Recorded.{IsAccess, Sets, all_accesses, found}
use thread_equivalence_check.Runtime.Alone.{Handled, Handled-Sets, launched}

module _ {W Q : Type 0} (rq : RunQueue Q) (pi : Libpi) (stop : ℕ)
    (machine : W → State Q → Event × W) where
  -- The machine reports these exceptions, each is handled, and the last one ends the run.
  abbrev pub Stops : W × State Q → List Event → W × State Q → Type 0
  Stops s [] t = ⊥
  Stops s (e ∷ es) t =
      (st : State Q) × (ending : Ending) × ((machine s.0 s.1).0 ≡ e)
      × (handle rq pi stop e s.1 ≡ some (st, ending))
      × (((is_finished ending ≡ true) × (es ≡ []) × (((machine s.0 s.1).1, st) ≡ t))
          ⊎ ((is_finished ending ≡ false) × Stops ((machine s.0 s.1).1, st) es t))

  Stops-Handled :
      (es : List Event) (s t : W × State Q) → Stops s es t → Handled rq pi stop machine s es t
  Stops-Handled [] s t h = absurd h
  Stops-Handled (e ∷ es) s t (st, ending, got, ran, inl (over, no_more, same)) =
      (st, ending, got, ran, rw no_more same)
  Stops-Handled (e ∷ es) s t (st, ending, got, ran, inr (more, rest)) =
      (st, ending, got, ran, Stops-Handled es ((machine s.0 s.1).1, st) t rest)

  run_events-Stops :
      (fuel : ℕ) (es : List Event) (s t : W × State Q)
      → length es ≤ fuel
      → Stops s es t
      → run_events rq pi stop machine fuel s.0 s.1 ≡ some (t.1, t.0)
  unfolding run_events
  run_events-Stops fuel [] s t enough h = absurd h
  run_events-Stops zero (e ∷ es) s t enough h = absurd (omega arith)
  run_events-Stops (suc fuel) (e ∷ es) s t enough
        (st, ending, got, ran, inl (over, no_more, same)) =
      let handled : handle rq pi stop (machine s.0 s.1).0 s.1 ≡ some (st, ending) = rw got ran in
      >>=-some (handle rq pi stop (machine s.0 s.1).0 s.1) _ (st, ending) (t.1, t.0) handled
        (rw over (ap (λ (u : W × State Q). some (u.1, u.0)) same))
  run_events-Stops (suc fuel) (e ∷ es) s t enough (st, ending, got, ran, inr (more, rest)) =
      let handled : handle rq pi stop (machine s.0 s.1).0 s.1 ≡ some (st, ending) = rw got ran in
      >>=-some (handle rq pi stop (machine s.0 s.1).0 s.1) _ (st, ending) (t.1, t.0) handled
        (rw more (run_events-Stops fuel es ((machine s.0 s.1).1, st) t (omega arith) rest))

-- The state in which `find_rw_set` launches the function.
abbrev pub begin : {W Q : Type 0} → SetT → SetT → W × State Q → W × State Q
begin read write s = (s.0, set_tracker (rw_tracker_mk read write) (disable_ctx_switch s.1))

module _ {W Q : Type 0} (rq : RunQueue Q) (pi : Libpi) (cpu : Cpu) (stop : ℕ)
    (machine : W → State Q → Event × W) (run_fuel verbose_p : ℕ) (new_thread : W → ℕ × W)
    (reads : ReadsBits pi.bits_get pi.bit_isset)
    (words : (w : W) (st : State Q) → IsAccess (machine w st).0) where
  abbrev L : ℕ → W × State Q → Option (W × State Q)
  L = launched rq pi cpu stop machine run_fuel verbose_p new_thread

  -- The parts of a launch: it keeps the tracker, and a run of the events ends a run of the function.
  launched-ran :
      (exe : ℕ) (es : List Event) (s start end : W × State Q)
      → length es ≤ run_fuel
      → L exe s ≡ some start
      → Stops rq pi stop machine start es end
      → truthy end.1.single_step_on_p ≡ true
      → rq.eq_empty end.1.equiv_runq ≡ true
      → (t : W × State Q) × (run_alone rq pi cpu stop machine run_fuel verbose_p new_thread exe s
          ≡ some t)
        × (t.1.current_tracker ≡ end.1.current_tracker)
        × (start.1.current_tracker ≡ s.1.current_tracker)
  unfolding launched run_alone equiv_run rw_tracker_enable rw_tracker_disable rw_tracker_disarm
      set_data_faults mismatch_off reset_ntids
  launched-ran exe es s start end enough h stops on empty =
      let w : W = (new_thread s.0).1 in
      let (st1, forked, h1) =
        >>=-eq-some
          (equiv_fork rq cpu verbose_p (new_thread s.0).0 exe 0 (rw_tracker_enable pi s.1)) _ _ h in
      let (first, popped, h2) =
        >>=-eq-some (first_thread rq st1.schedule st1.heap st1.equiv_runq) _ _ h1 in
      let (turned, turn, h3) =
        >>=-eq-some (mismatch_on (record st1 { cur_thread = some first.0; equiv_runq = first.1 })) _
          _ h2 in
      let (set, pc, h4) = >>=-eq-some (mismatch_pc_set 0 turned) _ _ h3 in
      let same : (w, set) ≡ start = some-inj h4 in
      let ran : run_events rq pi stop machine run_fuel w set ≡ some (end.1, end.0) =
        subst
          (λ (u : W × State Q).
            run_events rq pi stop machine run_fuel u.0 u.1 ≡ some (end.1, end.0))
          (sym same) (run_events-Stops rq pi stop machine run_fuel es start end enough stops) in
      let off : State Q = record (end.1) { single_step_on_p = 0 } in
      let cleaned : State Q = record (rw_tracker_disable pi off) { ntids = 1 } in
      let offed : mismatch_off end.1 ≡ some off = rw on refl in
      let clean : reset_ntids rq (rw_tracker_disable pi off) ≡ some cleaned = rw empty refl in
      let t : W × State Q = (end.0, cleaned) in
      let o : State Q × W = (off, end.0) in
      let e : State Q × W = (end.1, end.0) in
      let whole : equiv_run rq pi stop machine run_fuel w st1 ≡ some o =
        >>=-some _ _ first o popped (
          >>=-some _ _ turned o turn
            (>>=-some _ _ set o pc (>>=-some _ _ e o ran (>>=-some _ _ off o offed refl)))) in
      let kept_fork =
        found _ _ st1 (fork-Has s.1.current_tracker rq pi cpu verbose_p _ exe 0 _ refl) forked in
      let kept_on = found _ _ turned (on-Has st1.current_tracker _ refl) turn in
      let kept_set = found _ _ set (pc-Has turned.current_tracker 0 _ refl) pc in
      (
        t,
        >>=-some _ _ st1 t forked (>>=-some _ _ o t whole (>>=-some _ _ cleaned t clean refl)),
        refl,
        ap (λ (u : W × State Q). u.1.current_tracker) (sym same) ∙ kept_set ∙ kept_on ∙ kept_fork,
      )

  -- If the function is launched and the exceptions that follow end its run, at most as many as the
  -- fuel, with single stepping on and no thread left in the queue, `find_rw_set` returns, and the two
  -- sets hold what they held before and the bytes that the accesses of the run read and wrote, and
  -- nothing else, each access with the width that the architecture's manual gives its instruction.
  -- The condition is that every data abort is of a load or store of the manual that
  -- `get_touched_bytes` does not take for a swap, or the other way round.
  pub find_rw_set-Ends :
      (exe : ℕ) (read write : SetT) (f g : ℕ → Bool) (es : List Event) (s start end : W × State Q)
      → Denotes read f
      → Denotes write g
      → length es ≤ run_fuel
      → launched rq pi cpu stop machine run_fuel verbose_p new_thread exe (begin read write s)
        ≡ some start
      → Stops rq pi stop machine start es end
      → truthy end.1.single_step_on_p ≡ true
      → rq.eq_empty end.1.equiv_runq ≡ true
      → (read' : SetT) × (write' : SetT) × (t : W × State Q) × (find_rw_set rq pi cpu stop machine
            run_fuel verbose_p new_thread exe read write s
          ≡ some ((read', write'), t))
        × Denotes read' (λ v. f v || all_accesses pi false es v)
        × Denotes write' (λ v. g v || all_accesses pi true es v)
  unfolding find_rw_set set_tracker rw_tracker_mk
  find_rw_set-Ends exe read write f g es s start end df dg enough begun stops on empty =
      let (t, ran, at_end, at_start) =
        launched-ran exe es (begin read write s) start end enough begun stops on empty in
      let sets : Sets f g start.1.current_tracker =
        rw at_start ((read, refl, df), (write, refl, dg)) in
      let ((r, er, dr), (q, eq, dq)) =
        Handled-Sets rq pi stop machine reads words f g es start end sets
          (Stops-Handled rq pi stop machine es start end stops) in
      let got : t.1.current_tracker.read ≡ some r = ap (λ (x : RwTracker). x.read) at_end ∙ er in
      let got' : t.1.current_tracker.write ≡ some q = ap (λ (x : RwTracker). x.write) at_end ∙ eq in
      let out : (SetT × SetT) × (W × State Q) = ((r, q), t) in
      (
        r,
        q,
        t,
        >>=-some _ _ t out ran (>>=-some _ _ r out got (>>=-some _ _ q out got' refl)),
        dr,
        dq,
      )
