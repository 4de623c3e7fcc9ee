-- ===== src/Runtime/Alone.antt =====
-- equiv-rw-set.c, `find_rw_set`: the sets after the run of one function.
use mathlib.Core.Bool.{or_assoc}
use thread_equivalence_check.Base.{
  ℕ, zero, suc, ◌≡◌, refl, sym, subst, ap, ◌∙◌, Option, some, List, [], ◌∷◌, Bool, true, false,
  ◌||◌, ◌>>=◌, >>=-eq-some, >>=-some, some-inj, inl, inr, Bool-cases,
}
use thread_equivalence_check.TrieSet.{SetT}
use thread_equivalence_check.TrieSet.Spec.{Denotes, Denotes-agree}
use thread_equivalence_check.Touched.Arm.{ReadsBits}
use thread_equivalence_check.Runtime.{RwTracker, RunQueue, State, Libpi}
use thread_equivalence_check.Runtime.Tracker.{
  rw_tracker_mk, disable_ctx_switch, set_tracker, rw_tracker_enable, rw_tracker_disable,
  rw_tracker_disarm, set_data_faults,
}
use thread_equivalence_check.Runtime.Threads.{
  Cpu, reset_ntids, equiv_fork, mismatch_on, mismatch_off, mismatch_pc_set,
}
use thread_equivalence_check.Runtime.Handlers.{Event, Ending, handle}
use thread_equivalence_check.Runtime.Run.{first_thread, is_finished, run_events, equiv_run}
use thread_equivalence_check.Runtime.Traced.{run_alone, find_rw_set}
use thread_equivalence_check.Runtime.Untracked.{pc-Has, on-Has, off-Has, fork-Has, ntids-Has}
use thread_equivalence_check.Runtime.Recorded.{
  IsAccess, Sets, all_accesses, accesses, unchanged, found, handle-Sets,
}

module _ {W Q : Type 0} (rq : RunQueue Q) (pi : Libpi) (stop : ℕ)
    (machine : W → State Q → Event × W) where
  -- From one state to the other the machine reported these exceptions, one after the other, and each
  -- was handled.
  abbrev pub Handled : W × State Q → List Event → W × State Q → Type 0
  Handled s [] t = s ≡ t
  Handled s (e ∷ es) t =
      (st : State Q) × (ending : Ending) × ((machine s.0 s.1).0 ≡ e)
      × (handle rq pi stop e s.1 ≡ some (st, ending))
      × Handled ((machine s.0 s.1).1, st) es t

  run_events-Handled :
      (fuel : ℕ) (w w' : W) (st st' : State Q)
      → run_events rq pi stop machine fuel w st ≡ some (st', w')
      → (es : List Event) × Handled (w, st) es (w', st')
  unfolding run_events
  run_events-Handled zero w w' st st' h = absurd cc
  run_events-Handled (suc fuel) w w' st st' h =
      let e : Event = (machine w st).0 in
      let ((st1, ending), ran, h1) = >>=-eq-some (handle rq pi stop e st) _ _ h in
      elim (Bool-cases (is_finished ending)) [
        | inl over ↦
            let end : some (st1, (machine w st).1) ≡ some (st', w') = rw over at h1 in
            let first : st1 ≡ st' = cc in
            let second : (machine w st).1 ≡ w' = cc in
            (e ∷ [], (st1, ending, refl, ran, rw (first, second) refl))
        | inr more ↦
            let (es, rest) = run_events-Handled fuel (machine w st).1 w' st1 st' (rw more at h1) in
            (e ∷ es, (st1, ending, refl, ran, rest))
      ]

  module _ (reads : ReadsBits pi.bits_get pi.bit_isset)
      (words : (w : W) (st : State Q) → IsAccess (machine w st).0) where
    pub Handled-Sets :
        (f g : ℕ → Bool) (es : List Event) (s t : W × State Q)
        → Sets f g s.1.current_tracker
        → Handled s es t
        → Sets
            (λ v. f v || all_accesses pi false es v)
            (λ v. g v || all_accesses pi true es v)
            t.1.current_tracker
    Handled-Sets f g [] s t ((r, er, dr), (q, eq, dq)) same =
        rw (← same) (unchanged f g s.1.current_tracker ((r, er, dr), (q, eq, dq)))
    Handled-Sets f g (e ∷ es) s t sets (st, ending, got, ran, rest) =
        let word : IsAccess e = subst IsAccess got (words s.0 s.1) in
        let one = handle-Sets rq pi reads f g stop e s.1 st ending word sets ran in
        let ((r, er, dr), (q, eq, dq)) =
          Handled-Sets (λ v. f v || accesses pi false e v) (λ v. g v || accesses pi true e v) es
            ((machine s.0 s.1).1, st) t one rest in
        (
          (r, er, Denotes-agree r _ _ dr (λ v lt. or_assoc (f v) _ _)),
          (q, eq, Denotes-agree q _ _ dq (λ v lt. or_assoc (g v) _ _)),
        )

module _ {W Q : Type 0} (rq : RunQueue Q) (pi : Libpi) (cpu : Cpu) (stop : ℕ)
    (machine : W → State Q → Event × W) (run_fuel verbose_p : ℕ) (new_thread : W → ℕ × W) where
  -- The state in which the function starts to run, up to its first exception.
  unfoldable pub launched : ℕ → W × State Q → Option (W × State Q)
  launched exe (w, st) = do
    st1 ← equiv_fork rq cpu verbose_p (new_thread w).0 exe 0 (rw_tracker_enable pi st)
    (th, q) ← first_thread rq st1.schedule st1.heap st1.equiv_runq
    st2 ← mismatch_on (record st1 { cur_thread = some th; equiv_runq = q })
    st3 ← mismatch_pc_set 0 st2
    some ((new_thread w).1, st3)

  -- A run is a launch, exceptions one after the other, and a clean-up that leaves the tracker.
  pub record IsRun (exe : ℕ) (s t : W × State Q) : Type 0 where
    pub start : W × State Q
    pub end : W × State Q
    pub events : List Event
    pub begun : launched exe s ≡ some start
    pub kept : start.1.current_tracker ≡ s.1.current_tracker
    pub handled : Handled rq pi stop machine start events end
    pub world : end.0 ≡ t.0
    pub left : t.1.current_tracker ≡ end.1.current_tracker

  pub run_alone-IsRun :
      (exe : ℕ) (s t : W × State Q)
      → run_alone rq pi cpu stop machine run_fuel verbose_p new_thread exe s ≡ some t
      → IsRun exe s t
  unfolding run_alone equiv_run launched rw_tracker_enable rw_tracker_disable rw_tracker_disarm
      set_data_faults
  run_alone-IsRun exe s t h =
      let w : W = (new_thread s.0).1 in
      let (st1, forked, h1) =
        >>=-eq-some
          (equiv_fork rq cpu verbose_p (new_thread s.0).0 exe 0 (rw_tracker_enable pi s.1)) _ _ h in
      let (out, ran, h2) = >>=-eq-some (equiv_run rq pi stop machine run_fuel w st1) _ _ h1 in
      let (st3, cleaned, h3) = >>=-eq-some (reset_ntids rq (rw_tracker_disable pi out.0)) _ _ h2 in
      let (first, popped, k1) =
        >>=-eq-some (first_thread rq st1.schedule st1.heap st1.equiv_runq) _ _ ran in
      let (on, turned, k2) =
        >>=-eq-some (mismatch_on (record st1 { cur_thread = some first.0; equiv_runq = first.1 })) _
          _ k1 in
      let (set, pc, k3) = >>=-eq-some (mismatch_pc_set 0 on) _ _ k2 in
      let (stopped, went, k4) = >>=-eq-some (run_events rq pi stop machine run_fuel w set) _ _ k3 in
      let (off, turned_off, k5) = >>=-eq-some (mismatch_off stopped.0) _ _ k4 in
      let (es, handled) =
        run_events-Handled rq pi stop machine run_fuel w stopped.1 set stopped.0 went in
      let forked' =
        found _ _ st1 (fork-Has s.1.current_tracker rq pi cpu verbose_p _ exe 0 _ refl) forked in
      let on' = found _ _ on (on-Has st1.current_tracker _ refl) turned in
      let set' = found _ _ set (pc-Has on.current_tracker 0 _ refl) pc in
      let off' = found _ _ off (off-Has stopped.0.current_tracker _ refl) turned_off in
      let cleaned' = found _ _ st3 (ntids-Has out.0.current_tracker rq pi _ refl) cleaned in
      let out' = some-inj k5 in
      let t' = some-inj h3 in
      record {
        start = (w, set);
        end = (stopped.1, stopped.0);
        events = es;
        begun =
            >>=-some _ _ st1 (w, set) forked
              (>>=-some _ _ first (w, set) popped
                (>>=-some _ _ on (w, set) turned (>>=-some _ _ set (w, set) pc refl)));
        kept = set' ∙ on' ∙ forked';
        handled = handled;
        world = ap (λ (u : State Q × W). u.1) out' ∙ ap (λ (u : W × State Q). u.0) t';
        left =
            sym (ap (λ (u : W × State Q). u.1.current_tracker) t')
            ∙ cleaned'
            ∙ sym (ap (λ (u : State Q × W). u.0.current_tracker) out')
            ∙ off';
      }

  module _ (reads : ReadsBits pi.bits_get pi.bit_isset)
      (words : (w : W) (st : State Q) → IsAccess (machine w st).0) where
    -- When `find_rw_set` returns, the two sets hold what they held before and the bytes that the
    -- accesses of the run read and wrote, and nothing else: the accesses of all exceptions from the
    -- start of the function to the end of its run, each with the width that the architecture's manual
    -- gives its instruction. The condition is that every data abort is of a load or store of the
    -- manual that `get_touched_bytes` does not take for a swap, or the other way round.
    pub find_rw_set-Sets :
        (exe : ℕ) (read write read' write' : SetT) (f g : ℕ → Bool) (s t : W × State Q)
        → Denotes read f
        → Denotes write g
        → find_rw_set rq pi cpu stop machine run_fuel verbose_p new_thread exe read write s
          ≡ some ((read', write'), t)
        → (start : W × State Q) × (end : W × State Q) × (es : List Event) × (launched exe
              (s.0, set_tracker (rw_tracker_mk read write) (disable_ctx_switch s.1))
            ≡ some start)
          × Handled rq pi stop machine start es end
          × (end.0 ≡ t.0)
          × Denotes read' (λ v. f v || all_accesses pi false es v)
          × Denotes write' (λ v. g v || all_accesses pi true es v)
    unfolding find_rw_set set_tracker rw_tracker_mk
    find_rw_set-Sets exe read write read' write' f g s t df dg h =
        let begin : W × State Q =
          (s.0, set_tracker (rw_tracker_mk read write) (disable_ctx_switch s.1)) in
        let (u, ran, h1) =
          >>=-eq-some (run_alone rq pi cpu stop machine run_fuel verbose_p new_thread exe begin) _ _
            h in
        let (r', got, h2) = >>=-eq-some u.1.current_tracker.read _ _ h1 in
        let (q', got', h3) = >>=-eq-some u.1.current_tracker.write _ _ h2 in
        let run = run_alone-IsRun exe begin u ran in
        let sets : Sets f g run.start.1.current_tracker =
          rw run.kept ((read, refl, df), (write, refl, dg)) in
        let ((r, er, dr), (q, eq, dq)) =
          Handled-Sets rq pi stop machine reads words f g run.events run.start run.end sets
            run.handled in
        let out = some-inj h3 in
        let was_read : some r ≡ some r' =
          sym er ∙ ap (λ (x : RwTracker). x.read) (sym run.left) ∙ got in
        let was_written : some q ≡ some q' =
          sym eq ∙ ap (λ (x : RwTracker). x.write) (sym run.left) ∙ got' in
        (
          run.start,
          run.end,
          run.events,
          run.begun,
          run.handled,
          run.world ∙ ap (λ (o : (SetT × SetT) × (W × State Q)). o.1.0) out,
          subst (λ x. Denotes x (λ v. f v || all_accesses pi false run.events v))
              (some-inj was_read ∙ ap (λ (o : (SetT × SetT) × (W × State Q)). o.0.0) out) dr,
          subst (λ x. Denotes x (λ v. g v || all_accesses pi true run.events v))
              (some-inj was_written ∙ ap (λ (o : (SetT × SetT) × (W × State Q)). o.0.1) out) dq,
        )
