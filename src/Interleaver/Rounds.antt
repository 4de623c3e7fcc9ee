-- ===== src/Interleaver/Rounds.antt =====
-- interleaver.c, `run_interleavings`: the loop over the schedules taken apart, and what it lists.
use thread_equivalence_check.Base.{
  ℕ, zero, suc, ◌+◌, replicate, ◌≡◌, refl, ap, ◌∙◌, Option, some, List, [], ◌∷◌, Bool, true, false,
  if◌then◌else◌, ◌>>=◌, ◌⊎◌, inl, inr, All, >>=-eq-some,
}
use thread_equivalence_check.TrieSet.{SetT}
use thread_equivalence_check.Memory.{Xxh32}
use thread_equivalence_check.Runtime.{RunQueue, State, Libpi, CtxSwitchStatus}
use thread_equivalence_check.Runtime.Threads.{Cpu, init_threads, reset_threads}
use thread_equivalence_check.Runtime.Tracker.{disable_ctx_switch}
use thread_equivalence_check.Schedule.{next_tid}
use thread_equivalence_check.Runtime.Handlers.{Event}
use thread_equivalence_check.Interleaver.{
  FunctionExec, run_interleavings, Verdict, judge, advance, schedule_of, run_schedule,
  interleaving_round, interleavings_fuel,
}

-- A schedule that ran, with its verdict.
abbrev pub Report : Type 0
Report = (List ℕ × List ℕ) × Verdict

module _ {H W Q : Type 0} (x : Xxh32 H) (memory : W → ℕ → ℕ) (init : W → W) (rq : RunQueue Q)
    (pi : Libpi) (cpu : Cpu) (ss_on_exit : ℕ) (machine : W → State Q → Event × W)
    (run_fuel ncs num_funcs : ℕ) (threads : ℕ → ℕ) (valid_hashes shared : SetT) where
  -- The schedule ran from some state, with this verdict on the memory that the run left.
  pub record IsJudged (report : Report) : Type 0 where
    pub start : W × State Q
    pub end : W × State Q
    pub status : CtxSwitchStatus
    pub ran :
        run_schedule init rq pi cpu ss_on_exit machine run_fuel
          (schedule_of ncs num_funcs report.0)
          threads
          shared
          start
        ≡ some (end, status)
    pub judged : judge x (memory end.0) ncs shared valid_hashes status ≡ some report.1

  abbrev round :
      List ℕ × List ℕ
      → W × State Q
      → Option (Verdict × (((List ℕ × List ℕ) × Bool) × (W × State Q)))
  round =
      interleaving_round x memory init rq pi cpu ss_on_exit machine run_fuel ncs num_funcs threads
        valid_hashes shared

  abbrev pub loop : ℕ → List ℕ × List ℕ → W × State Q → Option (List Report × (W × State Q))
  loop fuel =
      interleavings_fuel x memory init rq pi cpu ss_on_exit machine run_fuel fuel ncs num_funcs
        threads valid_hashes shared

  -- What a round that succeeds has done.
  pub record IsRound (arrays : List ℕ × List ℕ) (verdict : Verdict) (next : List ℕ × List ℕ)
      (done : Bool) : Type 0 where
    pub judged : IsJudged (arrays, verdict)
    pub advanced :
        advance ncs num_funcs judged.status.ctx_switch arrays.0 arrays.1 ≡ some (next, done)

  round-IsRound :
      (arrays next : List ℕ × List ℕ) (start end : W × State Q) (verdict : Verdict) (done : Bool)
      → round arrays start ≡ some (verdict, ((next, done), end))
      → IsRound arrays verdict next done
  unfolding interleaving_round
  round-IsRound arrays next start end verdict done h =
      let (out, ran, h1) =
        >>=-eq-some
          (run_schedule init rq pi cpu ss_on_exit machine run_fuel
            (schedule_of ncs num_funcs arrays) threads shared start)
          _ _ h in
      let (v, judged, h2) =
        >>=-eq-some (judge x (memory out.0.0) ncs shared valid_hashes out.1) _ _ h1 in
      let (n, advanced, h3) =
        >>=-eq-some (advance ncs num_funcs out.1.ctx_switch arrays.0 arrays.1) _ _ h2 in
      let v' : v ≡ verdict = cc in
      let n' : n ≡ (next, done) = cc in
      record {
        judged = record {
          start = start;
          end = out.0;
          status = out.1;
          ran = ran;
          judged = judged ∙ ap some v';
        };
        advanced = advanced ∙ ap some n';
      }

  -- A loop that finishes has done a round, and it was the last one or the loop went on.
  pub record IsLoop (fuel : ℕ) (arrays : List ℕ × List ℕ) (reports : List Report) : Type 0 where
    pub verdict : Verdict
    pub next : List ℕ × List ℕ
    pub done : Bool
    pub end : W × State Q
    pub last : W × State Q
    pub later : List Report
    pub first : IsRound arrays verdict next done
    pub listed : reports ≡ (arrays, verdict) ∷ later
    pub rest :
        ((done ≡ true) × (later ≡ []))
        ⊎ ((done ≡ false) × (loop fuel next end ≡ some (later, last)))

  -- What the loop does after a round.
  abbrev go_on :
      ℕ
      → List ℕ × List ℕ
      → List ℕ × List ℕ
      → Verdict
      → Bool
      → W × State Q
      → Option (List Report × (W × State Q))
  go_on fuel arrays next verdict done end =
      if done
      then some ((arrays, verdict) ∷ [], end)
      else (do (later, z) ← loop fuel next end; some ((arrays, verdict) ∷ later, z))

  ended-IsLoop :
      (fuel : ℕ) (arrays next : List ℕ × List ℕ) (verdict : Verdict) (done : Bool)
      (end last : W × State Q) (reports : List Report)
      → IsRound arrays verdict next done
      → go_on fuel arrays next verdict done end ≡ some (reports, last)
      → IsLoop fuel arrays reports
  ended-IsLoop fuel arrays next verdict true end last reports first h =
      let same : reports ≡ (arrays, verdict) ∷ [] = cc in
      record {
        verdict = verdict;
        next = next;
        done = true;
        end = end;
        last = last;
        later = [];
        first = first;
        listed = same;
        rest = inl (refl, refl);
      }
  ended-IsLoop fuel arrays next verdict false end last reports first h =
      let (out, ran, h1) = >>=-eq-some (loop fuel next end) _ _ h in
      let same : reports ≡ (arrays, verdict) ∷ out.0 = cc in
      record {
        verdict = verdict;
        next = next;
        done = false;
        end = end;
        last = out.1;
        later = out.0;
        first = first;
        listed = same;
        rest = inr (refl, ran);
      }

  pub loop-IsLoop :
      (fuel : ℕ) (arrays : List ℕ × List ℕ) (start last : W × State Q) (reports : List Report)
      → loop (suc fuel) arrays start ≡ some (reports, last)
      → IsLoop fuel arrays reports
  unfolding interleavings_fuel
  loop-IsLoop fuel arrays start last reports h =
      let (out, ran, h1) = >>=-eq-some (round arrays start) _ _ h in
      ended-IsLoop fuel arrays out.1.0.0 out.0 out.1.0.1 out.1.1 last reports
        (round-IsRound arrays out.1.0.0 start out.1.1 out.0 out.1.0.1 ran) h1

  -- Every listed schedule has run, and its verdict is that of its run.
  pub loop-IsJudged :
      (fuel : ℕ) (arrays : List ℕ × List ℕ) (start last : W × State Q) (reports : List Report)
      → loop fuel arrays start ≡ some (reports, last)
      → All IsJudged reports
  unfolding interleavings_fuel
  loop-IsJudged zero arrays start last reports h = cc
  loop-IsJudged (suc fuel) arrays start last reports h =
      let l = loop-IsLoop fuel arrays start last reports h in
      rw l.listed (
        l.first.judged,
        elim l.rest [
          | inl (over, none_later) ↦ rw none_later tt
          | inr (more, ran) ↦ loop-IsJudged fuel l.next l.end l.last l.later ran
        ],
      )

module _ {H W Q : Type 0} (x : Xxh32 H) (memory : W → ℕ → ℕ) (init : W → W) (rq : RunQueue Q)
    (pi : Libpi) (cpu : Cpu) (ss_on_exit : ℕ) (machine : W → State Q → Event × W)
    (run_fuel : ℕ) where
  pub run_interleavings-IsJudged :
      (fuel verbose_p : ℕ) (executables : ℕ → FunctionExec) (num_funcs : ℕ) (valid_hashes : SetT)
      (ncs : ℕ) (shared : SetT) (threads : ℕ → ℕ) (start last : W × State Q) (reports : List Report)
      → run_interleavings x memory init rq pi cpu ss_on_exit machine run_fuel fuel verbose_p
          executables num_funcs valid_hashes ncs shared threads start
        ≡ some (reports, last)
      → All
          (IsJudged x memory init rq pi cpu ss_on_exit machine run_fuel ncs num_funcs threads
            valid_hashes shared)
          reports
  unfolding run_interleavings
  run_interleavings-IsJudged fuel verbose_p executables num_funcs valid_hashes ncs shared threads
        start last reports h =
      let (st1, _, h1) =
        >>=-eq-some
          (init_threads rq cpu verbose_p threads (λ i. (executables i).func_addr) num_funcs
            (disable_ctx_switch start.1))
          _ _ h in
      let (st2, _, h2) = >>=-eq-some (reset_threads rq cpu threads num_funcs st1) _ _ h1 in
      let (first, _, h3) = >>=-eq-some (next_tid (replicate (ncs + 1) 1) num_funcs) _ _ h2 in
      loop-IsJudged x memory init rq pi cpu ss_on_exit machine run_fuel ncs num_funcs threads
        valid_hashes shared fuel (first.0, replicate ncs 1) (start.0, st2) last reports h3
