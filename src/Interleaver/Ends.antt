-- ===== src/Interleaver/Ends.antt =====
-- interleaver.c, `run_interleavings`: the loop over the schedules ends.
use thread_equivalence_check.Base.{
  ℕ, zero, suc, ◌+◌, ◌-◌, ◌^◌, ◌≤◌, ◌<◌, ◌≡◌, refl, ap, sym, ◌∙◌, subst, Option, some, List, [],
  ◌∷◌, Bool, true, false, ◌==◌, length, get_elem?, inl, inr, Bool-cases, arith,
}
use thread_equivalence_check.TrieSet.{SetT}
use thread_equivalence_check.TrieSet.Spec.{Denotes}
use thread_equivalence_check.Memory.{Xxh32}
use thread_equivalence_check.Memory.Hash.{Streams}
use thread_equivalence_check.Schedule.Value.{InRange, value, value-lt-pow}
use thread_equivalence_check.Runtime.{RunQueue, State, Libpi, CtxSwitchStatus}
use thread_equivalence_check.Runtime.Threads.{Cpu}
use thread_equivalence_check.Runtime.Handlers.{Event}
use thread_equivalence_check.Interleaver.{
  Verdict, judge, schedule_of, run_schedule, advance, interleaving_round, interleavings_fuel,
}
use thread_equivalence_check.Interleaver.Rounds.{Report, loop}
use thread_equivalence_check.Interleaver.Verdicts.{judge_lem}
use thread_equivalence_check.Interleaver.Advance.{NextCounts, advance-NextCounts, advance-Outcome}
use thread_equivalence_check.Interleaver.Counts.{
  InCounts, left, get_elem?-some, ones-InCounts, next-left,
}

-- The arrays of a round.
abbrev pub IsArrays : ℕ → ℕ → ℕ → List ℕ × List ℕ → Type 0
IsArrays ncs num_funcs most arrays =
    InRange num_funcs arrays.0
    × (length arrays.0 ≡ ncs + 1)
    × (length arrays.1 ≡ ncs)
    × InCounts most arrays.1

module _ {H W Q : Type 0} (x : Xxh32 H) (streams : Streams x)
    (hashes : (h : H) → x.digest h < 2 ^ 32) (memory : W → ℕ → ℕ) (init : W → W) (rq : RunQueue Q)
    (pi : Libpi) (cpu : Cpu) (ss_on_exit : ℕ) (machine : W → State Q → Event × W)
    (run_fuel ncs num_funcs : ℕ) (threads : ℕ → ℕ) (valid_hashes shared : SetT)
    (good bytes : ℕ → Bool) (stored : Denotes valid_hashes good) (watched : Denotes shared bytes)
    (most : ℕ) (Ready : W × State Q → Type 0) where
  -- The run of a schedule comes to its end, in a state from which the next one can start, and a slot
  -- of which it used up the count had a count of at most `most`.
  abbrev pub RunEnds : List ℕ × List ℕ → W × State Q → Type 0
  RunEnds arrays start =
      (end : W × State Q) × (status : CtxSwitchStatus) × (run_schedule init rq pi cpu ss_on_exit
          machine run_fuel (schedule_of ncs num_funcs arrays) threads shared start
        ≡ some (end, status))
      × Ready end
      × (status.ctx_switch ≤ ncs)
      × ((k a : ℕ) → status.ctx_switch ≡ k + 1 → get_elem? arrays.1 k ≡ some a → a ≤ most)

  -- The loop gives a result with some fuel.
  abbrev pub LoopEnds : List ℕ × List ℕ → W × State Q → Type 0
  LoopEnds arrays start =
      (fuel : ℕ) × (reports : List Report) × (last : W × State Q) × (loop x memory init rq pi cpu
          ss_on_exit machine run_fuel ncs num_funcs threads valid_hashes shared fuel arrays start
        ≡ some (reports, last))

  abbrev round :
      List ℕ × List ℕ
      → W × State Q
      → Option (Verdict × (((List ℕ × List ℕ) × Bool) × (W × State Q)))
  round =
      interleaving_round x memory init rq pi cpu ss_on_exit machine run_fuel ncs num_funcs threads
        valid_hashes shared

  ended :
      (arrays next : List ℕ × List ℕ) (start end : W × State Q) (verdict : Verdict)
      → round arrays start ≡ some (verdict, ((next, true), end))
      → LoopEnds arrays start
  unfolding interleavings_fuel
  ended arrays next start end verdict ran = (1, (arrays, verdict) ∷ [], end, rw ran refl)

  went_on :
      (arrays next : List ℕ × List ℕ) (start end : W × State Q) (verdict : Verdict)
      → round arrays start ≡ some (verdict, ((next, false), end))
      → LoopEnds next end
      → LoopEnds arrays start
  unfolding interleavings_fuel
  went_on arrays next start end verdict ran (fuel, reports, last, later) =
      (suc fuel, (arrays, verdict) ∷ reports, last, rw (ran, later) refl)

  -- A round whose run ends has a verdict, whatever the arrays become.
  round_ran :
      (arrays next : List ℕ × List ℕ) (done : Bool) (start end : W × State Q)
      (status : CtxSwitchStatus)
      → run_schedule init rq pi cpu ss_on_exit machine run_fuel
          (schedule_of ncs num_funcs arrays)
          threads
          shared
          start
        ≡ some (end, status)
      → advance ncs num_funcs status.ctx_switch arrays.0 arrays.1 ≡ some (next, done)
      → (verdict : Verdict) × (round arrays start ≡ some (verdict, ((next, done), end)))
  unfolding interleaving_round
  round_ran arrays next done start end status ran moved =
      let (verdict, judged) : (v : Verdict) × (judge x (memory end.0) ncs shared valid_hashes status
            ≡ some v) =
        (
          _,
          judge_lem x streams hashes (memory end.0) ncs shared valid_hashes bytes good watched
              stored status,
        ) in
      (verdict, rw (ran, judged, moved) refl)

  module _ (some_func : 1 ≤ num_funcs) (word : num_funcs + 1 < 2 ^ 32) (short : most + 2 < 2 ^ 32)
      (runs : (arrays : List ℕ × List ℕ) (start : W × State Q)
        → IsArrays ncs num_funcs most arrays
        → Ready start
        → RunEnds arrays start) where
    -- A run without a switch: the thread ids change, or the loop is done.
    unswitched :
        (arrays : List ℕ × List ℕ) (start end : W × State Q) (status : CtxSwitchStatus)
        → IsArrays ncs num_funcs most arrays
        → run_schedule init rq pi cpu ss_on_exit machine run_fuel
            (schedule_of ncs num_funcs arrays)
            threads
            shared
            start
          ≡ some (end, status)
        → status.ctx_switch ≡ 0
        → ((later : List ℕ × List ℕ)
            → IsArrays ncs num_funcs most later
            → value num_funcs arrays.0 < value num_funcs later.0
            → LoopEnds later end)
        → LoopEnds arrays start
    unswitched arrays start end status (rt, lt, lc, hc) ran unmade outer =
        let (ys, out, moved, outcome, ly, ones) =
          advance-Outcome ncs num_funcs arrays.0 arrays.1 lc some_func word rt in
        let step : advance ncs num_funcs status.ctx_switch arrays.0 arrays.1
            ≡ some ((out.0, ys), out.1 == 0) =
          rw unmade moved in
        let ends = λ (done : Bool) (e : (out.1 == 0) ≡ done).
          round_ran arrays (out.0, ys) done start end status ran
            (step ∙ ap (λ d. some ((out.0, ys), d)) e) in
        elim outcome [
          | inl (one, after) ↦
              let (rn, ln, more) = after.0 in
              let (verdict, went) = ends false (rw one refl) in
              let counts = ones-InCounts most ys (λ j j'. ones j (omega arith)) in
              went_on arrays (out.0, ys) start end verdict went
                (outer (out.0, ys) (rn, ln ∙ lt, ly ∙ lc, counts) more)
          | inr (z, last) ↦
              let (verdict, stopped) = ends true (rw z refl) in
              ended arrays (out.0, ys) start end verdict stopped
        ]

    -- A run with switches: the thread ids stay, and the counts come nearer to the last ones.
    switched :
        (arrays : List ℕ × List ℕ) (start end : W × State Q) (status : CtxSwitchStatus) (k a : ℕ)
        → IsArrays ncs num_funcs most arrays
        → run_schedule init rq pi cpu ss_on_exit machine run_fuel
            (schedule_of ncs num_funcs arrays)
            threads
            shared
            start
          ≡ some (end, status)
        → status.ctx_switch ≡ k + 1
        → k < ncs
        → get_elem? arrays.1 k ≡ some a
        → a ≤ most
        → ((ys : List ℕ)
            → IsArrays ncs num_funcs most (arrays.0, ys)
            → left most ys < left most arrays.1
            → LoopEnds (arrays.0, ys) end)
        → LoopEnds arrays start
    switched arrays start end status k a (rt, lt, lc, hc) ran made few old small inner =
        let (ys, moved, next) =
          advance-NextCounts ncs num_funcs k a arrays.0 arrays.1 lc old (omega arith) few in
        let (counts, less) =
          next-left most k a arrays.1 ys hc old small
            (subst (λ n. NextCounts k n arrays.1 ys) (sym lc) next) in
        let (verdict, done) =
          round_ran arrays (arrays.0, ys) false start end status ran
            (ap (λ c. advance ncs num_funcs c arrays.0 arrays.1) made ∙ moved) in
        went_on arrays (arrays.0, ys) start end verdict done
          (inner ys (rt, lt, next.0 ∙ lc, counts) less)

    counts-LoopEnds :
        (u : ℕ) (arrays : List ℕ × List ℕ) (start : W × State Q)
        → ((later : List ℕ × List ℕ) (s : W × State Q)
            → IsArrays ncs num_funcs most later
            → Ready s
            → value num_funcs arrays.0 < value num_funcs later.0
            → LoopEnds later s)
        → IsArrays ncs num_funcs most arrays
        → Ready start
        → left most arrays.1 < u
        → LoopEnds arrays start
    counts-LoopEnds zero arrays start outer h ready near = absurd (omega arith)
    counts-LoopEnds (suc u) arrays start outer h ready near =
        let (end, status, ran, ready', few, used) = runs arrays start h ready in
        elim (Bool-cases (status.ctx_switch == 0)) [
          | inl e ↦
              unswitched arrays start end status h ran (ground arith)
                (λ later h' more. outer later end h' ready' more)
          | inr ne ↦
              let k : ℕ = status.ctx_switch - 1 in
              let made : status.ctx_switch ≡ k + 1 = ground arith in
              let (a, old) = get_elem?-some arrays.1 k (let l = h.2 in omega arith) in
              switched arrays start end status k a h ran made (omega arith) old (used k a made old)
                (λ ys h' less. counts-LoopEnds u (arrays.0, ys) end outer h' ready' (omega arith))
        ]

    ids-LoopEnds :
        (t : ℕ) (arrays : List ℕ × List ℕ) (start : W × State Q)
        → IsArrays ncs num_funcs most arrays
        → Ready start
        → num_funcs ^ (ncs + 1) ≤ value num_funcs arrays.0 + t
        → LoopEnds arrays start
    ids-LoopEnds zero arrays start h ready near =
        let below = value-lt-pow num_funcs arrays.0 some_func h.0 in
        let same = ap (λ k. num_funcs ^ k) h.1 in absurd (omega (arith, below, same))
    ids-LoopEnds (suc t) arrays start h ready near =
        counts-LoopEnds (suc (left most arrays.1)) arrays start
          (λ later s h' ready' more. ids-LoopEnds t later s h' ready' (omega arith)) h ready
          (omega arith)

    -- If every run of a schedule in range comes to its end, in a state from which the next one can
    -- start, and uses up only counts of at most `most`, the loop over the schedules gives a result.
    pub loop-LoopEnds :
        (arrays : List ℕ × List ℕ) (start : W × State Q)
        → IsArrays ncs num_funcs most arrays
        → Ready start
        → LoopEnds arrays start
    loop-LoopEnds arrays start h ready =
        ids-LoopEnds (num_funcs ^ (ncs + 1)) arrays start h ready (omega arith)
