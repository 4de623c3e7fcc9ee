-- ===== src/Interleaver/Total.antt =====
-- interleaver.c, `run_interleavings`: the call ends, with all the schedules run.
use thread_equivalence_check.Base.{
  ℕ, zero, suc, ◌+◌, ◌^◌, ◌≤◌, ◌<◌, ◌≡◌, refl, sym, ◌∙◌, some, List, Bool, replicate, length,
  length-replicate, get_elem?, >>=-some, arith,
}
use thread_equivalence_check.TrieSet.{SetT}
use thread_equivalence_check.TrieSet.Spec.{Denotes}
use thread_equivalence_check.Memory.{Xxh32}
use thread_equivalence_check.Memory.Hash.{Streams}
use thread_equivalence_check.Schedule.{tids_valid}
use thread_equivalence_check.Schedule.Value.{InRange}
use thread_equivalence_check.Schedule.Next.{next_tid-Outcome}
use thread_equivalence_check.Runtime.{RunQueue, State, Libpi}
use thread_equivalence_check.Runtime.Threads.{Cpu, init_threads, reset_threads}
use thread_equivalence_check.Runtime.Tracker.{disable_ctx_switch}
use thread_equivalence_check.Runtime.Handlers.{Event}
use thread_equivalence_check.Interleaver.{FunctionExec, run_interleavings}
use thread_equivalence_check.Interleaver.Rounds.{Report}
use thread_equivalence_check.Interleaver.Covered.{ones-InRange, first-NotBefore}
use thread_equivalence_check.Interleaver.Counts.{ones-InCounts}
use thread_equivalence_check.Interleaver.Ends.{IsArrays, RunEnds, loop-LoopEnds}

replicate-one : (n j : ℕ) → j < n → get_elem? {A = ℕ} (replicate n 1) j ≡ some 1
replicate-one zero j h = absurd (omega arith)
replicate-one (suc n) zero h = refl
replicate-one (suc n) (suc j) h = replicate-one n j (omega arith)

module _ {H W Q : Type 0} (x : Xxh32 H) (streams : Streams x)
    (hashes : (h : H) → x.digest h < 2 ^ 32) (memory : W → ℕ → ℕ) (init : W → W) (rq : RunQueue Q)
    (pi : Libpi) (cpu : Cpu) (ss_on_exit : ℕ) (machine : W → State Q → Event × W)
    (run_fuel ncs num_funcs : ℕ) (threads : ℕ → ℕ) (valid_hashes shared : SetT)
    (good bytes : ℕ → Bool) (stored : Denotes valid_hashes good) (watched : Denotes shared bytes)
    (most : ℕ) (Ready : W × State Q → Type 0) where
  -- With a switch at least, an array of thread ids in which no thread follows itself, threads that
  -- are set up to a state from which a run can start, and runs that come to their end in such a state
  -- and use up only counts of at most `most`, `run_interleavings` gives a result with some fuel.
  pub run_interleavings-Ends :
      (verbose_p : ℕ) (executables : ℕ → FunctionExec) (w : W) (st st1 st2 : State Q)
      (tids : List ℕ)
      → 1 ≤ num_funcs
      → num_funcs + 1 < 2 ^ 32
      → most + 2 < 2 ^ 32
      → 1 ≤ ncs
      → InRange num_funcs tids
      → length tids ≡ ncs + 1
      → tids_valid tids ≡ 1
      → init_threads rq cpu verbose_p threads
          (λ i. (executables i).func_addr)
          num_funcs
          (disable_ctx_switch st)
        ≡ some st1
      → reset_threads rq cpu threads num_funcs st1 ≡ some st2
      → Ready (w, st2)
      → ((arrays : List ℕ × List ℕ) (start : W × State Q)
          → IsArrays ncs num_funcs most arrays
          → Ready start
          → RunEnds x streams hashes memory init rq pi cpu ss_on_exit machine run_fuel ncs num_funcs
              threads valid_hashes shared good bytes stored watched most Ready arrays start)
      → (fuel : ℕ) × (reports : List Report) × (last : W × State Q) × (run_interleavings x memory
            init rq pi cpu ss_on_exit machine run_fuel fuel verbose_p executables num_funcs
            valid_hashes ncs shared threads
            (w, st)
          ≡ some (reports, last))
  unfolding run_interleavings
  run_interleavings-Ends verbose_p executables w st st1 st2 tids h word short switches r l ok made
        set_up ready runs =
      let ones : List ℕ = replicate (ncs + 1) 1 in
      let (first, ran, res) =
        next_tid-Outcome num_funcs ones h word (ones-InRange num_funcs (ncs + 1) h) in
      let (rn, before) = first-NotBefore num_funcs ncs tids first h word switches ran r l ok in
      let one_each = length-replicate ncs 1 in
      let counts =
        ones-InCounts most (replicate ncs 1)
          (λ j b. replicate-one ncs j (omega (arith, one_each))) in
      let (fuel, reports, last, ended) =
        loop-LoopEnds x streams hashes memory init rq pi cpu ss_on_exit machine run_fuel ncs
          num_funcs threads valid_hashes shared good bytes stored watched most Ready h word short
          runs (first.0, replicate ncs 1) (w, st2) (rn, sym before.1 ∙ l, one_each, counts) ready in
      (
        fuel,
        reports,
        last,
        >>=-some _ _ st1 (reports, last) made
            (>>=-some _ _ st2 (reports, last) set_up
              (>>=-some _ _ first (reports, last) ran ended)),
      )
