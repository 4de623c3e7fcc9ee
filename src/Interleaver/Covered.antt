-- ===== src/Interleaver/Covered.antt =====
-- interleaver.c, `run_interleavings`: no order of the threads is skipped.
use thread_equivalence_check.Base.{
  ℕ, zero, suc, ◌+◌, ◌-◌, ◌*◌, replicate, ◌≤◌, ◌<◌, ◌^◌, ◌≡◌, ◌≢◌, refl, sym, ap, subst, ◌∙◌,
  Option, some, List, [], ◌∷◌, Bool, false, ◌⊎◌, inl, inr, ◌==◌, ltb, length, length-replicate, set,
  add32, get_elem?, Bool-cases, >>=-eq-some, arith,
}
use thread_equivalence_check.TrieSet.{SetT}
use thread_equivalence_check.Memory.{Xxh32}
use thread_equivalence_check.Schedule.{tids_valid, next_tid}
use thread_equivalence_check.Schedule.Value.{InRange, value, value-inj}
use thread_equivalence_check.Schedule.Next.{After, NextOf, next_tid-Outcome}
use thread_equivalence_check.Runtime.{RunQueue, State, Libpi}
use thread_equivalence_check.Runtime.Threads.{Cpu}
use thread_equivalence_check.Runtime.Handlers.{Event}
use thread_equivalence_check.Runtime.Tracker.{disable_ctx_switch}
use thread_equivalence_check.Runtime.Threads.{init_threads, reset_threads}
use thread_equivalence_check.Interleaver.{
  FunctionExec, interleavings_fuel, run_interleavings, reset_from, advance,
}
use thread_equivalence_check.Interleaver.Rounds.{Report, loop, loop-IsLoop}

-- Some listed schedule has these thread ids.
abbrev pub Ran : List ℕ → List Report → Type 0
Ran tids [] = ⊥
Ran tids (r ∷ rs) = (r.0.0 ≡ tids) ⊎ Ran tids rs

-- What `advance` does to the thread ids: they stay, or they are the next ones.
abbrev Advanced : ℕ → List ℕ → List ℕ → Bool → Type 0
Advanced n tids tids' done =
    ((tids' ≡ tids) × (done ≡ false))
    ⊎ ((more : ℕ) × (next_tid tids n ≡ some (tids', more)) × (done ≡ (more == 0)))

advance-Advanced :
    (ncs n switches : ℕ) (tids counts : List ℕ) (next : List ℕ × List ℕ) (done : Bool)
    → advance ncs n switches tids counts ≡ some (next, done)
    → Advanced n tids next.0 done
unfolding advance
advance-Advanced ncs n switches tids counts next done h = elim (Bool-cases (ltb 0 switches)) [
  | inl some_made ↦
      let (old, _, h1) = >>=-eq-some (get_elem? counts (switches - 1)) _ _ (rw some_made at h) in
      let (ys, _, h2) =
        >>=-eq-some (reset_from ncs switches (set counts (switches - 1) (add32 old 1))) _ _ h1 in
      inl (cc, cc)
  | inr none_made ↦
      let (ys, _, h1) = >>=-eq-some (reset_from ncs 0 counts) _ _ (rw none_made at h) in
      let (out, ran, h2) = >>=-eq-some (next_tid tids n) _ _ h1 in
      let same : out.0 ≡ next.0 = cc in inr (out.1, ran ∙ ap (λ t. some (t, out.1)) same, cc)
]

-- `us` does not come before `ts`.
abbrev NotBefore : ℕ → List ℕ → List ℕ → Type 0
NotBefore n ts us = InRange n us × (length us ≡ length ts) × (value n ts ≤ value n us)

strictly-After :
    (n : ℕ) (tids us : List ℕ) → InRange n tids → NotBefore n tids us → us ≢ tids → After n tids us
strictly-After n tids us r (ru, l, le) other = elim (Bool-cases (value n us == value n tids)) [
  | inl e ↦ absurd (other (value-inj n us tids ru r l (ground arith)))
  | inr ne ↦ (ru, l, ground arith)
]

-- The next valid array does not come after a valid array that comes after this one.
next-NotBefore :
    (n : ℕ) (tids next us : List ℕ)
    → NextOf n tids next
    → tids_valid us ≡ 1
    → After n tids us
    → InRange n next × NotBefore n next us
next-NotBefore n tids next us ((rn, ln, hn), good, between) ok after = (
  rn,
  (
    after.0,
    after.1 ∙ sym ln,
    elim (Bool-cases (ltb (value n us) (value n next))) [
      | inl low ↦ let bad = between us after (ground arith) in absurd (omega (arith, bad, ok))
      | inr high ↦ ground arith
    ],
  ),
)

-- After a step the arrays that are still to come are still to come, unless the step ends the loop.
Advanced-NotBefore :
    (n : ℕ) (tids tids' us : List ℕ) (done : Bool)
    → 1 ≤ n
    → n + 1 < 2 ^ 32
    → InRange n tids
    → Advanced n tids tids' done
    → tids_valid us ≡ 1
    → NotBefore n tids us
    → us ≢ tids
    → (done ≡ false) × InRange n tids' × NotBefore n tids' us
Advanced-NotBefore n tids tids' us done h word r (inl (same, on)) ok before other =
    (on, rw same r, rw same before)
Advanced-NotBefore n tids tids' us done h word r (inr (more, ran, ends)) ok before other =
    let after = strictly-After n tids us r before other in
    let (out, ran', outcome) = next_tid-Outcome n tids h word r in
    let same : some out ≡ some (tids', more) = sym ran' ∙ ran in
    let first : out.0 ≡ tids' = cc in
    let second : out.1 ≡ more = cc in
    elim outcome [
      | inl (one, next) ↦
          let (rn, nb) = next-NotBefore n tids out.0 us next ok after in
          let on : done ≡ false = rw (ends, ← second, one) refl in
          (on, subst (InRange n) first rn, subst (λ t. NotBefore n t us) first nb)
      | inr (z, last) ↦ let bad = last us after in absurd (omega (arith, bad, ok))
    ]

module _ {H W Q : Type 0} (x : Xxh32 H) (memory : W → ℕ → ℕ) (init : W → W) (rq : RunQueue Q)
    (pi : Libpi) (cpu : Cpu) (ss_on_exit : ℕ) (machine : W → State Q → Event × W)
    (run_fuel ncs num_funcs : ℕ) (threads : ℕ → ℕ) (valid_hashes shared : SetT)
    (some_func : 1 ≤ num_funcs) (word : num_funcs + 1 < 2 ^ 32) where
  abbrev go : ℕ → List ℕ × List ℕ → W × State Q → Option (List Report × (W × State Q))
  go =
      loop x memory init rq pi cpu ss_on_exit machine run_fuel ncs num_funcs threads valid_hashes
        shared

  loop-Ran :
      (fuel : ℕ) (arrays : List ℕ × List ℕ) (start last : W × State Q) (reports : List Report)
      (us : List ℕ)
      → go fuel arrays start ≡ some (reports, last)
      → InRange num_funcs arrays.0
      → tids_valid us ≡ 1
      → NotBefore num_funcs arrays.0 us
      → Ran us reports
  unfolding interleavings_fuel
  loop-Ran zero arrays start last reports us h r ok before = cc
  loop-Ran (suc fuel) arrays start last reports us h r ok before =
      let l =
        loop-IsLoop x memory init rq pi cpu ss_on_exit machine run_fuel ncs num_funcs threads
          valid_hashes shared fuel arrays start last reports h in
      let step =
        advance-Advanced ncs num_funcs l.first.judged.status.ctx_switch arrays.0 arrays.1 l.next
          l.done l.first.advanced in
      rw l.listed (elim (Bool-cases (value num_funcs us == value num_funcs arrays.0)) [
        | inl e ↦ inl (sym (value-inj num_funcs us arrays.0 before.0 r before.1 (ground arith)))
        | inr ne ↦
            let other : us ≢ arrays.0 = λ p. ground (arith, ap (value num_funcs) p) in
            let (on, rn, nb) =
              Advanced-NotBefore num_funcs arrays.0 l.next.0 us l.done some_func word r step ok
                before other in
            inr (elim l.rest [
              | inl (over, none_later) ↦ cc
              | inr (more, ran) ↦ loop-Ran fuel l.next l.end l.last l.later us ran rn ok nb
            ])
      ])

pub ones-InRange : (n k : ℕ) → 1 ≤ n → InRange n (replicate k 1)
ones-InRange n zero h = tt
ones-InRange n (suc k) h = ((omega arith, h), ones-InRange n k h)

value-ones : (n k : ℕ) → value n (replicate k 1) ≡ 0
unfolding value
value-ones n zero = refl
value-ones n (suc k) = omega (arith, ap (λ v. n * v) (value-ones n k))

-- From two on, the array of ones has a thread that follows itself.
ones-ne-valid : (k : ℕ) (us : List ℕ) → 2 ≤ k → tids_valid us ≡ 1 → us ≢ replicate k 1
unfolding tids_valid
ones-ne-valid zero us h ok same = omega arith
ones-ne-valid (suc zero) us h ok same = omega arith
ones-ne-valid (suc (suc k)) us h ok same = omega (arith, ok, ap tids_valid same)

-- No valid array comes before the first one.
pub first-NotBefore :
    (n ncs : ℕ) (us : List ℕ) (first : List ℕ × ℕ)
    → 1 ≤ n
    → n + 1 < 2 ^ 32
    → 1 ≤ ncs
    → next_tid (replicate (ncs + 1) 1) n ≡ some first
    → InRange n us
    → length us ≡ ncs + 1
    → tids_valid us ≡ 1
    → InRange n first.0 × NotBefore n first.0 us
first-NotBefore n ncs us first h word switches ran r l ok =
    let ones : List ℕ = replicate (ncs + 1) 1 in
    let other : us ≢ ones = ones-ne-valid (ncs + 1) us (omega arith) ok in
    let after =
      strictly-After n ones us (ones-InRange n (ncs + 1) h)
        (r, l ∙ sym (length-replicate (ncs + 1) 1), omega (arith, value-ones n (ncs + 1))) other in
    let (out, ran', outcome) = next_tid-Outcome n ones h word (ones-InRange n (ncs + 1) h) in
    let e : some out ≡ some first = sym ran' ∙ ran in
    let same : out ≡ first = cc in
    elim outcome [
      | inl (one, next) ↦
          subst (λ f. InRange n f.0 × NotBefore n f.0 us) same
            (next-NotBefore n ones out.0 us next ok after)
      | inr (z, last) ↦ let bad = last us after in absurd (omega (arith, bad, ok))
    ]

module _ {H W Q : Type 0} (x : Xxh32 H) (memory : W → ℕ → ℕ) (init : W → W) (rq : RunQueue Q)
    (pi : Libpi) (cpu : Cpu) (ss_on_exit : ℕ) (machine : W → State Q → Event × W)
    (run_fuel : ℕ) where
  -- If the loop over the schedules with `ncs` context switches ends, each array of `ncs + 1` thread
  -- ids in which no thread follows itself is that of a schedule that ran, whatever the machine does.
  pub run_interleavings-Ran :
      (fuel verbose_p : ℕ) (executables : ℕ → FunctionExec) (num_funcs : ℕ) (valid_hashes : SetT)
      (ncs : ℕ) (shared : SetT) (threads : ℕ → ℕ) (start last : W × State Q) (reports : List Report)
      (tids : List ℕ)
      → run_interleavings x memory init rq pi cpu ss_on_exit machine run_fuel fuel verbose_p
          executables num_funcs valid_hashes ncs shared threads start
        ≡ some (reports, last)
      → 1 ≤ ncs
      → 1 ≤ num_funcs
      → num_funcs + 1 < 2 ^ 32
      → InRange num_funcs tids
      → length tids ≡ ncs + 1
      → tids_valid tids ≡ 1
      → Ran tids reports
  unfolding run_interleavings
  run_interleavings-Ran fuel verbose_p executables num_funcs valid_hashes ncs shared threads start
        last reports tids h switches some_func word r l ok =
      let ones : List ℕ = replicate (ncs + 1) 1 in
      let (st1, _, h1) =
        >>=-eq-some
          (init_threads rq cpu verbose_p threads (λ i. (executables i).func_addr) num_funcs
            (disable_ctx_switch start.1))
          _ _ h in
      let (st2, _, h2) = >>=-eq-some (reset_threads rq cpu threads num_funcs st1) _ _ h1 in
      let (first, ran, h3) = >>=-eq-some (next_tid ones num_funcs) _ _ h2 in
      let (rn, nb) = first-NotBefore num_funcs ncs tids first some_func word switches ran r l ok in
      loop-Ran x memory init rq pi cpu ss_on_exit machine run_fuel ncs num_funcs threads
        valid_hashes shared some_func word fuel (first.0, replicate ncs 1) (start.0, st2) last
        reports tids h3 rn ok nb
