-- ===== src/Checker/Sound.antt =====
-- equiv-checker.c: what the verdicts of a check mean.
use mathlib.Core.Bool.{or_comm}
use thread_equivalence_check.Base.{
  ◌↔◌, ℕ, ◌≤◌, ◌<◌, ◌^◌, ◌≡◌, refl, sym, subst, ◌∙◌, Option, none, some, List, [], ◌∷◌, ◌++◌, map,
  Bool, true, false, not, ◌&&◌, ◌||◌, ◌==◌, if◌then◌else◌, truthy, assert, length, All, All-append,
  All-map, inl, inr, Bool-cases, >>=-eq-some, arith,
}
use thread_equivalence_check.Base.Exists.{any_below}
use thread_equivalence_check.Base.Loops.{for_loop, for_loop_keeps}
use thread_equivalence_check.TrieSet.{SetT, null, set_alloc, set_free}
use thread_equivalence_check.TrieSet.Spec.{
  Denotes, Denotes-agree, alloc-Denotes, union_inplace-Denotes,
}
use thread_equivalence_check.TrieSet.Count.{values}
use thread_equivalence_check.Memory.{Xxh32}
use thread_equivalence_check.Memory.Hash.{Streams}
use thread_equivalence_check.Permutations.{count_up}
use thread_equivalence_check.Permutations.Entries.{Within}
use thread_equivalence_check.Permutations.Orders.{fact, Reorders}
use thread_equivalence_check.Permutations.Listing.{get_func_permutations-Reorders}
use thread_equivalence_check.SharedMemory.Races.{Traces, raced, find_shared_memory-raced}
use thread_equivalence_check.Runtime.{CtxSwitchStatus, RunQueue, State, Libpi}
use thread_equivalence_check.Runtime.Threads.{Cpu}
use thread_equivalence_check.Runtime.Handlers.{Event}
use thread_equivalence_check.Runtime.Traced.{find_rw_set}
use thread_equivalence_check.Interleaver.{
  FunctionExec, Verdict, invalid, valid, unfinished, schedule_of, run_schedule, run_interleavings,
}
use thread_equivalence_check.Interleaver.Good.{good_hash, find_good_hashes-Denotes}
use thread_equivalence_check.Interleaver.Verdicts.{judge_lem}
use thread_equivalence_check.Interleaver.Rounds.{Report, IsJudged, run_interleavings-IsJudged}
use thread_equivalence_check.Checker.{
  entry, row_at, add_shared, Reports, check_round, equiv_checker_run,
}
use thread_equivalence_check.Checker.Orders.{
  Resets, IsSequential, found-IsSequential, not-found-IsSequential,
}

-- The run made all its context switches and did not yield.
abbrev pub IsComplete : ℕ → CtxSwitchStatus → Type 0
IsComplete ncs status = (status.yielded ≡ 0) × (status.ctx_switch ≡ ncs)

-- What a verdict says of a run: `Seq` holds if the hash is that of a sequential run.
abbrev pub Means : ℕ → CtxSwitchStatus → Type 0 → Verdict → Type 0
Means ncs status Seq invalid = IsComplete ncs status × ¬ Seq
Means ncs status Seq valid = IsComplete ncs status × Seq
Means ncs status Seq unfinished = ¬ (IsComplete ncs status)

judged-Means :
    (ncs : ℕ) (status : CtxSwitchStatus) (Seq : Type 0) (found : Bool) (verdict : Verdict)
    → (found ≡ true → Seq)
    → (found ≡ false → ¬ Seq)
    → (if not (truthy status.yielded) && status.ctx_switch == ncs
        then (if found then valid else invalid)
        else unfinished)
      ≡ verdict
    → Means ncs status Seq verdict
judged-Means ncs status Seq found verdict yes_seq no_seq e =
    elim (Bool-cases (not (truthy status.yielded) && status.ctx_switch == ncs)) [
      | inl judged ↦
          let complete : IsComplete ncs status = (ground (arith, judged), ground (arith, judged)) in
          let e' : (if found then valid else invalid) ≡ verdict = rw judged at e in
          elim (Bool-cases found) [
            | inl hit ↦ subst (Means ncs status Seq) (rw hit at e') (complete, yes_seq hit)
            | inr miss ↦ subst (Means ncs status Seq) (rw miss at e') (complete, no_seq miss)
          ]
      | inr left ↦
          subst (Means ncs status Seq) (rw left at e) (λ (y, c). ground (arith, left, y, c))
    ]

verdict_inj : (a b : Verdict) → some a ≡ some b → a ≡ b
verdict_inj a b e = cc

-- The bytes of `additional_shared_memory`.
abbrev pub Additional : Option SetT → (ℕ → Bool) → Type 0
Additional none g = (v : ℕ) → g v ≡ false
Additional (some s) g = Denotes s g

add_shared-Denotes :
    (extra : Option SetT) (found : SetT) (f g : ℕ → Bool)
    → Denotes found f
    → Additional extra g
    → (shared : SetT) × (add_shared extra found ≡ some shared) × Denotes shared (λ v. f v || g v)
unfolding add_shared
add_shared-Denotes none found f g d h =
    (found, refl, Denotes-agree found f _ d (λ v lt. ground (arith, h v)))
add_shared-Denotes (some s) found f g d h =
    let (shared, ran, d') = union_inplace-Denotes s found g f h d in
    (shared, ran, Denotes-agree shared _ _ d' (λ v lt. or_comm (g v) (f v)))

module _ {H W Q : Type 0} (x : Xxh32 H) (streams : Streams x) (word : (h : H) → x.digest h < 2 ^ 32)
    (memory : W → ℕ → ℕ) (init : W → W) (call : FunctionExec → W → W) (rq : RunQueue Q) (pi : Libpi)
    (cpu : Cpu) (ss_on_exit : ℕ) (machine : W → State Q → Event × W) (run_fuel fuel verbose_p : ℕ)
    (new_thread : W → ℕ × W) (threads : ℕ → ℕ → ℕ) (executables : ℕ → FunctionExec) (n : ℕ)
    (resets : Resets x memory init call executables n) where
  -- The schedule ran from some state, and its verdict is right.
  pub record IsSound (shared : SetT) (bytes : ℕ → Bool) (w : W) (ncs : ℕ) (report : Report)
      : Type 0 where
    pub start : W × State Q
    pub end : W × State Q
    pub status : CtxSwitchStatus
    pub ran :
        run_schedule init rq pi cpu ss_on_exit machine run_fuel
          (schedule_of ncs n report.0)
          (threads ncs)
          shared
          start
        ≡ some (end, status)
    pub means :
        Means ncs status
          (IsSequential x memory init call executables n bytes w
            (x.digest (x.update x.create (map (memory end.0) (values bytes)))))
          report.1

  module _ (rows : List (List ℕ))
      (every : (row : List ℕ) → Within row rows ↔ Reorders (count_up n 0) row)
      (shared valid_hashes : SetT) (bytes : ℕ → Bool) (w w0 : W) (ds : Denotes shared bytes)
      (dv : Denotes valid_hashes (λ v.
        false
        || any_below (length rows) (λ i.
          v
          == good_hash x streams word memory init call executables n
              (λ i'. entry (row_at rows i'))
              shared
              bytes
              ds
              w
              i))) where
    judged-IsSound :
        (ncs : ℕ) (report : Report)
        → IsJudged x memory init rq pi cpu ss_on_exit machine run_fuel ncs n
            (threads ncs)
            valid_hashes
            shared
            report
        → IsSound shared bytes w0 ncs report
    judged-IsSound ncs report j =
        let hash = x.digest (x.update x.create (map (memory j.end.0) (values bytes))) in
        record {
          start = j.start;
          end = j.end;
          status = j.status;
          ran = j.ran;
          means =
              judged-Means ncs j.status _ _ report.1
                (found-IsSequential x memory init call executables n streams word resets rows shared
                  bytes ds w w0 every hash)
                (not-found-IsSequential x memory init call executables n streams word resets rows
                  shared bytes ds w w0 every hash)
                (verdict_inj _ report.1 (
                  sym (
                    judge_lem x streams word (memory j.end.0) ncs shared valid_hashes bytes _ ds dv
                      j.status)
                  ∙ j.judged));
        }

    abbrev AllSound : List Reports × (W × State Q) → Type 0
    AllSound t = All (λ r. All (IsSound shared bytes w0 r.0) r.1) t.0

    check_round-AllSound :
        (i : ℕ) (t u : List Reports × (W × State Q))
        → AllSound t
        → check_round x memory init call rq pi cpu ss_on_exit machine run_fuel fuel verbose_p
            new_thread threads executables n valid_hashes shared i t
          ≡ some u
        → AllSound u
    unfolding check_round
    check_round-AllSound i (reports, s) u h ran =
        let (out, ran1, ran2) =
          >>=-eq-some
            (run_interleavings x memory init rq pi cpu ss_on_exit machine run_fuel fuel verbose_p
              executables n valid_hashes i shared (threads i) s)
            _ _ ran in
        let judged =
          run_interleavings-IsJudged x memory init rq pi cpu ss_on_exit machine run_fuel fuel
            verbose_p executables n valid_hashes i shared (threads i) s out.1 out.0 ran1 in
        let sound = All-map _ _ out.0 (λ r j. judged-IsSound i r j) judged in
        let e : reports ++ (i, out.0) ∷ [] ≡ u.0 = cc in
        subst (All (λ r. All (IsSound shared bytes w0 r.0) r.1)) e
          (All-append _ reports ((i, out.0) ∷ []) h (sound, tt))

  -- For up to 12 functions whose read and write sets `find_rw_set` finds, and an `init` that resets
  -- the memory: if the check finishes, each schedule that it lists has run, and its verdict is right.
  -- A run is invalid exactly if it made all its context switches, did not yield, and left a hash that
  -- no sequential run of all the functions leaves, in whatever order; valid if some order leaves it.
  -- The hash is that of the bytes that one function reads and another writes and of the additional
  -- ones.
  pub equiv_checker_run-IsSound :
      (Good : ℕ → W × State Q → Type 0) (rd wr : ℕ → ℕ → Bool) (extra : Option SetT) (g : ℕ → Bool)
      (ncs : ℕ) (s last : W × State Q) (reports : List Reports)
      → 1 ≤ n
      → fact n < 2 ^ 31
      → Traces
          (find_rw_set rq pi cpu ss_on_exit machine run_fuel verbose_p new_thread)
          Good
          (λ i. (executables i).func_addr)
          n
          rd
          wr
      → Good 0 s
      → Additional extra g
      → equiv_checker_run x memory init call rq pi cpu ss_on_exit machine run_fuel fuel verbose_p
          new_thread threads executables n ncs extra s
        ≡ some (reports, last)
      → (shared : SetT) × Denotes shared (λ v. raced rd wr n v || g v)
        × All (λ r. All (IsSound shared (λ v. raced rd wr n v || g v) s.0 r.0) r.1) reports
  unfolding equiv_checker_run
  equiv_checker_run-IsSound Good rd wr extra g ncs s last reports some_func small traces good add
        ran =
      let (found, s1, ran1, df, good1) =
        find_shared_memory-raced
          (find_rw_set rq pi cpu ss_on_exit machine run_fuel verbose_p new_thread) Good
          (λ i. (executables i).func_addr) n rd wr traces ((λ i. null), (λ i. null)) set_alloc
          (λ v. false) s alloc-Denotes good in
      let (shared, ran2, ds) =
        add_shared-Denotes extra found (λ v. false || raced rd wr n v) g df add in
      let (rows, ran3, ran4, _, every) = get_func_permutations-Reorders n some_func small in
      let (w, valid_hashes, ran5, dv) =
        find_good_hashes-Denotes x streams word memory init call executables n
          (λ i. entry (row_at rows i)) shared (λ v. raced rd wr n v || g v) ds (length rows) s1.0
          set_alloc (λ v. false) alloc-Denotes in
      let (_, _, h) = >>=-eq-some (assert (truthy ncs)) _ _ ran in
      let h' = rw (ran1, ran2, ran4, ran3, ran5) at h in
      let (out, looped, h2) =
        >>=-eq-some
          (for_loop ncs 1
            (check_round x memory init call rq pi cpu ss_on_exit machine run_fuel fuel verbose_p
              new_thread threads executables n valid_hashes shared)
            ([], (w, s1.1)))
          _ _ h' in
      let (_, _, h3) = >>=-eq-some (set_free valid_hashes) _ _ h2 in
      let (_, _, h4) = >>=-eq-some (set_free shared) _ _ h3 in
      let listed : out.0 ≡ reports = cc in
      let bytes : ℕ → Bool = λ v. raced rd wr n v || g v in
      let sound =
        for_loop_keeps (AllSound rows every shared valid_hashes bytes s1.0 s.0 ds dv)
          (check_round x memory init call rq pi cpu ss_on_exit machine run_fuel fuel verbose_p
            new_thread threads executables n valid_hashes shared)
          ncs 1 ([], (w, s1.1)) out
          (λ i t u keep step.
            check_round-AllSound rows every shared valid_hashes bytes s1.0 s.0 ds dv i t u keep
              step)
          tt looped in
      (shared, ds, subst (All (λ r. All (IsSound shared bytes s.0 r.0) r.1)) listed sound)
