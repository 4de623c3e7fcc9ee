-- ===== src/Interleaver/Verdicts.antt =====
-- interleaver.c, `run_interleavings`: which runs are reported.
use thread_equivalence_check.Base.{
  ℕ, ◌<◌, ◌^◌, ◌≡◌, refl, some, map, Bool, ◌==◌, truthy, if◌then◌else◌, not, ◌&&◌, inl, inr,
  Bool-cases,
}
use thread_equivalence_check.TrieSet.{SetT}
use thread_equivalence_check.TrieSet.Spec.{Denotes}
use thread_equivalence_check.TrieSet.Count.{values}
use thread_equivalence_check.Memory.{Xxh32}
use thread_equivalence_check.Memory.Hash.{Streams, hash_mem-Denotes}
use thread_equivalence_check.Runtime.{CtxSwitchStatus}
use thread_equivalence_check.Interleaver.{invalid, valid, unfinished, judge}

-- A run is reported as invalid exactly if it made all its context switches, did not yield, and the
-- hash of the shared bytes is none of the valid ones; as valid if it is one of them; and any other
-- run is not judged.
pub judge_lem :
    {H : Type 0} (x : Xxh32 H)
    → Streams x
    → ((h : H) → x.digest h < 2 ^ 32)
    → (memory : ℕ → ℕ) (ncs : ℕ) (shared valid_hashes : SetT) (bytes good : ℕ → Bool)
    → Denotes shared bytes
    → Denotes valid_hashes good
    → (status : CtxSwitchStatus)
    → judge x memory ncs shared valid_hashes status
      ≡ some (
          if not (truthy status.yielded) && status.ctx_switch == ncs
          then (if good (x.digest (x.update x.create (map memory (values bytes))))
              then valid
              else invalid)
          else unfinished)
unfolding judge
judge_lem x streams word memory ncs shared valid_hashes bytes good ds dv status =
    let looked = dv.look (x.digest (x.update x.create (map memory (values bytes)))) (word _) in
    elim (Bool-cases (not (truthy status.yielded) && status.ctx_switch == ncs)) [
      | inl judged ↦
          rw (judged, hash_mem-Denotes x streams memory shared bytes ds, looked)
            (elim (Bool-cases (good (x.digest (x.update x.create (map memory (values bytes)))))) [
              | inl e ↦ rw e refl
              | inr e ↦ rw e refl
            ])
      | inr left ↦ rw left refl
    ]
