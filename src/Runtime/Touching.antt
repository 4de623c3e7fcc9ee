-- ===== src/Runtime/Touching.antt =====
-- equiv-threads.c, `ctx_switch_handler`: which accesses count as touches of shared memory.
use thread_equivalence_check.Base.{
  ℕ, ◌<◌, ◌^◌, ◌≡◌, refl, Option, none, some, Bool, true, false, ◌&&◌, ◌==◌, ltb, arith,
}
use thread_equivalence_check.TrieSet.{SetT, set_alloc, set_alloc_offset, set_mk}
use thread_equivalence_check.TrieSet.Free.{free_total}
use thread_equivalence_check.TrieSet.Spec.{Denotes, intersection-Denotes}
use thread_equivalence_check.TrieSet.Count.{empty-Denotes}
use thread_equivalence_check.Runtime.{ScheduleT, State}
use thread_equivalence_check.Runtime.Handlers.{touch_scheduled, ctx_switch_handler}
use thread_equivalence_check.TrieSet.Wf.{root-not-null}

-- The report, if there is one, has `pc` for the switch `c` and the instruction `i`, and is otherwise
-- as before.
abbrev pub IsReported : Option (ℕ → ℕ → ℕ) → Option (ℕ → ℕ → ℕ) → ℕ → ℕ → ℕ → Type 0
IsReported none none c i pc = Unit
IsReported none (some pcs') c i pc = ⊥
IsReported (some pcs) none c i pc = ⊥
IsReported (some pcs) (some pcs') c i pc =
    (pcs' c i ≡ pc) × ((a b : ℕ) → (a == c && b == i) ≡ false → pcs' a b ≡ pcs a b)

-- The next step counts the touch; the schedule has the PC in its report, and nothing else changes.
pub record IsMarked {Q : Type 0} (sched : ScheduleT) (pc : ℕ) (st st' : State Q) : Type 0 where
  pub counts : st'.ctx_switch_status.do_instr_count ≡ 1
  pub same_switch : st'.ctx_switch_status.ctx_switch ≡ st.ctx_switch_status.ctx_switch
  pub same_count : st'.ctx_switch_status.instr_count ≡ st.ctx_switch_status.instr_count
  pub same_yield : st'.ctx_switch_status.yielded ≡ st.ctx_switch_status.yielded
  pub sched' : ScheduleT
  pub scheduled : st'.schedule ≡ some sched'
  pub same_tids : sched'.tids ≡ sched.tids
  pub same_limits : sched'.instr_counts ≡ sched.instr_counts
  pub same_switches : sched'.n_ctx_switches ≡ sched.n_ctx_switches
  pub reported :
      IsReported sched.report sched'.report st.ctx_switch_status.ctx_switch
        st.ctx_switch_status.instr_count pc
  pub same_thread : st'.cur_thread ≡ st.cur_thread
  pub same_queue : st'.equiv_runq ≡ st.equiv_runq
  pub same_heap : st'.heap ≡ st.heap
  pub same_tracker : st'.current_tracker ≡ st.current_tracker

module _ {Q : Type 0} (st : State Q) (sched : ScheduleT) (shared touched : SetT) (f g : ℕ → Bool)
    (s : st.schedule ≡ some sched) (m : st.shared_memory ≡ some shared)
    (left : st.ctx_switch_status.ctx_switch < sched.n_ctx_switches) (df : Denotes shared f)
    (dg : Denotes touched g) (pc : ℕ) where
  -- An access to bytes none of which is shared changes nothing.
  no-touch-Denotes :
      ((v : ℕ) → v < 2 ^ 32 → (f v && g v) ≡ false) → ctx_switch_handler touched pc st ≡ some st
  unfolding ctx_switch_handler touch_scheduled set_alloc set_alloc_offset set_mk
  no-touch-Denotes none_shared =
      let (i, ran, di) = intersection-Denotes shared touched f g df dg 0 (λ c. SetT.null) in
      let low : ltb st.ctx_switch_status.ctx_switch sched.n_ctx_switches ≡ true = ground arith in
      let nothing = (empty-Denotes i (λ w. f w && g w) di).0 none_shared in
      rw (s, low, m, ran, nothing, free_total i (root-not-null i di.wf)) refl
