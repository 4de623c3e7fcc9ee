-- ===== src/Runtime/Turns.antt =====
-- equiv-threads.c, the system call to yield, one thread after the other.
use mathlib.Core.List.{append_assoc}
use thread_equivalence_check.Base.{
  ℕ, zero, suc, ◌≤◌, ◌≡◌, refl, ◌∙◌, Option, none, some, List, [], ◌∷◌, ◌++◌, true, truthy, length,
  ◌>>=◌, >>=-some, arith,
}
use thread_equivalence_check.Runtime.{CtxSwitchStatus, RunQueue, State}
use thread_equivalence_check.Runtime.Threads.{mismatch_pc_set, mismatch_run}
use thread_equivalence_check.Runtime.Handlers.{switches, sys_yield}
use thread_equivalence_check.Runtime.Roster.{occurs, occurs-append, absent, one_self}

module _ {Q : Type 0} (rq : RunQueue Q) where
  -- The current thread yields, and then the next one, `n` times.
  pub yields : ℕ → State Q → Option (State Q)
  yields zero st = some st
  yields (suc n) st = do cur ← st.cur_thread; (st', ending) ← sys_yield rq cur st; yields n st'

  -- `cur` has yielded to `next`, and stands behind the others.
  record Yielded (cur next : ℕ) (rest : List ℕ) (st st' : State Q) : Type 0 where
    ran : sys_yield rq cur st ≡ some (st', switches)
    current : st'.cur_thread ≡ some next
    queue : rq.items st'.equiv_runq ≡ rest ++ cur ∷ []
    stepping : st'.single_step_on_p ≡ st.single_step_on_p

  yield-Yielded :
      (cur next : ℕ) (rest : List ℕ) (st : State Q)
      → rq.items st.equiv_runq ≡ next ∷ rest
      → occurs cur (next ∷ rest) ≡ 0
      → truthy st.single_step_on_p ≡ true
      → (st' : State Q) × Yielded cur next rest st st'
  unfolding sys_yield mismatch_run mismatch_pc_set
  yield-Yielded cur next rest st e none_yet on =
      let behind : rq.items (rq.eq_append st.equiv_runq cur) ≡ next ∷ (rest ++ cur ∷ []) =
        rq.append_items st.equiv_runq cur (rw e (absent cur (next ∷ rest) none_yet)) ∙ rw e refl in
      let (q', popped, same) =
        rq.pop_cons (rq.eq_append st.equiv_runq cur) next (rest ++ cur ∷ []) behind in
      let status : CtxSwitchStatus = record (st.ctx_switch_status) { yielded = 1 } in
      let st' : State Q = record st {
        schedule = none;
        ctx_switch_status = status;
        equiv_runq = q';
        cur_thread = some next;
        breakpoint = (st.heap next).regs 15;
      } in
      (st', record { ran = rw (popped, on) refl; current = refl; queue = same; stepping = refl })

  rotated :
      (cur m p : ℕ) (pre post : List ℕ) (x : ℕ)
      → occurs x (m ∷ (pre ++ p ∷ (post ++ cur ∷ []))) ≡ occurs x (cur ∷ (m ∷ pre) ++ p ∷ post)
  unfolding occurs
  rotated cur m p pre post x = omega (
    arith,
    occurs-append x pre (p ∷ (post ++ cur ∷ [])),
    occurs-append x post (cur ∷ []),
    occurs-append x pre (p ∷ post),
  )

  first : (cur : ℕ) (xs : List ℕ) → occurs cur (cur ∷ xs) ≤ 1 → occurs cur xs ≡ 0
  unfolding occurs
  first cur xs h = omega (arith, h, one_self cur)

  -- A thread in the queue becomes the current one when each thread before it, and the current one,
  -- has yielded once; then those stand behind the others, in their order.
  pub yields-reaches :
      (pre : List ℕ) (p : ℕ) (post : List ℕ) (cur : ℕ) (st : State Q)
      → st.cur_thread ≡ some cur
      → rq.items st.equiv_runq ≡ pre ++ p ∷ post
      → ((x : ℕ) → occurs x (cur ∷ pre ++ p ∷ post) ≤ 1)
      → truthy st.single_step_on_p ≡ true
      → (st' : State Q) × (yields (suc (length pre)) st ≡ some st')
        × (st'.cur_thread ≡ some p)
        × (rq.items st'.equiv_runq ≡ post ++ cur ∷ pre)
  unfolding yields
  yields-reaches [] p post cur st c e once on =
      let (st', y) = yield-Yielded cur p post st e (first cur (p ∷ post) (once cur)) on in
      (
        st',
        >>=-some _ _ cur st' c (>>=-some _ _ (st', switches) st' y.ran refl),
        y.current,
        y.queue,
      )
  yields-reaches (m ∷ pre) p post cur st c e once on =
      let (st1, y) =
        yield-Yielded cur m (pre ++ p ∷ post) st e (first cur (m ∷ pre ++ p ∷ post) (once cur))
          on in
      let e1 : rq.items st1.equiv_runq ≡ pre ++ p ∷ (post ++ cur ∷ []) =
        y.queue ∙ append_assoc pre (p ∷ post) (cur ∷ []) in
      let on1 : truthy st1.single_step_on_p ≡ true = rw y.stepping on in
      let (st', ran, now, queue) =
        yields-reaches pre p (post ++ cur ∷ []) m st1 y.current e1
          (λ x. rw (rotated cur m p pre post x) (once x)) on1 in
      (
        st',
        >>=-some _ _ cur st' c (>>=-some _ _ (st1, switches) st' y.ran ran),
        now,
        queue ∙ append_assoc post (cur ∷ []) (m ∷ pre),
      )
