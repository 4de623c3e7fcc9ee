-- ===== src/Runtime/RosterTests.antt =====
-- Three threads, of which the first one runs.
use thread_equivalence_check.Base.{ℕ, ◌≤◌, ◌≡◌, refl, some, List, [], ◌∷◌, OnSome, arith}
use thread_equivalence_check.TrieSet.{set_alloc}
use thread_equivalence_check.Runtime.{Regs, State}
use thread_equivalence_check.Runtime.Tests.{list_queue, pi, state_at}
use thread_equivalence_check.Runtime.Handlers.{prefetch_abort, handle}
use thread_equivalence_check.Runtime.Roster.{occurs}
use thread_equivalence_check.Runtime.Kept.{roster}
use thread_equivalence_check.Runtime.Conserved.{Accounts, handle-Accounts}
use thread_equivalence_check.Runtime.Turns.{yields, yields-reaches}

abbrev three : State (List ℕ)
three = state_at 1 set_alloc

abbrev at_8 : Regs
at_8 r = 8

once_each : (x : ℕ) → roster list_queue three x ≤ 1
unfolding occurs
once_each x = ground arith

handle-Accounts_example :
    OnSome
      (Accounts list_queue three (prefetch_abort at_8))
      (handle list_queue pi 99 (prefetch_abort at_8) three)
handle-Accounts_example = handle-Accounts list_queue three once_each pi 99 (prefetch_abort at_8)

once_listed : (x : ℕ) → occurs x (1 ∷ 2 ∷ 3 ∷ []) ≤ 1
unfolding occurs
once_listed x = ground arith

yields-reaches_example :
    (st' : State (List ℕ)) × (yields list_queue 2 three ≡ some st')
    × (st'.cur_thread ≡ some 3)
    × (st'.equiv_runq ≡ 1 ∷ 2 ∷ [])
yields-reaches_example = yields-reaches list_queue (2 ∷ []) 3 [] 1 three refl refl once_listed refl
