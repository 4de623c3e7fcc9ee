-- ===== src/Schedule/Tests.antt =====
-- The step of the schedule's thread ids on small arrays.
use thread_equivalence_check.Base.{ℕ, ◌≡◌, refl, arith, Option, some, List, [], ◌∷◌}
use thread_equivalence_check.Schedule.{tids_valid, carry_over, next_fuel, next_tid}
use thread_equivalence_check.Schedule.Next.{Outcome, next_tid-Outcome}

step : List ℕ → ℕ → Option (List ℕ × ℕ)
unfolding tids_valid carry_over next_fuel next_tid
step tids n = next_tid tids n

first : step (1 ∷ 1 ∷ 1 ∷ []) 3 ≡ some (1 ∷ 2 ∷ 1 ∷ [], 1)
unfolding step
first = refl

last : step (2 ∷ 1 ∷ 2 ∷ []) 2 ≡ some (1 ∷ 1 ∷ 1 ∷ [], 0)
unfolding step
last = refl

next_tid-Outcome_example :
    (out : List ℕ × ℕ) × (next_tid (1 ∷ 1 ∷ 1 ∷ []) 3 ≡ some out) × Outcome 3 (1 ∷ 1 ∷ 1 ∷ []) out
next_tid-Outcome_example =
    next_tid-Outcome 3 (1 ∷ 1 ∷ 1 ∷ []) (omega arith) (omega arith)
      ((omega arith, omega arith), ((omega arith, omega arith), ((omega arith, omega arith), tt)))
