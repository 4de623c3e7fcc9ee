-- ===== src/Interleaver/Advance.antt =====
-- interleaver.c, `run_interleavings`: the arrays of the next round.
use thread_equivalence_check.Base.{
  ℕ, ◌+◌, ◌-◌, ◌≤◌, ◌<◌, ◌^◌, ◌≡◌, refl, ◌∙◌, some, List, true, false, ◌==◌, ltb, add32, length,
  get_elem?, set, length-set, get_elem?-set_self, get_elem?-set_ne, inl, inr, Bool-cases, arith,
}
use thread_equivalence_check.Base.Loops.{for_loop_inv}
use thread_equivalence_check.Schedule.Value.{InRange}
use thread_equivalence_check.Schedule.Next.{Outcome, next_tid-Outcome}
use thread_equivalence_check.Interleaver.{reset_from, advance}

-- The array with the entries from `i` up to `n` set to 1.
abbrev pub ResetFrom : ℕ → ℕ → List ℕ → List ℕ → Type 0
ResetFrom i n xs ys =
    (length ys ≡ length xs)
    × ((j : ℕ) → j < i → get_elem? ys j ≡ get_elem? xs j)
    × ((j : ℕ) → i ≤ j → j < n → get_elem? ys j ≡ some 1)

reset_from-ResetFrom :
    (ncs i : ℕ) (xs : List ℕ)
    → i ≤ ncs
    → ncs ≤ length xs
    → (ys : List ℕ) × (reset_from ncs i xs ≡ some ys) × ResetFrom i ncs xs ys
unfolding reset_from
reset_from-ResetFrom ncs i xs h long =
    for_loop_inv (λ n ys. ResetFrom i n xs ys) (λ j ys. some (set ys j 1)) (ncs - i) i ncs xs
      (omega arith)
      (λ n ys low high (l, kept, ones). (
        set ys n 1,
        refl,
        (
          length-set ys n 1 ∙ l,
          (λ j lt. get_elem?-set_ne ys n j 1 (omega arith) ∙ kept j lt),
          λ j ge lt. elim (Bool-cases (j == n)) [
            | inl e ↦
                let e' : j ≡ n = ground arith in
                rw e' (get_elem?-set_self ys n 1 (omega (arith, l)))
            | inr ne ↦ get_elem?-set_ne ys n j 1 (ground arith) ∙ ones j ge (ground arith)
          ],
        ),
      ))
      (refl, (λ j lt. refl), λ j ge lt. absurd (omega arith))

-- The next counts: slot `k` counts one more, the slots before it are
-- kept, and the slots after it start at 1.
abbrev pub NextCounts : ℕ → ℕ → List ℕ → List ℕ → Type 0
NextCounts k ncs xs ys =
    (length ys ≡ length xs)
    × ((j : ℕ) → j < k → get_elem? ys j ≡ get_elem? xs j)
    × ((a : ℕ) × (get_elem? xs k ≡ some a) × (get_elem? ys k ≡ some (a + 1)))
    × ((j : ℕ) → k < j → j < ncs → get_elem? ys j ≡ some 1)

pub advance-NextCounts :
    (ncs num_funcs k a : ℕ) (tids instr_nums : List ℕ)
    → length instr_nums ≡ ncs
    → get_elem? instr_nums k ≡ some a
    → a + 1 < 2 ^ 32
    → k < ncs
    → (ys : List ℕ) × (advance ncs num_funcs (k + 1) tids instr_nums ≡ some ((tids, ys), false))
      × NextCounts k ncs instr_nums ys
unfolding advance
advance-NextCounts ncs num_funcs k a tids instr_nums l old word h =
    let (ys, ran, (len, kept, ones)) =
      reset_from-ResetFrom ncs (k + 1) (set instr_nums k (a + 1)) (omega arith)
        (omega (arith, length-set instr_nums k (a + 1))) in
    let pos : ltb 0 (k + 1) ≡ true = ground arith in
    let back : k + 1 - 1 ≡ k = omega arith in
    let inc : add32 a 1 ≡ a + 1 = omega arith in
    (
      ys,
      rw (pos, back, old, inc, ran) refl,
      (
        len ∙ length-set instr_nums k (a + 1),
        (λ j lt. kept j (omega arith) ∙ get_elem?-set_ne instr_nums k j (a + 1) (omega arith)),
        (a, old, kept k (omega arith) ∙ get_elem?-set_self instr_nums k (a + 1) (omega arith)),
        λ j gt lt. ones j (omega arith) lt,
      ),
    )

-- After a run without a context switch there are as many counts, all 1 again, and the thread ids are
-- the next valid ones; the loop is done exactly if there are none.
pub advance-Outcome :
    (ncs num_funcs : ℕ) (tids instr_nums : List ℕ)
    → length instr_nums ≡ ncs
    → 1 ≤ num_funcs
    → num_funcs + 1 < 2 ^ 32
    → InRange num_funcs tids
    → (ys : List ℕ) × (out : List ℕ × ℕ) × (advance ncs num_funcs 0 tids instr_nums
        ≡ some ((out.0, ys), out.1 == 0))
      × Outcome num_funcs tids out
      × (length ys ≡ length instr_nums)
      × ((j : ℕ) → j < ncs → get_elem? ys j ≡ some 1)
unfolding advance
advance-Outcome ncs num_funcs tids instr_nums l h word r =
    let (ys, ran, (len, kept, ones)) =
      reset_from-ResetFrom ncs 0 instr_nums (omega arith) (omega (arith, l)) in
    let (out, ran', res) = next_tid-Outcome num_funcs tids h word r in
    (ys, out, rw (ran, ran') refl, res, len, λ j lt. ones j (omega arith) lt)
