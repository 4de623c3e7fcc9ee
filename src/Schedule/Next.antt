-- ===== src/Schedule/Next.antt =====
-- interleaver.c, `next_tid`: what the function returns.
use thread_equivalence_check.Base.{
  ℕ, zero, suc, ◌+◌, ◌*◌, ◌^◌, ◌≤◌, ◌<◌, ◌≡◌, ◌⊎◌, refl, ap, sym, ◌∙◌, inl, inr, some, List, [],
  ◌∷◌, ◌==◌, length, true, false, arith, Bool-cases,
}
use thread_equivalence_check.Schedule.{tids_valid, carry_over, next_fuel, next_tid}
use thread_equivalence_check.Schedule.Value.{
  InRange, value, value-lt-pow, value-inj, carry_over-value,
}

-- `us` comes after `ts` in the order of the odometer.
abbrev pub After : ℕ → List ℕ → List ℕ → Type 0
After n ts us = InRange n us × (length us ≡ length ts) × (value n ts < value n us)

-- A next array is valid and everything between is not.
abbrev pub NextOf : ℕ → List ℕ → List ℕ → Type 0
NextOf n ts next =
    After n ts next
    × (tids_valid next ≡ 1)
    × ((us : List ℕ) → After n ts us → value n us < value n next → tids_valid us ≡ 0)

abbrev pub LastOf : ℕ → List ℕ → Type 0
LastOf n ts = (us : List ℕ) → After n ts us → tids_valid us ≡ 0

-- What the function leaves: 1 and the next valid array, or 0 and there is none.
abbrev pub Outcome : ℕ → List ℕ → List ℕ × ℕ → Type 0
Outcome n ts out = ((out.1 ≡ 1) × NextOf n ts out.0) ⊎ ((out.1 ≡ 0) × LastOf n ts)

tids_valid-bit : (ts : List ℕ) → (tids_valid ts ≡ 0) ⊎ (tids_valid ts ≡ 1)
unfolding tids_valid
tids_valid-bit [] = inr refl
tids_valid-bit (t ∷ []) = inr refl
tids_valid-bit (t ∷ u ∷ ts) = elim (Bool-cases (t == u)) [
  | inl e ↦ inl (rw e refl)
  | inr e ↦ rw e (tids_valid-bit (u ∷ ts))
]

-- One step up: everything after `ts` is `us` or after `us`.
step_up :
    (n : ℕ) (ts us vs : List ℕ)
    → InRange n us
    → length us ≡ length ts
    → value n us ≡ value n ts + 1
    → After n ts vs
    → (vs ≡ us) ⊎ After n us vs
step_up n ts us vs r l e (rv, lv, h) = elim (Bool-cases (value n vs == value n us)) [
  | inl same ↦ inl (value-inj n vs us rv r (lv ∙ sym l) (ground arith))
  | inr other ↦ inr (rv, lv ∙ sym l, ground arith)
]

skip_invalid :
    (n : ℕ) (ts us : List ℕ) (out : List ℕ × ℕ)
    → InRange n us
    → length us ≡ length ts
    → value n us ≡ value n ts + 1
    → tids_valid us ≡ 0
    → Outcome n us out
    → Outcome n ts out
skip_invalid n ts us out r l e bad (inr (z, last)) =
    inr (
      z,
      λ vs a. elim (step_up n ts us vs r l e a) [ inl same ↦ rw same bad | inr a' ↦ last vs a' ],
    )
skip_invalid n ts us out r l e bad (inl (one, ((ro, lo, ho), ok, between))) = inl (
  one,
  (
    (ro, lo ∙ l, omega (arith, e, ho)),
    ok,
    λ vs a low. elim (step_up n ts us vs r l e a) [
      | inl same ↦ rw same bad
      | inr a' ↦ between vs a' low
    ],
  ),
)

wrapped : (n : ℕ) (ts : List ℕ) → 1 ≤ n → n ^ length ts ≤ value n ts + 1 → LastOf n ts
wrapped n ts h top us (r, l, low) = absurd (
    let below = value-lt-pow n us h r in
    let same : n ^ length us ≡ n ^ length ts = ap (λ k. n ^ k) l in omega (arith, below, same))

no_carry : (c v x p : ℕ) → (c == 0) ≡ true → v + c * p ≡ x + 1 → v ≡ x + 1
no_carry c v x p z s = let e : c ≡ 0 = ground arith in omega (arith, s, ap (λ k. k * p) e)

carried : (c v x p : ℕ) → (c == 0) ≡ false → c ≤ 1 → v + c * p ≡ x + 1 → p ≤ x + 1
carried c v x p z b s = let e : c ≡ 1 = ground arith in omega (arith, s, ap (λ k. k * p) e)

next_fuel-Outcome :
    (fuel n : ℕ) (ts : List ℕ)
    → 1 ≤ n
    → n + 1 < 2 ^ 32
    → InRange n ts
    → n ^ length ts ≤ value n ts + fuel
    → (out : List ℕ × ℕ) × (next_fuel fuel n ts ≡ some out) × Outcome n ts out
unfolding next_fuel
next_fuel-Outcome zero n ts h w r enough =
    let below = value-lt-pow n ts h r in absurd (omega (arith, below, enough))
next_fuel-Outcome (suc fuel) n ts h w r enough =
    let (r', l, b, s) = carry_over-value n 1 ts h w (omega arith) r in
    elim (Bool-cases ((carry_over n 1 ts).1 == 0)) [
      | inl z ↦
          let up : value n (carry_over n 1 ts).0 ≡ value n ts + 1 = no_carry _ _ _ _ z s in
          elim (tids_valid-bit (carry_over n 1 ts).0) [
            | inl bad ↦
                let (out, ran, res) =
                  next_fuel-Outcome fuel n (carry_over n 1 ts).0 h w r'
                    (rw l (omega (arith, up, enough))) in
                (out, rw (z, bad) ran, skip_invalid n ts (carry_over n 1 ts).0 out r' l up bad res)
            | inr ok ↦ (
              ((carry_over n 1 ts).0, 1),
              rw (z, ok) refl,
              inl (
                refl,
                ((r', l, omega (arith, up)), ok, λ us a low. absurd (omega (arith, up, low, a.2))),
              ),
            )
          ]
      | inr nz ↦ (
        ((carry_over n 1 ts).0, 0),
        rw nz refl,
        inr (refl, wrapped n ts h (carried _ _ _ _ nz b s)),
      )
    ]

-- On thread ids from 1 to `num_funcs` the loop ends, and the function either returns 1 and the next
-- array in which no thread follows itself, with every array between the two invalid, or returns 0,
-- and then no valid array is left.
pub next_tid-Outcome :
    (num_funcs : ℕ) (tids : List ℕ)
    → 1 ≤ num_funcs
    → num_funcs + 1 < 2 ^ 32
    → InRange num_funcs tids
    → (out : List ℕ × ℕ) × (next_tid tids num_funcs ≡ some out) × Outcome num_funcs tids out
unfolding next_tid
next_tid-Outcome n ts h w r = next_fuel-Outcome (n ^ length ts) n ts h w r (omega arith)
