-- ===== src/Schedule/Value.antt =====
-- The number that an array of thread ids stands for, and one step of the odometer.
use native.Mathlib.Nat.{pow-zero, pow-succ', mul-le-mul_left, mul-add, mul_comm, mul_assoc, mul-suc}
use thread_equivalence_check.Base.{
  ℕ, suc, ◌+◌, ◌-◌, ◌*◌, ◌^◌, ◌≤◌, ◌<◌, ◌≡◌, ◌⊎◌, refl, ap, inl, inr, List, [], ◌∷◌, ◌==◌, ltb,
  if◌then◌else◌, add32, length, All, arith, Bool-cases,
}
use thread_equivalence_check.Schedule.{carry_over}

-- Every entry is the id of a thread.
abbrev pub InRange : ℕ → List ℕ → Type 0
InRange n = All (λ t. (1 ≤ t) × (t ≤ n))

-- The first entry counts ones.
unfoldable pub value : ℕ → List ℕ → ℕ
value n [] = 0
value n (t ∷ ts) = (t - 1) + n * value n ts

pub value-lt-pow : (n : ℕ) (ts : List ℕ) → 1 ≤ n → InRange n ts → value n ts < n ^ length ts
unfolding value
value-lt-pow n [] h r = omega (arith, pow-zero n)
value-lt-pow n (t ∷ ts) h (rt, rs) =
    let rest : value n ts + 1 ≤ n ^ length ts = omega (arith, value-lt-pow n ts h rs) in
    let scaled = mul-le-mul_left n rest in
    rw (pow-succ' n (length ts)) (omega (arith, scaled, mul-add n (value n ts) 1))

abbrev pub Carried : ℕ → ℕ → List ℕ → List ℕ × ℕ → Type 0
Carried n c ts out =
    InRange n out.0
    × (length out.0 ≡ length ts)
    × (out.1 ≤ 1)
    × (value n out.0 + out.1 * n ^ length ts ≡ value n ts + c)

bump : (n c t : ℕ) → n + 1 < 2 ^ 32 → c ≤ 1 → t ≤ n → (if c == 0 then t else add32 t 1) ≡ t + c
bump n c t w b h = ground arith

-- One digit: `v` and `p` stand for the digits after it.
digit :
    (n c t u d v v' p : ℕ) → u + d * n ≡ t + c → v' + p ≡ v + d → u + n * v' + n * p ≡ t + n * v + c
digit n c t u d v v' p e h =
    let scaled : n * v' + n * p ≡ n * v + d * n =
      rw (← mul-add n v' p, h, mul-add n v d, mul_comm n d) refl in
    omega (arith, scaled, e)

carry_out : (n d k : ℕ) → d * n ^ suc k ≡ n * (d * n ^ k)
carry_out n d k =
    rw (pow-succ' n k, ← mul_assoc d n (n ^ k), mul_comm d n, mul_assoc n d (n ^ k)) refl

pub carry_over-value :
    (n c : ℕ) (ts : List ℕ)
    → 1 ≤ n
    → n + 1 < 2 ^ 32
    → c ≤ 1
    → InRange n ts
    → Carried n c ts (carry_over n c ts)
unfolding carry_over value
carry_over-value n c [] h w b r = (tt, refl, b, rw (pow-zero n) (omega arith))
carry_over-value n c (t ∷ ts) h w b (rt, rs) =
    rw (bump n c t w b rt.1) (elim (Bool-cases (ltb n (t + c))) [
      | inl e ↦
          let (r, l, d, s) = carry_over-value n 1 ts h w (omega arith) rs in
          rw e (
            ((omega arith), r),
            ap suc l,
            d,
            rw (carry_out n (carry_over n 1 ts).1 (length ts))
                (digit n c (t - 1) 0 1 _ _ _ (ground arith) s),
          )
      | inr e ↦
          let (r, l, d, s) = carry_over-value n 0 ts h w (omega arith) rs in
          rw e (
            (ground arith, r),
            ap suc l,
            d,
            rw (carry_out n (carry_over n 0 ts).1 (length ts))
                (digit n c (t - 1) (t + c - 1) 0 _ _ _ (omega arith) s),
          )
    ])

mul-lt : (n x y : ℕ) → x < y → n * x + n ≤ n * y
mul-lt n x y h = let scaled = mul-le-mul_left n h in omega (arith, scaled, mul-suc n x)

trichotomy : (v w : ℕ) → ((v < w) ⊎ (v ≡ w)) ⊎ (w < v)
trichotomy v w = elim (Bool-cases (ltb v w)) [
  | inl h ↦ inl (inl (ground arith))
  | inr h ↦ elim (Bool-cases (v == w)) [
    | inl e ↦ inl (inr (ground arith))
    | inr e ↦ inr (ground arith)
  ]
]

quotient_unique : (n a b v w : ℕ) → a < n → b < n → a + n * v ≡ b + n * w → v ≡ w
quotient_unique n a b v w ha hb e = elim (trichotomy v w) [
  | inl (inl h) ↦ omega (arith, e, mul-lt n v w h)
  | inl (inr h) ↦ h
  | inr h ↦ omega (arith, e, mul-lt n w v h)
]

pub value-inj :
    (n : ℕ) (ts us : List ℕ)
    → InRange n ts
    → InRange n us
    → length ts ≡ length us
    → value n ts ≡ value n us
    → ts ≡ us
unfolding value
value-inj n [] [] rt ru l e = refl
value-inj n [] (u ∷ us) rt ru l e = absurd (omega (arith, l))
value-inj n (t ∷ ts) [] rt ru l e = absurd (omega (arith, l))
value-inj n (t ∷ ts) (u ∷ us) (rt, rts) (ru, rus) l e =
    let high =
      quotient_unique n (t - 1) (u - 1) (value n ts) (value n us) (omega arith) (omega arith) e in
    let low : t ≡ u = omega (arith, e, ap (λ x. n * x) high) in
    let rest : ts ≡ us = value-inj n ts us rts rus (omega (arith, l)) high in rw (low, rest) refl
