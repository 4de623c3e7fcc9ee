-- ===== src/Permutations/Factorial.antt =====
-- permutations.c: `factorial` against the factorial without bounds.
use native.Mathlib.Nat.{mod-add-div, add-mul-mod_self_left, add-mul, mul_assoc, mul_comm}
use thread_equivalence_check.Base.{
  ℕ, zero, suc, ◌+◌, ◌*◌, ◌%◌, ◌/◌, ◌^◌, ◌≡◌, refl, sym, ap, ◌∙◌, some, arith,
}
use thread_equivalence_check.Base.Loops.{for_loop}
use thread_equivalence_check.Permutations.{factorial}
use thread_equivalence_check.Permutations.Orders.{fact}

mod-mul : (a b m : ℕ) → (a % m) * b % m ≡ a * b % m
mod-mul a b m = sym (
    ap (λ x. x * b % m) (sym (mod-add-div a m))
    ∙ ap (λ x. x % m)
        (add-mul (a % m) (m * (a / m)) b ∙ ap (λ x. (a % m) * b + x) (mul_assoc m (a / m) b))
    ∙ add-mul-mod_self_left ((a % m) * b) m (a / m * b))

rounds :
    (k j : ℕ)
    → for_loop k (suc j) (λ i fact. some (fact * i % 2 ^ 32)) (fact j % 2 ^ 32)
      ≡ some (fact (j + k) % 2 ^ 32)
unfolding for_loop fact
rounds zero j = rw (let e : j + 0 ≡ j = omega arith in e) refl
rounds (suc k) j =
    let next : suc j + 1 ≡ suc (suc j) = omega arith in
    let total : j + suc k ≡ suc j + k = omega arith in
    rw (mod-mul (fact j) (suc j) (2 ^ 32), mul_comm (fact j) (suc j), next, total)
      (rounds k (suc j))

-- For every number, `factorial` finishes, and its value is the factorial without bounds, in 32 bits that wrap around.
pub factorial-fact : (n : ℕ) → factorial n ≡ some (fact n % 2 ^ 32)
unfolding factorial fact
factorial-fact n =
    let same : some (fact (0 + n) % 2 ^ 32) ≡ some (fact n % 2 ^ 32) =
      ap (λ x. some (fact x % 2 ^ 32)) (let e : 0 + n ≡ n = omega arith in e) in
    rounds n 0 ∙ same
