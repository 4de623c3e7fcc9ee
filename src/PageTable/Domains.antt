-- ===== src/PageTable/Domains.antt =====
-- equiv-mmu.h, `dom_perm`: two bits of access for each domain.
use native.Mathlib.Nat.{pow-suc, mod-eq_of_lt, pow-le-pow_right, mul-le-mul_right, one-le-pow}
use thread_equivalence_check.Base.{
  ℕ, zero, suc, ◌+◌, ◌*◌, ◌/◌, ◌%◌, ◌^◌, ◌≤◌, ◌<◌, ◌≡◌, refl, ap, ◌∙◌, inl, inr, ◌≢◌, true, false,
  Bool-cases, some, ◌==◌, leb, if◌then◌else◌, bit_and, bit_or, truthy, arith,
}
use thread_equivalence_check.Base.Bits.{
  bit, bit-lt, shl, shr, shl-one, bit_and-pow, bit_or-fields, bit_or_comm,
}
use thread_equivalence_check.Base.Loops.{for_loop_inv}
use thread_equivalence_check.PageTable.{dom_perm}

-- The access of domain `i` in the word.
unfoldable pub access : ℕ → ℕ → ℕ
access zero m = m % 4
access (suc i) m = access i (m / 4)

four : (n : ℕ) → 2 ^ (suc n * 2) ≡ 4 * 2 ^ (n * 2)
four n =
    let twice : suc n * 2 ≡ suc (suc (n * 2)) = omega arith in
    rw twice (omega (arith, pow-suc 2 (n * 2), pow-suc 2 (suc (n * 2))))

-- Below a field that starts at `2 * n`, the rest is seen; at it, the field.
access_below : (i n q r : ℕ) → i < n → r < 2 ^ (n * 2) → access i (q * 2 ^ (n * 2) + r) ≡ access i r
unfolding access
access_below i zero q r h g = absurd (omega arith)
access_below zero (suc n) q r h g =
    let shift : q * 2 ^ (suc n * 2) ≡ 4 * (q * 2 ^ (n * 2)) =
      omega (arith, ap (λ (t : ℕ). q * t) (four n)) in
    omega (arith, shift)
access_below (suc i) (suc n) q r h g =
    let shift : q * 2 ^ (suc n * 2) ≡ 4 * (q * 2 ^ (n * 2)) =
      omega (arith, ap (λ (t : ℕ). q * t) (four n)) in
    let rest : (q * 2 ^ (suc n * 2) + r) / 4 ≡ q * 2 ^ (n * 2) + r / 4 = omega (arith, shift) in
    rw rest (access_below i n q (r / 4) (omega arith) (omega (arith, four n)))

access_at : (n q r : ℕ) → q ≤ 3 → r < 2 ^ (n * 2) → access n (q * 2 ^ (n * 2) + r) ≡ q
unfolding access
access_at zero q r h g = omega arith
access_at (suc n) q r h g =
    let shift : q * 2 ^ (suc n * 2) ≡ 4 * (q * 2 ^ (n * 2)) =
      omega (arith, ap (λ (t : ℕ). q * t) (four n)) in
    let rest : (q * 2 ^ (suc n * 2) + r) / 4 ≡ q * 2 ^ (n * 2) + r / 4 = omega (arith, shift) in
    rw rest (access_at n q (r / 4) h (omega (arith, four n)))

access-zero : (i : ℕ) → access i 0 ≡ 0
unfolding access
access-zero zero = refl
access-zero (suc i) = access-zero i

access-small : (n r : ℕ) → r < 2 ^ (n * 2) → access n r ≡ 0
access-small n r h =
    let low : 0 * 2 ^ (n * 2) + r ≡ r = omega arith in rw (← low) (access_at n 0 r (omega arith) h)

-- A round of the loop: the fields below `n` are those of the domains, and there are no others.
abbrev Granted : ℕ → ℕ → ℕ → ℕ → Type 0
Granted doms perm n mask =
    (mask < 2 ^ (n * 2)) × ((i : ℕ) → i < n → access i mask ≡ bit i doms * perm)

abbrev grant : ℕ → ℕ → ℕ → ℕ → ℕ
grant doms perm i mask =
    if truthy (bit_and doms (shl 1 i)) then bit_or mask (shl perm (i * 2)) else mask

shl-perm :
    (n perm : ℕ)
    → n < 16
    → perm ≤ 3
    → (perm * 2 ^ (n * 2) < 2 ^ 32) × (perm * 2 ^ (n * 2) ≤ 3 * 2 ^ (n * 2))
shl-perm n perm h g =
    let least : perm * 2 ^ (n * 2) ≤ 3 * 2 ^ (n * 2) = mul-le-mul_right (2 ^ (n * 2)) g in
    let top : 2 ^ (n * 2) ≤ 2 ^ 30 =
      pow-le-pow_right {n = 2} (omega arith) {j = 30} (omega arith) in
    (omega arith, least)

-- The word after a round that sets the field, and after one that does not.
set-Granted :
    (doms perm n mask : ℕ)
    → n < 16
    → perm ≤ 3
    → bit n doms ≡ 1
    → Granted doms perm n mask
    → Granted doms perm (n + 1) (bit_or mask (shl perm (n * 2)))
set-Granted doms perm n mask h g one (low, fields) =
    let (fits, least) = shl-perm n perm h g in
    let word : bit_or mask (shl perm (n * 2)) ≡ perm * 2 ^ (n * 2) + mask =
      rw (mod-eq_of_lt fits, bit_or_comm mask (perm * 2 ^ (n * 2)))
        (bit_or-fields (n * 2) perm mask low) in
    let up : n + 1 ≡ suc n = omega arith in
    let next : 2 ^ ((n + 1) * 2) ≡ 4 * 2 ^ (n * 2) = rw up (four n) in
    rw (word, next)
      (
        omega arith,
        λ i a. elim (Bool-cases (i == n)) [
          | inl e ↦
              let e' : i ≡ n = ground arith in
              rw (e', one) (access_at n perm mask g low ∙ omega arith)
          | inr ne ↦
              let below : i < n = ground arith in
              access_below i n perm mask below low ∙ fields i below
        ],
      )

leave-Granted :
    (doms perm n mask : ℕ)
    → bit n doms ≡ 0
    → Granted doms perm n mask
    → Granted doms perm (n + 1) mask
leave-Granted doms perm n mask none (low, fields) =
    let up : n + 1 ≡ suc n = omega arith in
    let next : 2 ^ ((n + 1) * 2) ≡ 4 * 2 ^ (n * 2) = rw up (four n) in
    (
      omega arith,
      λ i a. elim (Bool-cases (i == n)) [
        | inl e ↦
            let e' : i ≡ n = ground arith in rw (e', none) (access-small n mask low ∙ omega arith)
        | inr ne ↦ fields i (ground arith)
      ],
    )

tested : (doms n : ℕ) → n < 16 → bit_and doms (shl 1 n) ≡ bit n doms * 2 ^ n
tested doms n h = rw (shl-one n (omega arith)) (bit_and-pow n doms)

grant-Granted :
    (doms perm n mask : ℕ)
    → n < 16
    → perm ≤ 3
    → Granted doms perm n mask
    → Granted doms perm (n + 1) (grant doms perm n mask)
grant-Granted doms perm n mask h g held = elim (Bool-cases (bit n doms == 0)) [
  | inl e ↦
      let none : bit n doms ≡ 0 = ground arith in
      let no_bit : truthy (0 * 2 ^ n) ≡ false = ground arith in
      rw (tested doms n h, none, no_bit) (leave-Granted doms perm n mask none held)
  | inr ne ↦
      let one : bit n doms ≡ 1 = let b = bit-lt n doms in ground arith in
      let some_bit : truthy (1 * 2 ^ n) ≡ true =
        let p = one-le-pow n 2 (omega arith) in ground arith in
      rw (tested doms n h, one, some_bit) (set-Granted doms perm n mask h g one held)
]

-- With domains in use, none of them above 15, and two bits of permission the call succeeds, and the
-- word gives the permission to the domains in use and nothing to any other.
pub dom_perm-access :
    (doms perm : ℕ)
    → doms ≢ 0
    → doms < 2 ^ 16
    → perm ≤ 3
    → (d : ℕ) × (dom_perm doms perm ≡ some d) × ((i : ℕ) → i < 16 → access i d ≡ bit i doms * perm)
unfolding dom_perm
dom_perm-access doms perm some_dom low h =
    let used : truthy doms ≡ true = ground arith in
    let legal : (shr doms 16 == 0) ≡ true = ground arith in
    let two : leb perm 3 ≡ true = ground arith in
    let (d, ran, (bound, fields)) =
      for_loop_inv (Granted doms perm) (λ i mask. some (grant doms perm i mask)) 16 0 16 0 refl
        (λ n mask a b held. (grant doms perm n mask, refl, grant-Granted doms perm n mask b h held))
        (omega arith, λ i a. absurd (omega arith)) in
    (d, rw (used, legal, two) ran, fields)
