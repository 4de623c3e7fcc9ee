-- ===== src/Touched/Decode.antt =====
-- equiv-rw-set.c: `get_touched_bytes` adds the bytes that an instruction accesses by the manual.
use thread_equivalence_check.Base.{
  ℕ, zero, suc, ◌+◌, ◌*◌, ◌/◌, ◌%◌, ◌<◌, ◌^◌, ◌≡◌, refl, subst, ◌∙◌, Bool, true, false, ◌||◌, ◌&&◌,
  Option, none, some, ◌==◌, if◌then◌else◌, truthy, not, bit_or, arith, inl, inr, Bool-cases,
}
use thread_equivalence_check.Base.Bits.{shl}
use thread_equivalence_check.TrieSet.{SetT}
use thread_equivalence_check.TrieSet.Spec.{Denotes}
use thread_equivalence_check.Touched.{get_touched_bytes}
use thread_equivalence_check.Touched.Run.{Adds}
use thread_equivalence_check.Touched.Width.{
  registers, extra_width, decoded_width, Touches, get_touched_bytes-Touches,
}
use thread_equivalence_check.Touched.Arm.{
  ReadsBits, cond, group, puwl, sh, swap_width, extra_bytes, arm_width, has_swap_bits, IsPlain,
}

-- Whether two outcomes are the same width.
unfoldable is_same : Option ℕ → Option ℕ → Bool
is_same none none = true
is_same none (some w) = false
is_same (some v) none = false
is_same (some v) (some w) = v == w

is_same-eq : (a b : Option ℕ) → is_same a b ≡ true → a ≡ b
unfolding is_same
is_same-eq none none h = refl
is_same-eq none (some w) h = absurd cc
is_same-eq (some v) none h = absurd cc
is_same-eq (some v) (some w) h = let e : v ≡ w = ground arith in rw e refl

unfoldable all_below : ℕ → (ℕ → Bool) → Bool
all_below zero p = true
all_below (suc n) p = p n && all_below n p

all_below-each : (n : ℕ) (p : ℕ → Bool) (x : ℕ) → all_below n p ≡ true → x < n → p x ≡ true
unfolding all_below
all_below-each zero p x h lt = absurd (omega arith)
all_below-each (suc n) p x h lt = ground (arith, all_below-each n p x)

-- The tests of `get_touched_bytes`, on the fields of the instruction.
abbrev by_fields : ℕ → ℕ → ℕ → ℕ → Option ℕ
by_fields g p s r =
    if 32 * g + p == 16
    then some 4
    else if 32 * g + p == 20
    then some 1
    else if 16 * g + p / 2 == 12
    then some 4
    else if g / 2 == 1
    then (if p / 4 % 2 == 1 then some 1 else some 4)
    else if g == 0
    then extra_width (4 * (p % 2) + s)
    else if g == 4
    then some (4 * r)
    else some 0

-- Every swap and extra access with the bits of its kind arrives at its width.
unfoldable extra_agrees : ℕ → ℕ → Bool
extra_agrees s p =
    is_same (extra_bytes s p) none
    || (not (is_same (if has_swap_bits p then some 1 else none) (if s == 0 then some 1 else none))
        || is_same (by_fields 0 p s 0) (extra_bytes s p))

abbrev all_agree : Bool
all_agree = all_below 4 (λ s. all_below 32 (λ p. extra_agrees s p))

all_agree-true : all_agree ≡ true
unfolding all_below extra_agrees is_same extra_bytes swap_width
all_agree-true = refl

extra_fields :
    (s p w r : ℕ)
    → s < 4
    → p < 32
    → has_swap_bits p ≡ (s == 0)
    → extra_bytes s p ≡ some w
    → by_fields 0 p s r ≡ some w
unfolding extra_agrees is_same
extra_fields s p w r hs hp plain is =
    let row : all_below 32 (λ q. extra_agrees s q) ≡ true =
      all_below-each 4 (λ q. all_below 32 (λ p. extra_agrees q p)) s all_agree-true hs in
    let cell : extra_agrees s p ≡ true = all_below-each 32 (λ q. extra_agrees s q) p row hp in
    let tested : ((not (is_same (if s == 0 then some 1 else none) (if s == 0 then some 1 else none))
          || is_same (by_fields 0 p s r) (some w))
        ≡ true) =
      rw (is, plain) at cell in
    is_same-eq (by_fields 0 p s r) (some w)
      (elim (Bool-cases (s == 0)) [ inl e ↦ rw e at tested | inr e ↦ rw e at tested ])

-- The groups other than that of swaps.
single_fields :
    (g p s r w : ℕ)
    → g < 8
    → p < 32
    → (g == 2 || g == 3) ≡ true
    → some (if p / 4 % 2 == 1 then 1 else 4) ≡ some w
    → by_fields g p s r ≡ some w
single_fields g p s r w hg hp is e = ground arith

multiple_fields : (g p s r w : ℕ) → p < 32 → (g == 4) ≡ true → by_fields g p s r ≡ some (4 * r)
multiple_fields g p s r w hp is = let e : g ≡ 4 = ground arith in rw e (ground arith)

module _ (bits_get : ℕ → ℕ → ℕ → ℕ) (bit_isset : ℕ → ℕ → ℕ)
    (reads : ReadsBits bits_get bit_isset) where
  lsh : (l s : ℕ) → l < 2 → s < 4 → bit_or (shl l 2) s ≡ 4 * l + s
  unfolding shl
  lsh zero zero hl hs = refl
  lsh zero (suc zero) hl hs = refl
  lsh zero (suc (suc zero)) hl hs = refl
  lsh zero (suc (suc (suc zero))) hl hs = refl
  lsh zero (suc (suc (suc (suc s)))) hl hs = absurd (omega arith)
  lsh (suc zero) zero hl hs = refl
  lsh (suc zero) (suc zero) hl hs = refl
  lsh (suc zero) (suc (suc zero)) hl hs = refl
  lsh (suc zero) (suc (suc (suc zero))) hl hs = refl
  lsh (suc zero) (suc (suc (suc (suc s)))) hl hs = absurd (omega arith)
  lsh (suc (suc l)) s hl hs = absurd (omega arith)

  decoded-fields :
      (i : ℕ)
      → decoded_width bits_get bit_isset i
        ≡ by_fields (group i) (puwl i) (sh i) (registers (i % 65536) 16)
  decoded-fields i =
      let top : bits_get i 20 27 ≡ 32 * group i + puwl i = omega (arith, reads.get i 20 27) in
      let top7 : bits_get i 21 27 ≡ 16 * group i + puwl i / 2 = omega (arith, reads.get i 21 27) in
      let two : bits_get i 26 27 ≡ group i / 2 = omega (arith, reads.get i 26 27) in
      let three : bits_get i 25 27 ≡ group i = reads.get i 25 27 in
      let low : bits_get i 5 6 ≡ sh i = reads.get i 5 6 in
      let list : bits_get i 0 15 ≡ i % 65536 = omega (arith, reads.get i 0 15) in
      let load : bit_isset i 20 ≡ puwl i % 2 = omega (arith, reads.isset i 20) in
      let byte : truthy (bit_isset i 22) ≡ (puwl i / 4 % 2 == 1) =
        ground (arith, reads.isset i 22) in
      let code : bit_or (shl (puwl i % 2) 2) (sh i) ≡ 4 * (puwl i % 2) + sh i =
        lsh (puwl i % 2) (sh i) (omega arith) (omega arith) in
      rw (top, top7, two, three, low, list, load, byte, code) refl

  decoded-arm :
      (i w : ℕ) → arm_width i ≡ some w → IsPlain i → decoded_width bits_get bit_isset i ≡ some w
  unfolding arm_width
  decoded-arm i w h plain = rw (decoded-fields i) (elim (Bool-cases (cond i == 15)) [
    | inl e ↦ (let no : none ≡ some w = rw e at h in absurd cc)
    | inr known ↦ elim (Bool-cases (group i == 2 || (group i == 3 && i / 16 % 2 == 0))) [
      | inl one ↦
          single_fields (group i) (puwl i) (sh i) _ w (omega arith) (omega arith) (ground arith)
            (let b : i / 4194304 % 2 ≡ puwl i / 4 % 2 = omega arith in rw (known, one, b) at h)
      | inr no_single ↦ elim (Bool-cases (group i == 4)) [
        | inl e ↦
            multiple_fields (group i) (puwl i) (sh i) (registers (i % 65536) 16) w (omega arith) e
            ∙ (rw (known, no_single, e) at h)
        | inr no_list ↦ elim (Bool-cases (group i == 0 && (i / 16 % 2 == 1 && i / 128 % 2 == 1))) [
          | inl e ↦
              let zero_group : group i ≡ 0 = ground arith in
              rw zero_group (
                extra_fields (sh i) (puwl i) w (registers (i % 65536) 16) (omega arith)
                  (omega arith) (plain zero_group) (rw (known, no_single, no_list, e) at h))
          | inr e ↦ (let no : none ≡ some w = rw (known, no_single, no_list, e) at h in absurd cc)
        ]
      ]
    ]
  ])

  -- For a load or store of the architecture's manual, the bytes added are those from the fault
  -- address on, as many as the instruction reads or writes: 4, or 1 for a byte, 2 for a halfword, 8
  -- for a double word, and 4 for each listed register. The condition is that in the group of swaps
  -- and halfwords bits 20 to 24 are those of SWP, SWPB, STREX or LDREX exactly if bits 5 and 6 are
  -- clear: it leaves out halfwords and double words with those bits (a register offset, or a negative
  -- immediate), which the code takes for swaps, and the exclusive accesses of 1, 2 and 8 bytes.
  pub get_touched_bytes-arm_width :
      (instruction addr width : ℕ) (f : ℕ → Bool) (s : SetT)
      → addr < 2 ^ 32
      → Denotes s f
      → arm_width instruction ≡ some width
      → IsPlain instruction
      → Adds (get_touched_bytes bits_get bit_isset instruction addr s) f addr width
  get_touched_bytes-arm_width instruction addr width f s small d is plain =
      subst (Touches (get_touched_bytes bits_get bit_isset instruction addr s) f addr)
        (decoded-arm instruction width is plain)
        (get_touched_bytes-Touches bits_get bit_isset addr f small s d instruction)
