-- ===== src/Malloc/BestFit.antt =====
-- equiv-malloc.c: the search of `equiv_malloc` finds the best fit of the free list.
use mathlib.Core.List.{Mem, mem-cons_self, mem-cons_of_mem}
use thread_equivalence_check.Base.{
  ℕ, zero, suc, ◌+◌, ◌-◌, ◌≤◌, ◌<◌, ◌^◌, ◌≡◌, ◌≢◌, ◌⊎◌, refl, sym, ap, subst, ltb→lt, leb→le, ◌∙◌,
  some, List, [], ◌∷◌, All, false, ◌==◌, ltb, leb, sub32, if◌then◌else◌, length, inl, inr,
  Bool-cases, arith,
}
use thread_equivalence_check.Malloc.{
  Store, size_max, max_request_size, minimum_payload, roundup, get_size, next_free, allocate_block,
}
use thread_equivalence_check.Malloc.Headers.{get_size-even}
use thread_equivalence_check.Malloc.Allocator.{best_round, best_fuel, equiv_malloc}

-- The blocks of a free list, linked through `next_free` and ended by NULL.
abbrev pub Linked : (ℕ → ℕ) → ℕ → List ℕ → Type 0
Linked words h [] = next_free words h ≡ 0
Linked words h (x ∷ xs) = (next_free words h ≡ x) × (x ≢ 0) × Linked words x xs

module _ (words : ℕ → ℕ) (words_32 : (a : ℕ) → words a < 2 ^ 32) (needs : ℕ)
    (word : needs < 2 ^ 32) where
  abbrev size : ℕ → ℕ
  size = get_size words

  size-lt : (h : ℕ) → size h < size_max
  size-lt h = omega (arith, get_size-even h words (words_32 h), words_32 h)

  -- A pair that is as good as any for `h`, and either the old one or that of `h`.
  abbrev BestAt : ℕ → ℕ × ℕ → ℕ × ℕ → Type 0
  BestAt h best out =
      (out.1 ≤ best.1)
      × (needs ≤ size h → needs + out.1 ≤ size h)
      × (((out.0 ≡ best.0) × (out.1 ≡ best.1)) ⊎ ((out.0 ≡ h) × (size h ≡ needs + out.1)))

  round-BestAt : (h : ℕ) (best : ℕ × ℕ) → BestAt h best (best_round words needs h best)
  unfolding best_round
  round-BestAt h best =
      let small = size-lt h in
      elim (Bool-cases (leb needs (size h))) [
        | inl fits ↦
            let le : needs ≤ size h = leb→le needs (size h) fits in
            let left : sub32 (size h) needs ≡ size h - needs = omega (arith, small) in
            elim (Bool-cases (ltb (size h - needs) best.1)) [
              | inl e ↦
                  let lt : size h - needs < best.1 = ltb→lt _ _ e in
                  rw (fits, left, e) (omega arith, (λ f. omega arith), inr (refl, omega arith))
              | inr e ↦
                  let ge : best.1 ≤ size h - needs = ground arith in
                  rw (fits, left, e) (omega arith, (λ f. omega arith), inl (refl, refl))
            ]
        | inr small' ↦ rw small' (omega arith, (λ f. absurd (ground arith)), inl (refl, refl))
      ]

  -- What a search from `best` on leaves: no block that is large enough leaves less over than `out.1`,
  -- and `out` is `best` or a block with what it leaves over.
  abbrev pub BestOf : List ℕ → ℕ × ℕ → ℕ × ℕ → Type 0
  BestOf blocks best out =
      (out.1 ≤ best.1)
      × All (λ h. needs ≤ size h → needs + out.1 ≤ size h) blocks
      × (((out.0 ≡ best.0) × (out.1 ≡ best.1)) ⊎ (Mem out.0 blocks × (size out.0 ≡ needs + out.1)))

  first_of :
      (h : ℕ) (xs : List ℕ) (best out : ℕ × ℕ)
      → ((out.0 ≡ best.0) × (out.1 ≡ best.1)) ⊎ ((out.0 ≡ h) × (size h ≡ needs + out.1))
      → ((out.0 ≡ best.0) × (out.1 ≡ best.1)) ⊎ (Mem out.0 (h ∷ xs) × (size out.0 ≡ needs + out.1))
  first_of h xs best out (inl same) = inl same
  first_of h xs best out (inr (e, s)) =
      inr (subst (λ t. Mem t (h ∷ xs)) (sym e) mem-cons_self, ap size e ∙ s)

  both :
      (h : ℕ) (xs : List ℕ) (best mid out : ℕ × ℕ)
      → BestAt h best mid
      → BestOf xs mid out
      → BestOf (h ∷ xs) best out
  both h xs best mid out (le, at, from) (le', all, from') = (
    omega (arith, le, le'),
    ((λ f. omega (arith, at f, le')), all),
    elim from' [
      | inl (e0, e1) ↦ elim from [
        | inl (d0, d1) ↦ inl (e0 ∙ d0, e1 ∙ d1)
        | inr (d0, d1) ↦ inr (
          subst (λ t. Mem t (h ∷ xs)) (sym (e0 ∙ d0)) mem-cons_self,
          ap size (e0 ∙ d0) ∙ d1 ∙ ap (λ t. needs + t) (sym e1),
        )
      ]
      | inr (m, s) ↦ inr (mem-cons_of_mem h m, s)
    ],
  )

  search-BestOf :
      (xs : List ℕ) (h fuel : ℕ) (best : ℕ × ℕ)
      → Linked words h xs
      → length xs < fuel
      → (out : ℕ × ℕ) × (best_fuel fuel words needs h best ≡ some out) × BestOf (h ∷ xs) best out
  unfolding best_fuel
  search-BestOf xs h zero best linked enough = absurd (omega (arith, enough))
  search-BestOf [] h (suc fuel) best linked enough =
      let (le, at, from) = round-BestAt h best in
      (best_round words needs h best, rw linked refl, (le, (at, tt), first_of h [] best _ from))
  search-BestOf (x ∷ xs) h (suc fuel) best (next, ne, linked) enough =
      let (out, ran, res) =
        search-BestOf xs x fuel (best_round words needs h best) linked (omega (arith, enough)) in
      let more : (x == 0) ≡ false = ground arith in
      (out, rw (next, more) ran, both h (x ∷ xs) best _ out (round-BestAt h best) res)

-- The block that is chosen: NULL if no block is large enough, and otherwise a block of the list that
-- is large enough and no larger than any other such block.
abbrev pub Chosen : (ℕ → ℕ) → ℕ → List ℕ → ℕ → Type 0
Chosen words needs blocks b =
    ((b ≡ 0) × All (λ h. get_size words h < needs) blocks)
    ⊎ (Mem b blocks
        × (needs ≤ get_size words b)
        × All (λ h. needs ≤ get_size words h → get_size words b ≤ get_size words h) blocks)

none_fit :
    (words : ℕ → ℕ) (words_32 : (a : ℕ) → words a < 2 ^ 32) (needs : ℕ) (word : needs < 2 ^ 32)
    (blocks : List ℕ)
    → All (λ h. needs ≤ get_size words h → needs + size_max ≤ get_size words h) blocks
    → All (λ h. get_size words h < needs) blocks
none_fit words words_32 needs word [] h = tt
none_fit words words_32 needs word (b ∷ bs) (h, hs) =
    let small = size-lt words words_32 needs word b in
    (
      elim (Bool-cases (leb needs (get_size words b))) [
        | inl fits ↦ absurd (omega (arith, small, h (leb→le _ _ fits)))
        | inr less ↦ ground arith
      ],
      none_fit words words_32 needs word bs hs,
    )

least :
    (words : ℕ → ℕ) (needs b d : ℕ) (blocks : List ℕ)
    → get_size words b ≡ needs + d
    → All (λ h. needs ≤ get_size words h → needs + d ≤ get_size words h) blocks
    → All (λ h. needs ≤ get_size words h → get_size words b ≤ get_size words h) blocks
least words needs b d [] e h = tt
least words needs b d (x ∷ xs) e (h, hs) =
    ((λ f. omega (arith, e, h f)), least words needs b d xs e hs)

-- A request of a legal size, with a free list that is not empty, is served from the smallest block of
-- the list that is large enough for the size that is needed, and not at all if there is none.
pub malloc-Chosen :
    (fuel requested needs h : ℕ) (xs : List ℕ) (s : Store)
    → 0 < requested
    → requested ≤ max_request_size
    → roundup (if ltb requested minimum_payload then minimum_payload else requested) ≡ needs
    → needs < 2 ^ 32
    → ((a : ℕ) → s.words a < 2 ^ 32)
    → s.heap.first_free ≡ h
    → h ≢ 0
    → Linked s.words h xs
    → length xs < fuel
    → (b : ℕ) × (equiv_malloc fuel requested s
        ≡ some (if b == 0 then (s, 0) else allocate_block b needs s))
      × Chosen s.words needs (h ∷ xs) b
unfolding equiv_malloc
malloc-Chosen fuel requested needs h xs s pos legal e word words_32 head ne linked short =
    let (out, ran, (le, all, from)) =
      search-BestOf s.words words_32 needs word xs h fuel (0, size_max) linked
        (omega (arith, short)) in
    let asked : (requested == 0) ≡ false = ground arith in
    let in_bounds : ltb max_request_size requested ≡ false = ground arith in
    let nonempty : (h == 0) ≡ false = ground arith in
    (
      out.0,
      rw (asked, in_bounds, head, nonempty, e, ran) refl,
      elim from [
        | inl (e0, e1) ↦ inl (
          e0,
          none_fit s.words words_32 needs word (h ∷ xs) (
              subst
                (λ d.
                  All (λ b. needs ≤ get_size s.words b → needs + d ≤ get_size s.words b) (h ∷ xs))
                e1 all),
        )
        | inr (m, fits) ↦
            inr (m, omega (arith, fits), least s.words needs out.0 out.1 (h ∷ xs) fits all)
      ],
    )
