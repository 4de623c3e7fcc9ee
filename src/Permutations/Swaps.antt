-- ===== src/Permutations/Swaps.antt =====
-- permutations.c: a swap can be undone by the same swap, and keeps the members of the array.
use thread_equivalence_check.Base.{
  ℕ, zero, suc, ◌+◌, ◌<◌, ◌≡◌, ◌≢◌, refl, sym, ap, ◌∙◌, Option, none, some, List, [], ◌∷◌, ◌==◌,
  if◌then◌else◌, length, get_elem?, set, length-set, get_elem?-set_self, get_elem?-set_ne, inl, inr,
  Bool-cases, arith,
}
use thread_equivalence_check.Permutations.{swap}

pub some_inj : (a b : ℕ) → some a ≡ some b → a ≡ b
some_inj a b e = ap (or_zero) e
  where
    or_zero : Option ℕ → ℕ
    or_zero none = 0
    or_zero (some n) = n

pub same_entries :
    (xs ys : List ℕ)
    → length xs ≡ length ys
    → ((j : ℕ) → j < length xs → get_elem? xs j ≡ get_elem? ys j)
    → xs ≡ ys
same_entries [] [] l h = refl
same_entries [] (y ∷ ys) l h = absurd (omega (arith, l))
same_entries (x ∷ xs) [] l h = absurd (omega (arith, l))
same_entries (x ∷ xs) (y ∷ ys) l h =
    let head : x ≡ y = some_inj x y (h 0 (omega arith)) in
    let rest : xs ≡ ys = same_entries xs ys (omega (arith, l)) (λ j lt. h (suc j) (omega arith)) in
    rw (head, rest) refl

pub has_entry : (xs : List ℕ) (i : ℕ) → i < length xs → (x : ℕ) × (get_elem? xs i ≡ some x)
has_entry [] i h = absurd (omega (arith, h))
has_entry (x ∷ xs) zero h = (x, refl)
has_entry (x ∷ xs) (suc i) h = has_entry xs i (omega arith)

-- How often a value stands in an array.
unfoldable pub count : ℕ → List ℕ → ℕ
count v [] = 0
count v (x ∷ xs) = (if x == v then 1 else 0) + count v xs

abbrev pub one_if : ℕ → ℕ → ℕ
one_if x v = if x == v then 1 else 0

pub count-set :
    (v : ℕ) (xs : List ℕ) (i x y : ℕ)
    → get_elem? xs i ≡ some x
    → count v (set xs i y) + one_if x v ≡ count v xs + one_if y v
unfolding count
count-set v [] i x y e = absurd (ground arith)
count-set v (z ∷ xs) zero x y e = rw (some_inj z x e) (omega arith)
count-set v (z ∷ xs) (suc i) x y e = omega (arith, count-set v xs i x y e)

-- The entries after a swap.
pub swap-entries :
    (a b x y : ℕ) (xs : List ℕ)
    → get_elem? xs a ≡ some x
    → get_elem? xs b ≡ some y
    → a < length xs
    → b < length xs
    → (get_elem? (set (set xs a y) b x) a ≡ some y) × (get_elem? (set (set xs a y) b x) b ≡ some x)
swap-entries a b x y xs ea eb la lb = (
  elim (Bool-cases (a == b)) [
    | inl e ↦
        let e' : a ≡ b = ground arith in
        ap (get_elem? (set (set xs a y) b x)) e'
        ∙ get_elem?-set_self (set xs a y) b x (omega (arith, lb, length-set xs a y))
        ∙ sym ea
        ∙ ap (get_elem? xs) e'
        ∙ eb
    | inr ne ↦ get_elem?-set_ne (set xs a y) b a x (ground arith) ∙ get_elem?-set_self xs a y la
  ],
  get_elem?-set_self (set xs a y) b x (omega (arith, lb, length-set xs a y)),
)

-- The entries before `n` are the same.
abbrev pub SameBelow : ℕ → List ℕ → List ℕ → Type 0
SameBelow n xs ys = (j : ℕ) → j < n → get_elem? ys j ≡ get_elem? xs j

-- What a swap does: it succeeds, keeps the length and how often each value stands in the array, and
-- the same swap leads back; it changes nothing before the two places, and moves the second entry to
-- the first place.
abbrev pub Swapped : ℕ → ℕ → List ℕ → List ℕ → Type 0
Swapped a b xs ys =
    (swap a b xs ≡ some ys)
    × (length ys ≡ length xs)
    × ((v : ℕ) → count v ys ≡ count v xs)
    × (swap a b ys ≡ some xs)
    × (a < b + 1 → SameBelow a xs ys)
    × (get_elem? ys a ≡ get_elem? xs b)

elsewhere :
    (a b x y j : ℕ) (xs : List ℕ)
    → a ≢ j
    → b ≢ j
    → get_elem? (set (set xs a y) b x) j ≡ get_elem? xs j
elsewhere a b x y j xs na nb = get_elem?-set_ne (set xs a y) b j x nb ∙ get_elem?-set_ne xs a j y na

back :
    (a b x y : ℕ) (xs : List ℕ)
    → get_elem? xs a ≡ some x
    → get_elem? xs b ≡ some y
    → a < length xs
    → b < length xs
    → set (set (set (set xs a y) b x) a x) b y ≡ xs
back a b x y xs ea eb la lb =
    let ys = set (set xs a y) b x in
    let len : length ys ≡ length xs = length-set (set xs a y) b x ∙ length-set xs a y in
    let (there, here) =
      swap-entries a b y x ys (swap-entries a b x y xs ea eb la lb).0
        (swap-entries a b x y xs ea eb la lb).1 (omega (arith, la, len)) (omega (arith, lb, len)) in
    same_entries _ xs (length-set (set ys a x) b y ∙ length-set ys a x ∙ len) (λ j lt.
      elim (Bool-cases (a == j)) [
        | inl e ↦
            let e' : a ≡ j = ground arith in
            ap (get_elem? (set (set ys a x) b y)) (sym e') ∙ there ∙ sym ea ∙ ap (get_elem? xs) e'
        | inr na ↦ elim (Bool-cases (b == j)) [
          | inl e ↦
              let e' : b ≡ j = ground arith in
              ap (get_elem? (set (set ys a x) b y)) (sym e') ∙ here ∙ sym eb ∙ ap (get_elem? xs) e'
          | inr nb ↦
              elsewhere a b y x j ys (ground arith) (ground arith)
              ∙ elsewhere a b x y j xs (ground arith) (ground arith)
        ]
      ])

pub swap-Swapped :
    (a b : ℕ) (xs : List ℕ) → a < length xs → b < length xs → (ys : List ℕ) × Swapped a b xs ys
unfolding swap
swap-Swapped a b xs la lb =
    let (x, ea) = has_entry xs a la in
    let (y, eb) = has_entry xs b lb in
    let (at, bt) = swap-entries a b x y xs ea eb la lb in
    let mid : get_elem? (set xs a y) b ≡ some y = elim (Bool-cases (a == b)) [
      | inl e ↦
          let e' : a ≡ b = ground arith in
          ap (get_elem? (set xs a y)) (sym e') ∙ get_elem?-set_self xs a y la
      | inr ne ↦ get_elem?-set_ne xs a b y (ground arith) ∙ eb
    ] in
    (
      set (set xs a y) b x,
      (
        rw (ea, eb) refl,
        length-set (set xs a y) b x ∙ length-set xs a y,
        (λ v. omega (arith, count-set v xs a x y ea, count-set v (set xs a y) b y x mid)),
        rw (at, bt) (ap some (back a b x y xs ea eb la lb)),
        (λ le j lt. elsewhere a b x y j xs (omega arith) (omega arith)),
        at ∙ sym eb,
      ),
    )
