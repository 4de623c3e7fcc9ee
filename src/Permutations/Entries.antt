-- ===== src/Permutations/Entries.antt =====
-- permutations.c: where the values of a reordering stand.
use thread_equivalence_check.Base.{
  ℕ, zero, suc, ◌+◌, ◌<◌, ◌≤◌, ◌≡◌, ◌≢◌, sym, ap, ◌∙◌, some, List, [], ◌∷◌, ◌++◌, ◌==◌, All,
  All-append, length, get_elem?, ◌⊎◌, inl, inr, Bool-cases, arith,
}
use thread_equivalence_check.Permutations.Swaps.{
  count, some_inj, same_entries, has_entry, SameBelow, one_if,
}

abbrev pub Within : List ℕ → List (List ℕ) → Type 0
Within row [] = ⊥
Within row (r ∷ rows) = (row ≡ r) ⊎ Within row rows

abbrev pub IsNodup : List (List ℕ) → Type 0
IsNodup [] = Unit
IsNodup (r ∷ rows) = All (λ s. r ≢ s) rows × IsNodup rows

pub count-once : (v : ℕ) (xs : List ℕ) (k : ℕ) → get_elem? xs k ≡ some v → 1 ≤ count v xs
unfolding count
count-once v [] k e = absurd (ground arith)
count-once v (x ∷ xs) zero e = let same : x ≡ v = some_inj x v e in ground arith
count-once v (x ∷ xs) (suc k) e = omega (arith, count-once v xs k e)

-- A value that the array has twice is counted twice.
pub count-twice :
    (v : ℕ) (xs : List ℕ) (j k : ℕ)
    → j < k
    → get_elem? xs j ≡ some v
    → get_elem? xs k ≡ some v
    → 2 ≤ count v xs
unfolding count
count-twice v [] j k h ej ek = absurd (ground arith)
count-twice v (x ∷ xs) j zero h ej ek = absurd (omega arith)
count-twice v (x ∷ xs) zero (suc k) h ej ek =
    let same : x ≡ v = some_inj x v ej in let more = count-once v xs k ek in ground arith
count-twice v (x ∷ xs) (suc j) (suc k) h ej ek =
    omega (arith, count-twice v xs j k (omega arith) ej ek)

pub occurs :
    (v : ℕ) (xs : List ℕ) → 1 ≤ count v xs → (j : ℕ) × (j < length xs) × (get_elem? xs j ≡ some v)
unfolding count
occurs v [] h = absurd (omega arith)
occurs v (x ∷ xs) h = elim (Bool-cases (x == v)) [
  | inl e ↦ let e' : x ≡ v = ground arith in (0, omega arith, ap some e')
  | inr ne ↦
      let more : 1 ≤ count v xs = ground arith in
      let (j, lt, at) = occurs v xs more in (suc j, omega arith, at)
]

-- An entry of a reordering that starts like the array stands in the rest of the array.
pub occurs_after :
    (n v : ℕ) (xs ys : List ℕ)
    → SameBelow n xs ys
    → ((w : ℕ) → count w ys ≡ count w xs)
    → length ys ≡ length xs
    → get_elem? ys n ≡ some v
    → (j : ℕ) × (n ≤ j) × (j < length xs) × (get_elem? xs j ≡ some v)
unfolding count
occurs_after zero v xs ys same c l at =
    let (j, lt, e) = occurs v xs (omega (arith, c v, count-once v ys 0 at)) in
    (j, omega arith, lt, e)
occurs_after (suc n) v xs [] same c l at = absurd (ground arith)
occurs_after (suc n) v [] (y ∷ ys) same c l at = absurd (omega (arith, l))
occurs_after (suc n) v (x ∷ xs) (y ∷ ys) same c l at =
    let head : y ≡ x = some_inj y x (same 0 (omega arith)) in
    let (j, low, lt, e) =
      occurs_after n v xs ys (λ j lt. same (suc j) (omega arith))
        (λ w. omega (arith, c w, ap (λ z. one_if z w) head)) (omega (arith, l)) at in
    (suc j, omega arith, omega arith, e)

-- A reordering that differs from the array in one place at most is the array.
pub one_place :
    (n : ℕ) (xs ys : List ℕ)
    → length xs ≡ n + 1
    → length ys ≡ length xs
    → SameBelow n xs ys
    → ((w : ℕ) → count w ys ≡ count w xs)
    → ys ≡ xs
one_place n xs ys long l same c =
    let (y, at) = has_entry ys n (omega (arith, l, long)) in
    let (j, low, lt, e) = occurs_after n y xs ys same c l at in
    same_entries ys xs l (λ k lt'. elim (Bool-cases (k == n)) [
      | inl here ↦
          let k' : k ≡ n = ground arith in
          let j' : j ≡ n = omega (arith, long) in
          ap (get_elem? ys) k' ∙ at ∙ sym e ∙ ap (get_elem? xs) (j' ∙ sym k')
      | inr ne ↦ same k (let lower : k < n + 1 = omega (arith, l, long) in ground arith)
    ])

pub Within-left :
    (row : List ℕ) (rows rows' : List (List ℕ)) → Within row rows → Within row (rows ++ rows')
Within-left row [] rows' h = absurd h
Within-left row (r ∷ rows) rows' (inl e) = inl e
Within-left row (r ∷ rows) rows' (inr h) = inr (Within-left row rows rows' h)

pub Within-right :
    (row : List ℕ) (rows rows' : List (List ℕ)) → Within row rows' → Within row (rows ++ rows')
Within-right row [] rows' h = h
Within-right row (r ∷ rows) rows' h = inr (Within-right row rows rows' h)

pub append-IsNodup :
    (rows rows' : List (List ℕ))
    → IsNodup rows
    → IsNodup rows'
    → All (λ r. All (λ s. r ≢ s) rows') rows
    → IsNodup (rows ++ rows')
append-IsNodup [] rows' h h' apart = h'
append-IsNodup (r ∷ rows) rows' (h, hs) h' (a, apart) =
    (All-append (λ s. r ≢ s) rows rows' h a, append-IsNodup rows rows' hs h' apart)
