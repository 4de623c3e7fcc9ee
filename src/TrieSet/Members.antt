-- ===== src/TrieSet/Members.antt =====
-- The members of a predicate between two numbers, in ascending order.
use thread_equivalence_check.Base.{
  ℕ, zero, suc, ◌+◌, ◌≤◌, ◌<◌, ◌≡◌, refl, Bool, true, false, List, [], ◌∷◌, ◌++◌, length, ◌==◌,
  ==_iff, if◌then◌else◌, arith, inl, inr, Bool-cases,
}

-- Those in `[i, i + k)`.
unfoldable pub members : (ℕ → Bool) → ℕ → ℕ → List ℕ
members f zero i = []
members f (suc k) i = if f i then i ∷ members f k (i + 1) else members f k (i + 1)

-- The effect of calling `handler` on each value of a list, in order.
unfoldable pub visit_all : {S : Type 0} → (ℕ → S → S) → List ℕ → S → S
visit_all handler [] s = s
visit_all handler (v ∷ vs) s = visit_all handler vs (handler v s)

pub visit_all-append :
    {S : Type 0} (handler : ℕ → S → S) (xs ys : List ℕ) (s : S)
    → visit_all handler (xs ++ ys) s ≡ visit_all handler ys (visit_all handler xs s)
unfolding visit_all
visit_all-append handler [] ys s = refl
visit_all-append handler (x ∷ xs) ys s = visit_all-append handler xs ys (handler x s)

pub members-add :
    (f : ℕ → Bool) (a b i : ℕ) → members f (a + b) i ≡ members f a i ++ members f b (i + a)
unfolding members
members-add f zero b i =
    let e : zero + b ≡ b = omega arith in let e' : i + 0 ≡ i = omega arith in rw (e, e') refl
members-add f (suc a) b i =
    let e : suc a + b ≡ suc (a + b) = omega arith in
    let e' : i + suc a ≡ i + 1 + a = omega arith in
    rw (e, e', members-add f a b (i + 1))
      (elim (Bool-cases (f i)) [ inl h ↦ rw h refl | inr h ↦ rw h refl ])

pub members-cong :
    (f g : ℕ → Bool) (k i : ℕ)
    → ((v : ℕ) → i ≤ v → v < i + k → f v ≡ g v)
    → members f k i ≡ members g k i
unfolding members
members-cong f g zero i h = refl
members-cong f g (suc k) i h =
    rw
      (
        h i (omega arith) (omega arith),
        members-cong f g k (i + 1) (λ v a b. h v (omega arith) (omega arith)),
      )
      refl

pub members-none :
    (f : ℕ → Bool) (k i : ℕ) → ((v : ℕ) → i ≤ v → v < i + k → f v ≡ false) → members f k i ≡ []
unfolding members
members-none f zero i h = refl
members-none f (suc k) i h =
    rw (h i (omega arith) (omega arith))
      (members-none f k (i + 1) (λ v a b. h v (omega arith) (omega arith)))

pub length-members-le : (f : ℕ → Bool) (k i : ℕ) → length (members f k i) ≤ k
unfolding members
length-members-le f zero i = omega arith
length-members-le f (suc k) i = ground (arith, length-members-le f k (i + 1))

-- A number that is no member leaves room.
pub length-members-lt :
    (f : ℕ → Bool) (k i v : ℕ) → i ≤ v → v < i + k → f v ≡ false → length (members f k i) < k
unfolding members
length-members-lt f zero i v low high h = absurd (omega arith)
length-members-lt f (suc k) i v low high h = elim (Bool-cases (i == v)) [
  | inl e ↦
      let e' : i ≡ v = (==_iff i v).0 e in rw (e', h) (omega (arith, length-members-le f k (v + 1)))
  | inr ne ↦
      let later : i + 1 ≤ v = ground arith in
      ground (arith, length-members-lt f k (i + 1) v later (omega arith) h)
]

-- A member is counted.
pub length-members-pos :
    (f : ℕ → Bool) (k i v : ℕ) → i ≤ v → v < i + k → f v ≡ true → 0 < length (members f k i)
unfolding members
length-members-pos f zero i v low high h = absurd (omega arith)
length-members-pos f (suc k) i v low high h = elim (Bool-cases (i == v)) [
  | inl e ↦ let e' : i ≡ v = (==_iff i v).0 e in rw (e', h) (omega arith)
  | inr ne ↦
      let later : i + 1 ≤ v = ground arith in
      ground (arith, length-members-pos f k (i + 1) v later (omega arith) h)
]
