-- ===== src/Interleaver/Counts.antt =====
-- interleaver.c, `run_interleavings`: the instruction counts of the rounds decrease a measure.
use native.Mathlib.Nat.{pow-succ', pow-zero, mul-le-mul_right, add-mul}
use thread_equivalence_check.Base.{
  ℕ, zero, suc, ◌+◌, ◌-◌, ◌*◌, ◌^◌, ◌≤◌, ◌<◌, ◌≡◌, refl, some, List, [], ◌∷◌, length, All,
  get_elem?, arith,
}
use thread_equivalence_check.Interleaver.Advance.{NextCounts}

-- Counts from 1 up to one more than the longest run.
abbrev pub InCounts : ℕ → List ℕ → Type 0
InCounts m xs = All (λ c. (1 ≤ c) × (c ≤ m + 1)) xs

-- How far the counts are from the last ones, as digits to the base `m + 1`.
unfoldable pub left : ℕ → List ℕ → ℕ
left m [] = 0
left m (c ∷ cs) = (m + 1 - c) * (m + 1) ^ length cs + left m cs

power : (m k : ℕ) → (m + 1) ^ suc k ≡ m * (m + 1) ^ k + (m + 1) ^ k
power m k = rw (pow-succ' (m + 1) k, add-mul m 1 ((m + 1) ^ k)) (omega arith)

pub get_elem?-some : (xs : List ℕ) (k : ℕ) → k < length xs → (a : ℕ) × (get_elem? xs k ≡ some a)
get_elem?-some [] k h = elim h [ ]
get_elem?-some (x ∷ xs) zero h = (x, refl)
get_elem?-some (x ∷ xs) (suc k) h = get_elem?-some xs k (omega arith)

pub left-lt : (m : ℕ) (xs : List ℕ) → InCounts m xs → left m xs < (m + 1) ^ length xs
unfolding left
left-lt m [] h = omega (arith, pow-zero (m + 1))
left-lt m (c ∷ cs) (h, hs) =
    let top : (m + 1 - c) * (m + 1) ^ length cs ≤ m * (m + 1) ^ length cs =
      mul-le-mul_right ((m + 1) ^ length cs) (omega arith) in
    omega (arith, top, power m (length cs), left-lt m cs hs)

pub ones-InCounts :
    (m : ℕ) (xs : List ℕ) → ((j : ℕ) → j < length xs → get_elem? xs j ≡ some 1) → InCounts m xs
ones-InCounts m [] ones = tt
ones-InCounts m (x ∷ xs) ones =
    let first : some x ≡ some 1 = ones 0 (omega arith) in
    let one : x ≡ 1 = cc in
    ((omega arith, omega arith), ones-InCounts m xs (λ j h. ones (suc j) (omega arith)))

-- After a run of which slot `k` was at most `m`, the next counts are nearer to the last ones.
pub next-left :
    (m k a : ℕ) (xs ys : List ℕ)
    → InCounts m xs
    → get_elem? xs k ≡ some a
    → a ≤ m
    → NextCounts k (length xs) xs ys
    → InCounts m ys × (left m ys < left m xs)
unfolding left
next-left m k a [] ys h got small next = absurd cc
next-left m k a (x ∷ xs) [] h got small next = absurd (omega (arith, next.0))
next-left m zero a (x ∷ xs) (y ∷ ys) (h, hs) got small (l, kept, (b, was, now), ones) =
    let is : x ≡ a = cc in
    let same : b ≡ a = cc in
    let up : y ≡ b + 1 = cc in
    let len : length ys ≡ length xs = omega (arith, l) in
    let tail : InCounts m ys =
      ones-InCounts m ys (λ j j'. ones (suc j) (omega arith) (omega arith)) in
    let one_more : m + 1 - x ≡ (m + 1 - y) + 1 = omega arith in
    (
      ((omega arith, omega arith), tail),
      rw one_more (
          rw (add-mul (m + 1 - y) 1 ((m + 1) ^ length xs), ← len)
            (omega (arith, left-lt m ys tail))),
    )
next-left m (suc k) a (x ∷ xs) (y ∷ ys) (h, hs) got small (l, kept, (b, was, now), ones) =
    let first : some y ≡ some x = kept 0 (omega arith) in
    let same : y ≡ x = cc in
    let len : length ys ≡ length xs = omega (arith, l) in
    let (tail, less) = next-left m k a xs ys hs got small (
      len,
      (λ j j'. kept (suc j) (omega arith)),
      (b, was, now),
      λ j low high. ones (suc j) (omega arith) (omega arith),
    ) in
    ((rw same h, tail), rw (same, len) (omega (arith, less)))
