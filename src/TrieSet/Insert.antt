-- ===== src/TrieSet/Insert.antt =====
-- set.c: `set_insert` adds one value and says whether it was there.
use mathlib.Core.Bool.{◌||◌}
use native.Mathlib.Nat.{div-mul-le_self, le_trans, mul-le-mul_right}
use thread_equivalence_check.Base.{
  ℕ, zero, suc, ◌*◌, ◌/◌, ◌%◌, ◌^◌, ◌≤◌, ◌<◌, ◌≡◌, ◌≢◌, refl, sym, subst, ◌∙◌, inl, inr, Bool, true,
  false, ◌&&◌, Option, some, ◌==◌, ==_iff, ==_refl, if◌then◌else◌, truthy, sub32, max, bit_and,
  bit_or, arith, Bool-cases,
}
use thread_equivalence_check.Base.Bits.{
  bit, bit-lt, bit-or, bit-pow, bit-zero, bit_or-lt, shl, shl-one,
}
use thread_equivalence_check.TrieSet.{SetT, null, node, put, set_mk, set_alloc_offset, insert_fuel}
use thread_equivalence_check.TrieSet.Wf.{
  Wf, contains, digit, digit-lt, bit-cases, index_at-digit, Slot, node_lem,
}
use thread_equivalence_check.TrieSet.Store.{
  put_self, put_ne, Slot-on, truthy-present, sub32-offset, inner_offset, at_level,
}
use thread_equivalence_check.TrieSet.Copy.{member_at}

-- `u` and `v` agree on the digits that the levels up to `k` read.
abbrev pub agree : ℕ → ℕ → ℕ → Bool
agree zero u v = digit 0 u == digit 0 v
agree (suc k) u v = (digit (suc k) u == digit (suc k) v) && agree k u v

pub fresh-Wf : (k : ℕ) → 5 * k ≤ 30 → Wf k (node 0 (5 * k) (λ i. null))
fresh-Wf zero h = (omega arith, refl)
fresh-Wf (suc k) h = (omega arith, refl, h, λ i lt on. absurd (omega (arith, bit-zero i)))

pub fresh-contains : (k o u : ℕ) → contains k (node 0 o (λ i. null)) u ≡ false
fresh-contains zero o u = rw (bit-zero) refl
fresh-contains (suc k) o u = rw (bit-zero) refl

abbrev Inserts : ℕ → SetT → ℕ → Option (SetT × ℕ) → Type 0
Inserts k s v out =
    (s' : SetT) × (r : ℕ) × (out ≡ some (s', r))
    × Wf k s'
    × (truthy r ≡ contains k s v)
    × ((u : ℕ) → contains k s' u ≡ (contains k s u || agree k u v))

bit-insert :
    (m i j : ℕ) → j < 32 → bit i (bit_or m (shl 1 j)) ≡ max (bit i m) (if i == j then 1 else 0)
bit-insert m i j h = rw (shl-one j h, bit-or, bit-pow) refl

-- The child that the recursion goes on into.
child_of : (k m i : ℕ) (c : ℕ → SetT) → SetT
child_of k m i c =
    if truthy (bit_and m (shl 1 i)) then c i else set_alloc_offset (sub32 (5 * suc k) 5)

alloc_child :
    (k : ℕ) → 5 * suc k ≤ 30 → set_alloc_offset (sub32 (5 * suc k) 5) ≡ node 0 (5 * k) (λ i. null)
unfolding set_alloc_offset set_mk
alloc_child k h = rw (sub32-offset k h) refl

child_of-lem :
    (k m i : ℕ) (c : ℕ → SetT)
    → i < 32
    → Wf (suc k) (node m (5 * suc k) c)
    → Wf k (child_of k m i c) × ((u : ℕ) → contains k (child_of k m i c) u ≡ member_at k m c i u)
unfolding child_of
child_of-lem k m i c lt (h, _, b, w) = elim (bit-cases i m) [
  | inl off ↦
      rw (truthy-present m i lt, off, alloc_child k b)
        (fresh-Wf k (omega arith), λ u. fresh-contains k (5 * k) u)
  | inr on ↦ rw (truthy-present m i lt, on) ((w i lt on).1, λ u. refl)
]

digit_fits : (v p : ℕ) → v / p % 32 * p ≤ v
digit_fits v p =
    let small : v / p % 32 ≤ v / p = omega arith in
    le_trans (mul-le-mul_right p small) (div-mul-le_self v p)

max_one : (b : ℕ) → b < 2 → max b 1 ≡ 1
max_one b h = omega arith

module _ (k m v : ℕ) (c : ℕ → SetT) (x : SetT) (w : Wf (suc k) (node m (5 * suc k) c)) (wx : Wf k x)
    (small : v < 2 ^ 32)
    (same : (u : ℕ) → contains k x u ≡ (member_at k m c (digit (suc k) v) u || agree k u v)) where
  abbrev inserted_at : ℕ → ℕ → Bool
  inserted_at i u = member_at k m c i u || ((i == digit (suc k) v) && agree k u v)

  index_fits : digit (suc k) v * 2 ^ (5 * suc k) < 2 ^ 32
  index_fits = omega (arith, digit_fits v (2 ^ (5 * suc k)))

  Slot-hit :
      Slot k
        (bit_or m (shl 1 (digit (suc k) v)))
        (digit (suc k) v)
        (put c (digit (suc k) v) x (digit (suc k) v))
        (inserted_at (digit (suc k) v))
  Slot-hit =
      let j : ℕ = digit (suc k) v in
      Slot-on k (bit_or m (shl 1 j)) j (put c j x j) (inserted_at j)
        (rw (bit-insert m j j (digit-lt (suc k) v), ==_refl j) (max_one (bit j m) (bit-lt j m)))
        index_fits (rw (put_self c j x) wx) (λ u. rw (put_self c j x, ==_refl j) (same u))

  Slot-miss :
      (i : ℕ)
      → i < 32
      → (i == digit (suc k) v) ≡ false
      → Slot k (bit_or m (shl 1 (digit (suc k) v))) i (put c (digit (suc k) v) x i) (inserted_at i)
  Slot-miss i lt miss =
      let j : ℕ = digit (suc k) v in
      let ne : i ≢ j = ground arith in
      let keep : bit i (bit_or m (shl 1 j)) ≡ bit i m =
        rw (bit-insert m i j (digit-lt (suc k) v), miss) (omega arith) in
      rw (put_ne c j i x ne) (record {
        shape = λ on. w.3 i lt (sym keep ∙ on);
        holds = λ u. rw (keep, miss) (ground arith);
      })

  insert-Slot :
      (i : ℕ)
      → i < 32
      → Slot k (bit_or m (shl 1 (digit (suc k) v))) i (put c (digit (suc k) v) x i) (inserted_at i)
  insert-Slot i lt = elim (Bool-cases (i == digit (suc k) v)) [
    | inl hit ↦
        subst
          (λ t.
            Slot k (bit_or m (shl 1 (digit (suc k) v))) t (put c (digit (suc k) v) x t)
              (inserted_at t))
          (sym ((==_iff i _).0 hit)) Slot-hit
    | inr miss ↦ Slot-miss i lt miss
  ]

leaf_bit :
    (m u v : ℕ)
    → (bit (digit 0 u) (bit_or m (shl 1 (digit 0 v))) == 1)
      ≡ ((bit (digit 0 u) m == 1) || (digit 0 u == digit 0 v))
leaf_bit m u v =
    rw (bit-insert m (digit 0 u) (digit 0 v) (digit-lt 0 v)) (elim (bit-cases (digit 0 u) m) [
      | inl off ↦ rw off (ground arith)
      | inr on ↦ rw on (ground arith)
    ])

-- With a round of fuel for each level the value is in the set afterwards, and nothing else changed.
pub insert-node :
    (k fuel : ℕ) (s : SetT) (v : ℕ)
    → k < fuel
    → v < 2 ^ 32
    → Wf k s
    → Inserts k s v (insert_fuel fuel s v)
unfolding insert_fuel child_of
insert-node k zero s v f small w = absurd (omega arith)
insert-node zero (suc fuel) null v f small w = absurd w
insert-node (suc k) (suc fuel) null v f small w = absurd w
insert-node zero (suc fuel) (node m o c) v f small (h, e) =
    let j : ℕ = digit 0 v in
    (
      node (bit_or m (shl 1 j)) 0 c,
      bit_and m (shl 1 j),
      rw (e, index_at-digit 0 v) refl,
      (bit_or-lt m (shl 1 j) h (omega arith), refl),
      truthy-present m j (digit-lt 0 v),
      λ u. leaf_bit m u v,
    )
insert-node (suc k) (suc fuel) (node m o c) v f small w =
    let j : ℕ = digit (suc k) v in
    let w' = at_level k m o c w in
    let (wc, members) = child_of-lem k m j c (digit-lt (suc k) v) w' in
    let (x, r, ran, wx, was, same) =
      insert-node k fuel (child_of k m j c) v (omega arith) small wc in
    let grown : (u : ℕ) → contains k x u ≡ (member_at k m c j u || agree k u v) =
      λ u. same u ∙ rw (members u) refl in
    let (wn, after) =
      node_lem k (bit_or m (shl 1 j)) (put c j x) (inserted_at k m v c x w' wx small grown)
        (bit_or-lt m (shl 1 j) w.0 (omega arith)) w'.2 (insert-Slot k m v c x w' wx small grown) in
    (
      node (bit_or m (shl 1 j)) (5 * suc k) (put c j x),
      r,
      rw (w.1, index_at-digit (suc k) v, inner_offset k, ran) refl,
      wn,
      was ∙ members v,
      after,
    )

both_true : (a b : Bool) → (a && b) ≡ true → (a ≡ true) × (b ≡ true)
both_true a b h = ground arith

-- One digit more.
regain : (p u v : ℕ) → u / p / 32 ≡ v / p / 32 → (u / p % 32 == v / p % 32) ≡ true → u / p ≡ v / p
regain p u v rest low = let e : u / p % 32 ≡ v / p % 32 = (==_iff _ _).0 low in omega arith

agree_eq : (u v : ℕ) → u < 2 ^ 32 → v < 2 ^ 32 → agree 6 u v ≡ true → u ≡ v
agree_eq u v hu hv h =
    let (d6, r6) = both_true (digit 6 u == digit 6 v) (agree 5 u v) h in
    let (d5, r5) = both_true (digit 5 u == digit 5 v) (agree 4 u v) r6 in
    let (d4, r4) = both_true (digit 4 u == digit 4 v) (agree 3 u v) r5 in
    let (d3, r3) = both_true (digit 3 u == digit 3 v) (agree 2 u v) r4 in
    let (d2, r2) = both_true (digit 2 u == digit 2 v) (agree 1 u v) r3 in
    let (d1, d0) = both_true (digit 1 u == digit 1 v) (agree 0 u v) r2 in
    let e6 : u / 2 ^ 30 ≡ v / 2 ^ 30 = regain (2 ^ 30) u v (omega arith) d6 in
    let e5 : u / 2 ^ 25 ≡ v / 2 ^ 25 = regain (2 ^ 25) u v (omega arith) d5 in
    let e4 : u / 2 ^ 20 ≡ v / 2 ^ 20 = regain (2 ^ 20) u v (omega arith) d4 in
    let e3 : u / 2 ^ 15 ≡ v / 2 ^ 15 = regain (2 ^ 15) u v (omega arith) d3 in
    let e2 : u / 2 ^ 10 ≡ v / 2 ^ 10 = regain (2 ^ 10) u v (omega arith) d2 in
    let e1 : u / 2 ^ 5 ≡ v / 2 ^ 5 = regain (2 ^ 5) u v (omega arith) d1 in
    let e0 : u / 2 ^ 0 ≡ v / 2 ^ 0 = regain (2 ^ 0) u v (omega arith) d0 in omega arith

agree_refl : (k u : ℕ) → agree k u u ≡ true
agree_refl zero u = ==_refl _
agree_refl (suc k) u = rw (==_refl (digit (suc k) u), agree_refl k u) refl

-- At the root the seven digits are the whole value.
pub agree_lem : (u v : ℕ) → u < 2 ^ 32 → v < 2 ^ 32 → agree 6 u v ≡ (u == v)
agree_lem u v hu hv = elim (Bool-cases (agree 6 u v)) [
  | inl e ↦ let e' : u ≡ v = agree_eq u v hu hv e in rw (e, e', ==_refl v) refl
  | inr ne ↦ elim (Bool-cases (u == v)) [
    | inl e ↦
        let e' : u ≡ v = (==_iff u v).0 e in
        let yes' : agree 6 u v ≡ true = rw e' (agree_refl 6 v) in yes' ∙ sym e
    | inr e ↦ ne ∙ sym e
  ]
]
