-- ===== src/TrieSet/Wf.antt =====
-- The shape of the tries that set.c builds, and the members of a trie.
use native.Mathlib.Nat.{one-le-pow}
use thread_equivalence_check.Base.{
  ℕ, zero, suc, ◌+◌, ◌*◌, ◌/◌, ◌%◌, ◌^◌, ◌≤◌, ◌<◌, ◌≡◌, ◌≢◌, refl, sym, subst, ◌∙◌, ◌⊎◌, inl, inr,
  Bool, false, ◌&&◌, Option, some, ◌==◌, truthy, bit_and, arith, Bool-cases,
}
use thread_equivalence_check.Base.Bits.{bit, bit-lt, bit_and-pow, bit_and-31, shl, shl-one}
use thread_equivalence_check.Base.Loops.{for_loop, for_loop_inv}
use thread_equivalence_check.TrieSet.{is_null, SetT, null, node, mask_has, index_at}

-- A node at level `k` has offset `5 * k` and a well-formed child at level `k - 1` for each bit of
-- its mask. Bits that stand for no 32-bit value are not set.
abbrev pub Wf : ℕ → SetT → Type 0
Wf k null = ⊥
Wf zero (node m o c) = (m < 2 ^ 32) × (o ≡ 0)
Wf (suc k) (node m o c) =
    (m < 2 ^ 32)
    × (o ≡ 5 * suc k)
    × (o ≤ 30)
    × ((i : ℕ) → i < 32 → bit i m ≡ 1 → (i * 2 ^ o < 2 ^ 32) × Wf k (c i))

-- The five bits of `v` that level `k` reads.
abbrev pub digit : ℕ → ℕ → ℕ
digit k v = v / 2 ^ (5 * k) % 32

abbrev pub contains : ℕ → SetT → ℕ → Bool
contains k null v = false
contains zero (node m o c) v = bit (digit 0 v) m == 1
contains (suc k) (node m o c) v =
    (bit (digit (suc k) v) m == 1) && contains k (c (digit (suc k) v)) v

pub bit-cases : (i m : ℕ) → (bit i m ≡ 0) ⊎ (bit i m ≡ 1)
bit-cases i m = grind (arith, bit-lt i m)

pub mask_has-bit : (m i : ℕ) → i < 32 → truthy (mask_has m i) ≡ (bit i m == 1)
unfolding mask_has
mask_has-bit m i h =
    rw (shl-one i h, bit_and-pow i m)
      (elim (bit-cases i m) [
        | inl e ↦ rw e (ground arith)
        | inr e ↦ rw e (ground (arith, one-le-pow i 2))
      ])

pub index_at-digit : (k v : ℕ) → index_at (5 * k) v ≡ digit k v
unfolding index_at
index_at-digit k v = bit_and-31 _

pub digit-lt : (k v : ℕ) → digit k v < 32
digit-lt k v = omega arith

-- What the slot `i` of a node at level `suc k` stands for.
pub record Slot (k m i : ℕ) (x : SetT) (f : ℕ → Bool) : Type 0 where
  pub shape : bit i m ≡ 1 → (i * 2 ^ (5 * suc k) < 2 ^ 32) × Wf k x
  pub holds : (v : ℕ) → ((bit i m == 1) && contains k x v) ≡ f v

-- A node is described slot by slot.
pub node_lem :
    (k m : ℕ) (c : ℕ → SetT) (f : ℕ → ℕ → Bool)
    → m < 2 ^ 32
    → 5 * suc k ≤ 30
    → ((i : ℕ) → i < 32 → Slot k m i (c i) (f i))
    → Wf (suc k) (node m (5 * suc k) c)
      × ((v : ℕ) → contains (suc k) (node m (5 * suc k) c) v ≡ f (digit (suc k) v) v)
node_lem k m c f h o slots = (
  (h, refl, o, λ i lt. (slots i lt).shape),
  λ v. (slots (digit (suc k) v) (digit-lt (suc k) v)).holds v,
)

-- A loop over the children whose round `i` changes no other child.
pub children_lem :
    (P : ℕ → SetT → Type 0) (body : ℕ → (ℕ → SetT) → Option (ℕ → SetT)) (c : ℕ → SetT)
    → ((i : ℕ) (d : ℕ → SetT)
        → i < 32
        → d i ≡ c i
        → (d' : ℕ → SetT) × (body i d ≡ some d') × P i (d' i) × ((j : ℕ) → j ≢ i → d' j ≡ d j))
    → (c' : ℕ → SetT) × (for_loop 32 0 body c ≡ some c') × ((i : ℕ) → i < 32 → P i (c' i))
children_lem P body c round =
    let (c', ran, inv) = for_loop_inv Inv body 32 0 32 c refl keep start in (c', ran, inv.0)
  where
    Inv : ℕ → (ℕ → SetT) → Type 0
    Inv n d = ((j : ℕ) → j < n → P j (d j)) × ((j : ℕ) → n ≤ j → d j ≡ c j)

    start : Inv 0 c
    start = (λ j h. absurd (omega arith), λ j h. refl)

    keep :
        (n : ℕ) (d : ℕ → SetT)
        → 0 ≤ n
        → n < 32
        → Inv n d
        → (d' : ℕ → SetT) × (body n d ≡ some d') × Inv (n + 1) d'
    keep n d low high (done, rest) =
        let (d', ran, hit, same) = round n d high (rest n (omega arith)) in
        (
          d',
          ran,
          (
            (λ j h. elim (Bool-cases (j == n)) [
              | inl e ↦ subst (λ t. P t (d' t)) (let e' : n ≡ j = ground arith in e') hit
              | inr e ↦
                  subst (P j) (sym (same j (let ne : j ≢ n = ground arith in ne)))
                    (done j (ground arith))
            ]),
            λ j h. same j (let ne : j ≢ n = omega arith in ne) ∙ rest j (omega arith),
          ),
        )

pub present-bit : (m i : ℕ) → i < 32 → bit_and m (shl 1 i) ≡ bit i m * 2 ^ i
present-bit m i h = rw (shl-one i h) (bit_and-pow i m)

pub present_zero : (m i : ℕ) → i < 32 → (bit_and m (shl 1 i) == 0) ≡ (bit i m == 0)
present_zero m i h = rw (present-bit m i h) (elim (bit-cases i m) [
  | inl e ↦ rw e (ground arith)
  | inr e ↦ rw e (ground (arith, one-le-pow i 2))
])

pub root-not-null : (s : SetT) → Wf 6 s → is_null s ≡ false
root-not-null SetT.null w = absurd w
root-not-null (node m o c) w = refl
