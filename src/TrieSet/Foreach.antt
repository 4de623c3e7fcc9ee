-- ===== src/TrieSet/Foreach.antt =====
-- set.c: `set_foreach` calls its handler on the members in ascending order, each once.
use native.Mathlib.Nat.{
  pow-suc, div-eq_of_lt-le, le_trans, mul-le-mul_left, mul-le-mul_right, one-le-pow,
}
use thread_equivalence_check.Base.{
  ℕ, zero, suc, ◌+◌, ◌*◌, ◌/◌, ◌^◌, ◌≤◌, ◌<◌, ◌≡◌, refl, sym, ◌∙◌, ap, inl, inr, Bool, Option, some,
  List, ◌++◌, length, length-append, u32, add32, bit_or, arith,
}
use thread_equivalence_check.Base.Bits.{bit, bit_or-fields, shl}
use thread_equivalence_check.Base.Loops.{for_loop, for_loop_inv}
use thread_equivalence_check.TrieSet.{
  SetT, null, node, visit_leaf, visit_child, set_foreach_recurse,
}
use thread_equivalence_check.TrieSet.Wf.{Wf, contains, digit, bit-cases, mask_has-bit}
use thread_equivalence_check.TrieSet.Store.{inner_offset}
use thread_equivalence_check.TrieSet.Members.{
  members, members-add, members-cong, members-none, visit_all, visit_all-append,
}

abbrev pub mask_of : SetT → ℕ
mask_of null = 0
mask_of (node m o c) = m

-- `(prefix << 5) | i`.
child_prefix : (p i : ℕ) → p * 32 < 2 ^ 32 → i < 32 → bit_or (shl p 5) i ≡ p * 32 + i
child_prefix p i h lt =
    let e : shl p 5 ≡ p * 2 ^ 5 = omega arith in rw e (bit_or-fields 5 p i (omega arith))

-- The values under slot `i` have the digit `i`.
digit_of_block :
    (k p i v : ℕ)
    → i < 32
    → p * 32 * 2 ^ (5 * k) + i * 2 ^ (5 * k) ≤ v
    → v < p * 32 * 2 ^ (5 * k) + i * 2 ^ (5 * k) + 2 ^ (5 * k)
    → digit k v ≡ i
digit_of_block k p i v lt low high =
    let q : v / 2 ^ (5 * k) ≡ p * 32 + i =
      div-eq_of_lt-le {k = p * 32 + i} (2 ^ (5 * k)) {m = v} (omega arith) (omega arith) in
    rw q (omega arith)

block_size : (k : ℕ) → 2 ^ (5 * suc k) ≡ 32 * 2 ^ (5 * k)
block_size k =
    let e : 5 * suc k ≡ suc (suc (suc (suc (suc (5 * k))))) = omega arith in
    rw e (
      omega (
        arith,
        pow-suc 2 (5 * k),
        pow-suc 2 (suc (5 * k)),
        pow-suc 2 (suc (suc (5 * k))),
        pow-suc 2 (suc (suc (suc (5 * k)))),
        pow-suc 2 (suc (suc (suc (suc (5 * k))))),
      ))

module _ {S : Type 0} (handler : ℕ → S → S) where
  -- The count and the state after calls on all of `vs`.
  abbrev pub total : List ℕ → S → ℕ × S
  total vs s = (u32 (length vs), visit_all handler vs s)

  abbrev then_block : ℕ × S → List ℕ → ℕ × S
  then_block t vs = (add32 t.0 (u32 (length vs)), visit_all handler vs t.1)

  total-append : (xs ys : List ℕ) (s : S) → then_block (total xs s) ys ≡ total (xs ++ ys) s
  total-append xs ys s =
      let count : add32 (u32 (length xs)) (u32 (length ys)) ≡ u32 (length (xs ++ ys)) =
        omega (arith, length-append xs ys) in
      λ i. (count i, sym (visit_all-append handler xs ys s) i)

  module _ (f : ℕ → Bool) (size base : ℕ) (body : ℕ → ℕ × S → Option (ℕ × S)) where
    abbrev block : ℕ → List ℕ
    block i = members f size (base + i * size)

    -- A loop whose round `i` visits the block `i` visits all blocks.
    blocks_lem :
        (s : S)
        → ((i : ℕ) (t : ℕ × S) → i < 32 → t.0 < 2 ^ 32 → body i t ≡ some (then_block t (block i)))
        → for_loop 32 0 body (0, s) ≡ some (total (members f (32 * size) base) s)
    unfolding members visit_all
    blocks_lem s round =
        let (t, ran, e) =
          for_loop_inv (λ i t. t ≡ total (members f (i * size) base) s) body 32 0 32 (0, s) refl
            (λ i t low high e. (
              then_block t (block i),
              round i t high (rw e (omega arith)),
              rw e (
                  total-append (members f (i * size) base) (block i) s
                  ∙ ap (λ vs. total vs s) (sym (grow i))),
            ))
            start in
        ran ∙ ap {B = Option (ℕ × S)} some e
      where
        grow : (i : ℕ) → members f ((i + 1) * size) base ≡ members f (i * size) base ++ block i
        grow i =
            let e : (i + 1) * size ≡ i * size + size = omega arith in
            rw e (members-add f (i * size) size base)

        start : (0, s) ≡ total (members f (0 * size) base) s
        start = let e : 0 * size ≡ 0 = omega arith in rw e refl

  -- The blocks under a leaf and under an inner node.
  leaf_round :
      (m o p i : ℕ) (c : ℕ → SetT) (t : ℕ × S)
      → i < 32
      → t.0 < 2 ^ 32
      → p * 32 < 2 ^ 32
      → visit_leaf handler m p i t
        ≡ some (then_block t (members (contains 0 (node m o c)) 1 (p * 32 * 1 + i * 1)))
  unfolding visit_leaf members visit_all
  leaf_round m o p i c t lt small fits =
      let v : p * 32 * 1 + i * 1 ≡ p * 32 + i = omega arith in
      let d : digit 0 (p * 32 + i) ≡ i = omega arith in
      rw (v, d, mask_has-bit m i lt, child_prefix p i fits lt)
        (elim (bit-cases i m) [
          | inl off ↦ rw off (let same : t.0 ≡ add32 t.0 0 = omega arith in λ j. some (same j, t.1))
          | inr on ↦ rw on refl
        ])

  inner_round :
      (k m p i : ℕ) (c : ℕ → SetT) (call : ℕ → ℕ → S → Option (ℕ × S)) (t : ℕ × S)
      → i < 32
      → t.0 < 2 ^ 32
      → p * 32 < 2 ^ 32
      → (bit i m ≡ 1
          → call i (p * 32 + i) t.1
            ≡ some (
                total
                  (members (contains k (c i)) (32 * 2 ^ (5 * k)) ((p * 32 + i) * 32 * 2 ^ (5 * k)))
                  t.1))
      → visit_child handler m call p i t
        ≡ some (
            then_block t (
              members
                (contains (suc k) (node m (5 * suc k) c))
                (2 ^ (5 * suc k))
                (p * 32 * 2 ^ (5 * suc k) + i * 2 ^ (5 * suc k))))
  unfolding visit_child visit_all
  inner_round k m p i c call t lt small fits visited =
      rw (mask_has-bit m i lt, child_prefix p i fits lt)
        (elim (bit-cases i m) [
          | inl off ↦
              rw
                (
                  off,
                  members-none (contains (suc k) (node m (5 * suc k) c)) (2 ^ (5 * suc k))
                      (p * 32 * 2 ^ (5 * suc k) + i * 2 ^ (5 * suc k))
                      (λ v low high. rw (digit_of_block (suc k) p i v lt low high, off) refl),
                )
                (let same : t.0 ≡ add32 t.0 0 = omega arith in λ j. some (same j, t.1))
          | inr on ↦
              let same : members (contains (suc k) (node m (5 * suc k) c)) (2 ^ (5 * suc k))
                    (p * 32 * 2 ^ (5 * suc k) + i * 2 ^ (5 * suc k))
                  ≡ members (contains k (c i)) (2 ^ (5 * suc k))
                      (p * 32 * 2 ^ (5 * suc k) + i * 2 ^ (5 * suc k)) =
                members-cong _ _ (2 ^ (5 * suc k)) _
                  (λ v low high. rw (digit_of_block (suc k) p i v lt low high, on) refl) in
              let start : (p * 32 + i) * 32 * 2 ^ (5 * k)
                  ≡ p * 32 * 2 ^ (5 * suc k) + i * 2 ^ (5 * suc k) =
                rw (block_size k) (omega arith) in
              rw (on, visited on, same, start, block_size k) refl
        ])

  -- The bits of the prefix above the 27th are lost by the shift, so it has to fit.
  abbrev pub Fits : ℕ → SetT → ℕ → Type 0
  Fits k s p =
      (p * 32 < 2 ^ 32)
      × ((i : ℕ) → i < 32 → bit i (mask_of s) ≡ 1 → (p * 32 + i + 1) * 2 ^ (5 * k) ≤ 2 ^ 32)

  child-Fits : (k p' : ℕ) (s : SetT) → (p' + 1) * 2 ^ (5 * suc k) ≤ 2 ^ 32 → Fits k s p'
  child-Fits k p' s h =
      let q : (p' + 1) * 2 ^ (5 * suc k) ≡ (p' + 1) * 32 * 2 ^ (5 * k) =
        rw (block_size k) (omega arith) in
      let low : (p' + 1) * 32 * 1 ≤ (p' + 1) * 32 * 2 ^ (5 * k) =
        mul-le-mul_left ((p' + 1) * 32) (one-le-pow (5 * k) 2 (omega arith)) in
      (
        omega arith,
        λ i lt on.
            let wide : p' * 32 + i + 1 ≤ (p' + 1) * 32 = omega arith in
            le_trans (mul-le-mul_right (2 ^ (5 * k)) wide) (omega arith),
      )

  pub foreach-node :
      (k : ℕ) (s : SetT) (p : ℕ) (st : S)
      → Wf k s
      → Fits k s p
      → set_foreach_recurse handler s p st
        ≡ some (total (members (contains k s) (32 * 2 ^ (5 * k)) (p * 32 * 2 ^ (5 * k))) st)
  unfolding set_foreach_recurse
  foreach-node zero null p st w fits = absurd w
  foreach-node (suc k) null p st w fits = absurd w
  foreach-node zero (node m o c) p st (h, e) fits = rw e (
      blocks_lem (contains 0 (node m o c)) 1 (p * 32 * 1) (visit_leaf handler m p) st
        (λ i t lt small. leaf_round m o p i c t lt small fits.0))
  foreach-node (suc k) (node m o c) p st w fits =
      rw (w.1, inner_offset k)
        (blocks_lem (contains (suc k) (node m (5 * suc k) c)) (2 ^ (5 * suc k))
          (p * 32 * 2 ^ (5 * suc k))
          (visit_child handler m (λ i. set_foreach_recurse handler (c i)) p) st
          (λ i t lt small.
            inner_round k m p i c (λ i. set_foreach_recurse handler (c i)) t lt small fits.0
              (λ on.
                foreach-node k (c i) (p * 32 + i) t.1 (w.3 i lt on).1
                  (child-Fits k (p * 32 + i) (c i) (fits.1 i lt on)))))
