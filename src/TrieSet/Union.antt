-- ===== src/TrieSet/Union.antt =====
-- set.c: `set_union` and `set_union_inplace` give the union.
use mathlib.Core.Bool.{◌||◌, or_comm}
use thread_equivalence_check.Base.{
  ℕ, zero, suc, ◌*◌, ◌<◌, ◌≡◌, refl, inl, inr, Bool, Option, ◌==◌, ==_refl, sub32, ◌∙◌, bit_and,
  bit_or, ◌⊎◌, arith,
}
use thread_equivalence_check.Base.Bits.{bit, bit-or, bit-and, bit_or-lt}
use thread_equivalence_check.TrieSet.{
  SetT, null, node, set_mk, set_alloc_offset, set_copy, union_child, set_union, union_inplace_child,
  set_union_inplace,
}
use thread_equivalence_check.TrieSet.Wf.{Wf, contains, digit, bit-cases, mask_has-bit}
use thread_equivalence_check.TrieSet.Store.{
  at_level, Round, Slots, Yields, Yields-as, Round-off, Round-kept, Round-on, sub32-offset,
  Slots-node, inner_offset_ne,
}
use thread_equivalence_check.TrieSet.Copy.{member_at, copy-node}

abbrev either_at : ℕ → ℕ → ℕ → (ℕ → SetT) → (ℕ → SetT) → ℕ → ℕ → Bool
either_at k xm ym xc yc i v = member_at k xm xc i v || member_at k ym yc i v

module _ (k xm ym : ℕ) (xc yc : ℕ → SetT) (wx : Wf (suc k) (node xm (5 * suc k) xc))
    (wy : Wf (suc k) (node ym (5 * suc k) yc)) where
  copied_left :
      (i : ℕ)
      → i < 32
      → bit i xm ≡ 1
      → bit i ym ≡ 0
      → Yields k
          (set_copy (set_alloc_offset (sub32 (5 * suc k) 5)) (xc i))
          (either_at k xm ym xc yc i)
  unfolding set_alloc_offset set_mk
  copied_left i lt x y =
      Yields-as k _ _ _ (copy-node k 0 (sub32 (5 * suc k) 5) (λ j. null) (xc i) (wx.3 i lt x).1)
        (λ v. rw (x, y) (ground arith))

  copied_right :
      (i : ℕ)
      → i < 32
      → bit i xm ≡ 0
      → bit i ym ≡ 1
      → Yields k
          (set_copy (set_alloc_offset (sub32 (5 * suc k) 5)) (yc i))
          (either_at k xm ym xc yc i)
  unfolding set_alloc_offset set_mk
  copied_right i lt x y =
      Yields-as k _ _ _ (copy-node k 0 (sub32 (5 * suc k) 5) (λ j. null) (yc i) (wy.3 i lt y).1)
        (λ v. rw (x, y) (ground arith))

  union-Round :
      (both : ℕ → SetT → Option SetT) (i : ℕ) (d : ℕ → SetT)
      → i < 32
      → (bit i xm ≡ 1
          → bit i ym ≡ 1
          → Yields k
              (both i (set_alloc_offset (sub32 (5 * suc k) 5)))
              (λ v. contains k (xc i) v || contains k (yc i) v))
      → Round
          (Slots k (bit_or xm ym) (either_at k xm ym xc yc))
          (union_child xm ym (5 * suc k) both xc yc)
          i
          d
  unfolding union_child
  union-Round both i d lt call = split (bit-cases i xm) (bit-cases i ym)
    where
      body : ℕ → (ℕ → SetT) → Option (ℕ → SetT)
      body = union_child xm ym (5 * suc k) both xc yc

      f : ℕ → ℕ → Bool
      f = either_at k xm ym xc yc

      m : ℕ
      m = bit_or xm ym

      fresh : SetT
      fresh = set_alloc_offset (sub32 (5 * suc k) 5)

      split :
          (bit i xm ≡ 0) ⊎ (bit i xm ≡ 1)
          → (bit i ym ≡ 0) ⊎ (bit i ym ≡ 1)
          → Round (Slots k m f) body i d
      split (inl x) (inl y) =
          Round-off k m f body i d (rw (bit-or, x, y) refl) (λ v. rw (x, y) refl)
            (rw
              (mask_has-bit (bit_and xm ym) i lt, bit-and, x, y, mask_has-bit m i lt, bit-or, x, y)
              refl)
      split (inl x) (inr y) =
          Round-on k m f body i d (set_copy fresh (yc i)) (rw (bit-or, x, y) refl) (wy.3 i lt y).0
            (copied_right i lt x y)
            (rw
              (
                mask_has-bit (bit_and xm ym) i lt,
                bit-and,
                x,
                y,
                mask_has-bit m i lt,
                bit-or,
                x,
                y,
                mask_has-bit xm i lt,
                x,
                mask_has-bit ym i lt,
                y,
              )
              refl)
      split (inr x) (inl y) =
          Round-on k m f body i d (set_copy fresh (xc i)) (rw (bit-or, x, y) refl) (wx.3 i lt x).0
            (copied_left i lt x y)
            (rw
              (
                mask_has-bit (bit_and xm ym) i lt,
                bit-and,
                x,
                y,
                mask_has-bit m i lt,
                bit-or,
                x,
                y,
                mask_has-bit xm i lt,
                x,
              )
              refl)
      split (inr x) (inr y) =
          Round-on k m f body i d (both i fresh) (rw (bit-or, x, y) refl) (wx.3 i lt x).0
            (rw (x, y) (call x y)) (rw (mask_has-bit (bit_and xm ym) i lt, bit-and, x, y) refl)

  union_inplace-Round :
      (both : ℕ → SetT → Option SetT) (i : ℕ) (d : ℕ → SetT)
      → i < 32
      → d i ≡ yc i
      → (bit i xm ≡ 1
          → bit i ym ≡ 1
          → Yields k (both i (yc i)) (λ v. contains k (xc i) v || contains k (yc i) v))
      → Round
          (Slots k (bit_or ym xm) (either_at k xm ym xc yc))
          (union_inplace_child ym xm (5 * suc k) both xc)
          i
          d
  unfolding union_inplace_child
  union_inplace-Round both i d lt same call = split (bit-cases i xm) (bit-cases i ym)
    where
      body : ℕ → (ℕ → SetT) → Option (ℕ → SetT)
      body = union_inplace_child ym xm (5 * suc k) both xc

      f : ℕ → ℕ → Bool
      f = either_at k xm ym xc yc

      m : ℕ
      m = bit_or ym xm

      fresh : SetT
      fresh = set_alloc_offset (sub32 (5 * suc k) 5)

      split :
          (bit i xm ≡ 0) ⊎ (bit i xm ≡ 1)
          → (bit i ym ≡ 0) ⊎ (bit i ym ≡ 1)
          → Round (Slots k m f) body i d
      split (inl x) (inl y) =
          Round-off k m f body i d (rw (bit-or, x, y) refl) (λ v. rw (x, y) refl)
            (rw (mask_has-bit (bit_and ym xm) i lt, bit-and, x, y, mask_has-bit xm i lt, x) refl)
      split (inl x) (inr y) =
          Round-kept k m f body i d (rw (bit-or, x, y) refl) (wy.3 i lt y).0
            (rw same (wy.3 i lt y).1) (λ v. rw (same, x, y) refl)
            (rw (mask_has-bit (bit_and ym xm) i lt, bit-and, x, y, mask_has-bit xm i lt, x) refl)
      split (inr x) (inl y) =
          Round-on k m f body i d (set_copy fresh (xc i)) (rw (bit-or, x, y) refl) (wx.3 i lt x).0
            (copied_left i lt x y)
            (rw (mask_has-bit (bit_and ym xm) i lt, bit-and, x, y, mask_has-bit xm i lt, x) refl)
      split (inr x) (inr y) =
          Round-on k m f body i d (both i (d i)) (rw (bit-or, x, y) refl) (wx.3 i lt x).0
            (rw (x, y, same) (call x y))
            (rw (mask_has-bit (bit_and ym xm) i lt, bit-and, x, y) refl)

either_bit : (i a b : ℕ) → (bit i (bit_or a b) == 1) ≡ ((bit i a == 1) || (bit i b == 1))
either_bit i a b = split (bit-cases i a) (bit-cases i b)
  where
    split :
        (bit i a ≡ 0) ⊎ (bit i a ≡ 1)
        → (bit i b ≡ 0) ⊎ (bit i b ≡ 1)
        → (bit i (bit_or a b) == 1) ≡ ((bit i a == 1) || (bit i b == 1))
    split (inl x) (inl y) = rw (bit-or, x, y) refl
    split (inl x) (inr y) = rw (bit-or, x, y) refl
    split (inr x) (inl y) = rw (bit-or, x, y) refl
    split (inr x) (inr y) = rw (bit-or, x, y) refl

pub union-node :
    (k zm : ℕ) (zc : ℕ → SetT) (x y : SetT)
    → Wf k x
    → Wf k y
    → Yields k (set_union (node zm (5 * k) zc) x y) (λ v. contains k x v || contains k y v)
unfolding set_union set_alloc_offset set_mk
union-node zero zm zc null y wx wy = absurd wx
union-node (suc k) zm zc null y wx wy = absurd wx
union-node zero zm zc (node xm xo xc) null wx wy = absurd wy
union-node (suc k) zm zc (node xm xo xc) null wx wy = absurd wy
union-node zero zm zc (node xm xo xc) (node ym yo yc) (hx, ex) (hy, ey) = (
  node (bit_or xm ym) 0 zc,
  rw (ex, ey) refl,
  (bit_or-lt xm ym hx hy, refl),
  λ v. either_bit (digit 0 v) xm ym,
)
union-node (suc k) zm zc (node xm xo xc) (node ym yo yc) wx wy =
    let wx' = at_level k xm xo xc wx in
    let wy' = at_level k ym yo yc wy in
    rw (wx.1, wy.1, ==_refl (5 * suc k), inner_offset_ne k)
      (Slots-node k (bit_or xm ym) (either_at k xm ym xc yc)
        (union_child xm ym (5 * suc k) (λ i z. set_union z (xc i) (yc i)) xc yc) zc
        (bit_or-lt xm ym wx.0 wy.0) wx'.2
        (λ i d lt same.
          union-Round k xm ym xc yc wx' wy' (λ i z. set_union z (xc i) (yc i)) i d lt
            (λ a b.
              rw (sub32-offset k wx'.2)
                (union-node k 0 (λ j. null) (xc i) (yc i) (wx.3 i lt a).1 (wy.3 i lt b).1))))

pub union_inplace-node :
    (k : ℕ) (y x : SetT)
    → Wf k x
    → Wf k y
    → Yields k (set_union_inplace y x) (λ v. contains k x v || contains k y v)
unfolding set_union_inplace
union_inplace-node zero y null wx wy = absurd wx
union_inplace-node (suc k) y null wx wy = absurd wx
union_inplace-node zero null (node xm xo xc) wx wy = absurd wy
union_inplace-node (suc k) null (node xm xo xc) wx wy = absurd wy
union_inplace-node zero (node ym yo yc) (node xm xo xc) (hx, ex) (hy, ey) = (
  node (bit_or ym xm) 0 yc,
  rw (ex, ey) refl,
  (bit_or-lt ym xm hy hx, refl),
  λ v. either_bit (digit 0 v) ym xm ∙ or_comm (bit (digit 0 v) ym == 1) _,
)
union_inplace-node (suc k) (node ym yo yc) (node xm xo xc) wx wy =
    let wx' = at_level k xm xo xc wx in
    let wy' = at_level k ym yo yc wy in
    rw (wx.1, wy.1, ==_refl (5 * suc k), inner_offset_ne k)
      (Slots-node k (bit_or ym xm) (either_at k xm ym xc yc)
        (union_inplace_child ym xm (5 * suc k) (λ i y. set_union_inplace y (xc i)) xc) yc
        (bit_or-lt ym xm wy.0 wx.0) wx'.2
        (λ i d lt same.
          union_inplace-Round k xm ym xc yc wx' wy' (λ i y. set_union_inplace y (xc i)) i d lt same
            (λ a b. union_inplace-node k (yc i) (xc i) (wx.3 i lt a).1 (wy.3 i lt b).1)))
