-- ===== src/TrieSet/Intersect.antt =====
-- set.c: `set_intersection` and `set_intersection_inplace` give the intersection.
use thread_equivalence_check.Base.{
  ℕ, zero, suc, ◌*◌, ◌<◌, ◌≡◌, refl, inl, inr, Bool, false, ◌&&◌, Option, ◌==◌, ==_refl, sub32,
  bit_and, ◌⊎◌, arith,
}
use thread_equivalence_check.Base.Bits.{bit, bit-and, bit_and-lt, complement, bit-complement}
use thread_equivalence_check.TrieSet.{
  SetT, null, node, is_null, set_mk, set_alloc_offset, set_copy, intersection_child,
  set_intersection, intersection_inplace_child, set_intersection_inplace,
}
use thread_equivalence_check.TrieSet.Wf.{Wf, contains, digit, bit-cases, mask_has-bit}
use thread_equivalence_check.TrieSet.Store.{
  at_level, Round, Slots, Yields, Round-off, Round-on, store-Round, Slot-off, sub32-offset,
  Slots-node, inner_offset_ne,
}
use thread_equivalence_check.TrieSet.Copy.{member_at, copy-node}
use thread_equivalence_check.TrieSet.Free.{free_total}

abbrev both_at : ℕ → ℕ → ℕ → (ℕ → SetT) → (ℕ → SetT) → ℕ → ℕ → Bool
both_at k xm ym xc yc i v = member_at k xm xc i v && member_at k ym yc i v

Wf-not-null : (k : ℕ) (s : SetT) → Wf k s → is_null s ≡ false
Wf-not-null zero null w = absurd w
Wf-not-null (suc k) null w = absurd w
Wf-not-null k (node m o c) w = refl

module _ (k xm ym : ℕ) (xc yc : ℕ → SetT) (wx : Wf (suc k) (node xm (5 * suc k) xc))
    (wy : Wf (suc k) (node ym (5 * suc k) yc)) where
  intersection-Round :
      (both : ℕ → SetT → Option SetT) (i : ℕ) (d : ℕ → SetT)
      → i < 32
      → (bit i xm ≡ 1
          → bit i ym ≡ 1
          → Yields k
              (both i (set_alloc_offset (sub32 (5 * suc k) 5)))
              (λ v. contains k (xc i) v && contains k (yc i) v))
      → Round
          (Slots k (bit_and ym xm) (both_at k xm ym xc yc))
          (intersection_child (bit_and ym xm) (5 * suc k) both)
          i
          d
  unfolding intersection_child
  intersection-Round both i d lt call = split (bit-cases i xm) (bit-cases i ym)
    where
      body : ℕ → (ℕ → SetT) → Option (ℕ → SetT)
      body = intersection_child (bit_and ym xm) (5 * suc k) both

      f : ℕ → ℕ → Bool
      f = both_at k xm ym xc yc

      m : ℕ
      m = bit_and ym xm

      split :
          (bit i xm ≡ 0) ⊎ (bit i xm ≡ 1)
          → (bit i ym ≡ 0) ⊎ (bit i ym ≡ 1)
          → Round (Slots k m f) body i d
      split (inl x) (inl y) =
          Round-off k m f body i d (rw (bit-and, x, y) refl) (λ v. rw x refl)
            (rw (mask_has-bit m i lt, bit-and, x, y) refl)
      split (inl x) (inr y) =
          Round-off k m f body i d (rw (bit-and, x, y) refl) (λ v. rw x refl)
            (rw (mask_has-bit m i lt, bit-and, x, y) refl)
      split (inr x) (inl y) =
          Round-off k m f body i d (rw (bit-and, x, y) refl) (λ v. rw (x, y) (ground arith))
            (rw (mask_has-bit m i lt, bit-and, x, y) refl)
      split (inr x) (inr y) =
          Round-on k m f body i d (both i (set_alloc_offset (sub32 (5 * suc k) 5)))
            (rw (bit-and, x, y) refl) (wx.3 i lt x).0 (rw (x, y) (call x y))
            (rw (mask_has-bit m i lt, bit-and, x, y) refl)

  intersection_inplace-Round :
      (both : ℕ → SetT → Option SetT) (i : ℕ) (d : ℕ → SetT)
      → i < 32
      → d i ≡ yc i
      → (bit i xm ≡ 1
          → bit i ym ≡ 1
          → Yields k (both i (yc i)) (λ v. contains k (xc i) v && contains k (yc i) v))
      → Round
          (Slots k (bit_and ym xm) (both_at k xm ym xc yc))
          (intersection_inplace_child ym xm (5 * suc k) both xc)
          i
          d
  unfolding intersection_inplace_child set_alloc_offset set_mk
  intersection_inplace-Round both i d lt same call = split (bit-cases i xm) (bit-cases i ym)
    where
      body : ℕ → (ℕ → SetT) → Option (ℕ → SetT)
      body = intersection_inplace_child ym xm (5 * suc k) both xc

      f : ℕ → ℕ → Bool
      f = both_at k xm ym xc yc

      m : ℕ
      m = bit_and ym xm

      only_y : ℕ
      only_y = bit_and ym (complement xm)

      only_x : ℕ
      only_x = bit_and xm (complement ym)

      copied :
          bit i xm ≡ 1
          → Yields k (set_copy (set_alloc_offset (sub32 (5 * suc k) 5)) (xc i)) (contains k (xc i))
      copied x = copy-node k 0 (sub32 (5 * suc k) 5) (λ j. null) (xc i) (wx.3 i lt x).1

      split :
          (bit i xm ≡ 0) ⊎ (bit i xm ≡ 1)
          → (bit i ym ≡ 0) ⊎ (bit i ym ≡ 1)
          → Round (Slots k m f) body i d
      split (inl x) (inl y) =
          Round-off k m f body i d (rw (bit-and, x, y) refl) (λ v. rw x refl)
            (rw
              (
                mask_has-bit only_y i lt,
                bit-and,
                bit-complement i xm lt wx.0,
                x,
                y,
                mask_has-bit only_x i lt,
                bit-and,
                bit-complement i ym lt wy.0,
                x,
                y,
                mask_has-bit m i lt,
                bit-and,
                x,
                y,
              )
              refl)
      split (inl x) (inr y) =
          store-Round (Slots k m f) body i d null
            (rw
              (
                mask_has-bit only_y i lt,
                bit-and,
                bit-complement i xm lt wx.0,
                x,
                y,
                same,
                free_total (yc i) (Wf-not-null k (yc i) (wy.3 i lt y).1),
              )
              refl)
            (Slot-off k m i null (f i) (rw (bit-and, x, y) refl) (λ v. rw x refl))
      split (inr x) (inl y) =
          let (z, ran, wz, is) = copied x in
          store-Round (Slots k m f) body i d z
            (rw
              (
                mask_has-bit only_y i lt,
                bit-and,
                bit-complement i xm lt wx.0,
                x,
                y,
                mask_has-bit only_x i lt,
                bit-and,
                bit-complement i ym lt wy.0,
                x,
                y,
                ran,
              )
              refl)
            (Slot-off k m i z (f i) (rw (bit-and, x, y) refl) (λ v. rw (x, y) (ground arith)))
      split (inr x) (inr y) =
          Round-on k m f body i d (both i (d i)) (rw (bit-and, x, y) refl) (wx.3 i lt x).0
            (rw (x, y, same) (call x y))
            (rw
              (
                mask_has-bit only_y i lt,
                bit-and,
                bit-complement i xm lt wx.0,
                x,
                y,
                mask_has-bit only_x i lt,
                bit-and,
                bit-complement i ym lt wy.0,
                x,
                y,
                mask_has-bit m i lt,
                bit-and,
                x,
                y,
              )
              refl)

both_bit : (i a b : ℕ) → (bit i (bit_and b a) == 1) ≡ ((bit i a == 1) && (bit i b == 1))
both_bit i a b = split (bit-cases i a) (bit-cases i b)
  where
    split :
        (bit i a ≡ 0) ⊎ (bit i a ≡ 1)
        → (bit i b ≡ 0) ⊎ (bit i b ≡ 1)
        → (bit i (bit_and b a) == 1) ≡ ((bit i a == 1) && (bit i b == 1))
    split (inl x) (inl y) = rw (bit-and, x, y) refl
    split (inl x) (inr y) = rw (bit-and, x, y) refl
    split (inr x) (inl y) = rw (bit-and, x, y) refl
    split (inr x) (inr y) = rw (bit-and, x, y) refl

pub intersection-node :
    (k zm : ℕ) (zc : ℕ → SetT) (x y : SetT)
    → Wf k x
    → Wf k y
    → Yields k (set_intersection (node zm (5 * k) zc) x y) (λ v. contains k x v && contains k y v)
unfolding set_intersection set_alloc_offset set_mk
intersection-node zero zm zc null y wx wy = absurd wx
intersection-node (suc k) zm zc null y wx wy = absurd wx
intersection-node zero zm zc (node xm xo xc) null wx wy = absurd wy
intersection-node (suc k) zm zc (node xm xo xc) null wx wy = absurd wy
intersection-node zero zm zc (node xm xo xc) (node ym yo yc) (hx, ex) (hy, ey) = (
  node (bit_and ym xm) 0 zc,
  rw (ex, ey) refl,
  (bit_and-lt ym xm hy, refl),
  λ v. both_bit (digit 0 v) xm ym,
)
intersection-node (suc k) zm zc (node xm xo xc) (node ym yo yc) wx wy =
    let wx' = at_level k xm xo xc wx in
    let wy' = at_level k ym yo yc wy in
    rw (wx.1, wy.1, ==_refl (5 * suc k), inner_offset_ne k)
      (Slots-node k (bit_and ym xm) (both_at k xm ym xc yc)
        (intersection_child (bit_and ym xm) (5 * suc k) (λ i z. set_intersection z (xc i) (yc i)))
        zc (bit_and-lt ym xm wy.0) wx'.2
        (λ i d lt same.
          intersection-Round k xm ym xc yc wx' wy' (λ i z. set_intersection z (xc i) (yc i)) i d lt
            (λ a b.
              rw (sub32-offset k wx'.2)
                (intersection-node k 0 (λ j. null) (xc i) (yc i) (wx.3 i lt a).1 (wy.3 i lt b).1))))

pub intersection_inplace-node :
    (k : ℕ) (y x : SetT)
    → Wf k x
    → Wf k y
    → Yields k (set_intersection_inplace y x) (λ v. contains k x v && contains k y v)
unfolding set_intersection_inplace
intersection_inplace-node zero y null wx wy = absurd wx
intersection_inplace-node (suc k) y null wx wy = absurd wx
intersection_inplace-node zero null (node xm xo xc) wx wy = absurd wy
intersection_inplace-node (suc k) null (node xm xo xc) wx wy = absurd wy
intersection_inplace-node zero (node ym yo yc) (node xm xo xc) (hx, ex) (hy, ey) = (
  node (bit_and ym xm) 0 yc,
  rw (ex, ey) refl,
  (bit_and-lt ym xm hy, refl),
  λ v. both_bit (digit 0 v) xm ym,
)
intersection_inplace-node (suc k) (node ym yo yc) (node xm xo xc) wx wy =
    let wx' = at_level k xm xo xc wx in
    let wy' = at_level k ym yo yc wy in
    rw (wx.1, wy.1, ==_refl (5 * suc k), inner_offset_ne k)
      (Slots-node k (bit_and ym xm) (both_at k xm ym xc yc)
        (intersection_inplace_child ym xm (5 * suc k) (λ i y. set_intersection_inplace y (xc i)) xc)
        yc (bit_and-lt ym xm wy.0) wx'.2
        (λ i d lt same.
          intersection_inplace-Round k xm ym xc yc wx' wy'
            (λ i y. set_intersection_inplace y (xc i)) i d lt same
            (λ a b. intersection_inplace-node k (yc i) (xc i) (wx.3 i lt a).1 (wy.3 i lt b).1)))
