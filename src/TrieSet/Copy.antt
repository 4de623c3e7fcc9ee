-- ===== src/TrieSet/Copy.antt =====
-- set.c: `set_copy` makes a set with the same members.
use thread_equivalence_check.Base.{
  ℕ, zero, suc, ◌*◌, ◌<◌, ◌≡◌, refl, inl, inr, Bool, ◌&&◌, Option, ◌==◌, sub32, subst,
}
use thread_equivalence_check.Base.Bits.{bit}
use thread_equivalence_check.TrieSet.{
  SetT, null, node, set_mk, set_alloc_offset, copy_child, set_copy,
}
use thread_equivalence_check.TrieSet.Wf.{Wf, contains, bit-cases}
use thread_equivalence_check.TrieSet.Store.{
  Round, Slots, Yields, Round-off, Round-on, Slots-node, truthy-present, inner_offset,
}

-- What slot `i` of a node stands for.
abbrev pub member_at : ℕ → ℕ → (ℕ → SetT) → ℕ → ℕ → Bool
member_at k m c i v = (bit i m == 1) && contains k (c i) v

copy-Round :
    (k m i : ℕ) (c d : ℕ → SetT) (copy : ℕ → SetT → Option SetT)
    → i < 32
    → Wf (suc k) (node m (5 * suc k) c)
    → (bit i m ≡ 1
        → Yields k (copy i (set_alloc_offset (sub32 (5 * suc k) 5))) (λ v. contains k (c i) v))
    → Round (Slots k m (member_at k m c)) (copy_child m (5 * suc k) copy) i d
unfolding copy_child
copy-Round k m i c d copy lt (h, _, b, w) call = elim (bit-cases i m) [
  | inl off ↦
      Round-off k m (member_at k m c) (copy_child m (5 * suc k) copy) i d off (λ v. rw off refl)
        (rw (truthy-present m i lt, off) refl)
  | inr on ↦
      Round-on k m (member_at k m c) (copy_child m (5 * suc k) copy) i d
        (copy i (set_alloc_offset (sub32 (5 * suc k) 5))) on (w i lt on).0 (rw on (call on))
        (rw (truthy-present m i lt, on) refl)
]

-- The result does not depend on what the fields of the destination were.
pub copy-node :
    (k m0 o0 : ℕ) (dst : ℕ → SetT) (s : SetT)
    → Wf k s
    → Yields k (set_copy (node m0 o0 dst) s) (λ v. contains k s v)
unfolding set_copy set_alloc_offset set_mk
copy-node zero m0 o0 dst null w = absurd w
copy-node (suc k) m0 o0 dst null w = absurd w
copy-node zero m0 o0 dst (node m o c) (h, e) = (node m 0 dst, rw e refl, (h, refl), λ v. refl)
copy-node (suc k) m0 o0 dst (node m o c) w =
    let e = w.1 in
    let w5 : Wf (suc k) (node m (5 * suc k) c) = subst (λ t. Wf (suc k) (node m t c)) e w in
    rw (e, inner_offset k)
      (Slots-node k m (member_at k m c) (copy_child m (5 * suc k) (λ i x. set_copy x (c i))) dst w.0
        w5.2
        (λ i d lt same.
          copy-Round k m i c d (λ i x. set_copy x (c i)) lt w5
            (λ on. copy-node k 0 (sub32 (5 * suc k) 5) (λ j. null) (c i) (w.3 i lt on).1)))
