-- ===== src/TrieSet/Store.antt =====
-- One round of a loop that stores into `children[i]`.
use thread_equivalence_check.Base.{
  ℕ, suc, ◌*◌, ◌^◌, ◌≤◌, ◌<◌, ◌≡◌, ◌≢◌, refl, sym, subst, Bool, false, Option, some, ◌==◌, sub32,
  truthy, ◌>>=◌, ◌∙◌, bit_and, true, ltb, arith,
}
use thread_equivalence_check.Base.Bits.{bit, shl}
use thread_equivalence_check.Base.Loops.{for_loop}
use thread_equivalence_check.TrieSet.{SetT, node, mask_has, put}
use thread_equivalence_check.TrieSet.Wf.{
  Wf, contains, digit, Slot, node_lem, children_lem, mask_has-bit,
}

pub put_self : (c : ℕ → SetT) (i : ℕ) (x : SetT) → put c i x i ≡ x
unfolding put
put_self c i x = ground arith

pub put_ne : (c : ℕ → SetT) (i j : ℕ) (x : SetT) → j ≢ i → put c i x j ≡ c j
unfolding put
put_ne c i j x h = ground arith

abbrev pub Round :
    (ℕ → SetT → Type 0) → (ℕ → (ℕ → SetT) → Option (ℕ → SetT)) → ℕ → (ℕ → SetT) → Type 0
Round P body i d =
    (d' : ℕ → SetT) × (body i d ≡ some d') × P i (d' i) × ((j : ℕ) → j ≢ i → d' j ≡ d j)

module _ (P : ℕ → SetT → Type 0) (body : ℕ → (ℕ → SetT) → Option (ℕ → SetT)) (i : ℕ)
    (d : ℕ → SetT) where
  pub store-Round : (x : SetT) → body i d ≡ some (put d i x) → P i x → Round P body i d
  store-Round x ran p =
      (put d i x, ran, subst (P i) (sym (put_self d i x)) p, λ j ne. put_ne d i j x ne)

  pub keep-Round : body i d ≡ some d → P i (d i) → Round P body i d
  keep-Round ran p = (d, ran, p, λ j ne. refl)

pub truthy-present : (m i : ℕ) → i < 32 → truthy (bit_and m (shl 1 i)) ≡ (bit i m == 1)
unfolding mask_has
truthy-present m i h = mask_has-bit m i h

-- A slot whose bit is off stands for nothing.
pub Slot-off :
    (k m i : ℕ) (x : SetT) (f : ℕ → Bool) → bit i m ≡ 0 → ((v : ℕ) → f v ≡ false) → Slot k m i x f
Slot-off k m i x f off none_here = record {
  shape = λ on. absurd (omega arith);
  holds = λ v. rw off (sym (none_here v));
}

-- The offset of a child.
pub sub32-offset : (k : ℕ) → 5 * suc k ≤ 30 → sub32 (5 * suc k) 5 ≡ 5 * k
sub32-offset k h = omega arith

pub inner_offset : (k : ℕ) → ltb 0 (5 * suc k) ≡ true
inner_offset k = ground arith

pub inner_offset_ne : (k : ℕ) → (5 * suc k == 0) ≡ false
inner_offset_ne k = ground arith

-- `r` is a well-formed set at level `k` with the members `f`.
abbrev pub Yields : ℕ → Option SetT → (ℕ → Bool) → Type 0
Yields k r f = (x : SetT) × (r ≡ some x) × Wf k x × ((v : ℕ) → contains k x v ≡ f v)

pub Slot-on :
    (k m i : ℕ) (x : SetT) (f : ℕ → Bool)
    → bit i m ≡ 1
    → i * 2 ^ (5 * suc k) < 2 ^ 32
    → Wf k x
    → ((v : ℕ) → contains k x v ≡ f v)
    → Slot k m i x f
Slot-on k m i x f on fits w same = record { shape = λ _. (fits, w); holds = λ v. rw on (same v) }

abbrev pub Slots : ℕ → ℕ → (ℕ → ℕ → Bool) → ℕ → SetT → Type 0
Slots k m f i x = Slot k m i x (f i)

-- A round that skips a slot, and one that stores what a call yields.
module _ (k m : ℕ) (f : ℕ → ℕ → Bool) (body : ℕ → (ℕ → SetT) → Option (ℕ → SetT)) (i : ℕ)
    (d : ℕ → SetT) where
  pub Round-off :
      bit i m ≡ 0 → ((v : ℕ) → f i v ≡ false) → body i d ≡ some d → Round (Slots k m f) body i d
  Round-off off none_here ran =
      keep-Round (Slots k m f) body i d ran (Slot-off k m i (d i) (f i) off none_here)

  pub Round-kept :
      bit i m ≡ 1
      → i * 2 ^ (5 * suc k) < 2 ^ 32
      → Wf k (d i)
      → ((v : ℕ) → contains k (d i) v ≡ f i v)
      → body i d ≡ some d
      → Round (Slots k m f) body i d
  Round-kept on fits w same ran =
      keep-Round (Slots k m f) body i d ran (Slot-on k m i (d i) (f i) on fits w same)

  pub Round-on :
      (r : Option SetT)
      → bit i m ≡ 1
      → i * 2 ^ (5 * suc k) < 2 ^ 32
      → Yields k r (f i)
      → body i d ≡ (r >>= λ x. some (put d i x))
      → Round (Slots k m f) body i d
  Round-on r on fits (x, e, w, same) ran =
      store-Round (Slots k m f) body i d x (ran ∙ rw e refl) (Slot-on k m i x (f i) on fits w same)

-- The whole loop, once each round is known.
pub Slots-node :
    (k m : ℕ) (f : ℕ → ℕ → Bool) (body : ℕ → (ℕ → SetT) → Option (ℕ → SetT)) (c : ℕ → SetT)
    → m < 2 ^ 32
    → 5 * suc k ≤ 30
    → ((i : ℕ) (d : ℕ → SetT) → i < 32 → d i ≡ c i → Round (Slots k m f) body i d)
    → Yields
        (suc k)
        (for_loop 32 0 body c >>= λ c'. some (node m (5 * suc k) c'))
        (λ v. f (digit (suc k) v) v)
Slots-node k m f body c h o rounds =
    let (c', ran, slots) = children_lem (Slots k m f) body c rounds in
    let (w, same) = node_lem k m c' f h o slots in (node m (5 * suc k) c', rw ran refl, w, same)

pub Yields-as :
    (k : ℕ) (r : Option SetT) (f g : ℕ → Bool) → Yields k r f → ((v : ℕ) → f v ≡ g v) → Yields k r g
Yields-as k r f g (x, e, w, same) h = (x, e, w, λ v. same v ∙ h v)

pub at_level :
    (k m o : ℕ) (c : ℕ → SetT) → Wf (suc k) (node m o c) → Wf (suc k) (node m (5 * suc k) c)
at_level k m o c w = subst (λ t. Wf (suc k) (node m t c)) w.1 w
