-- ===== src/TrieSet/Spec.antt =====
-- The contract of set.c: a set stands for a predicate on the 32-bit values, which `set_lookup`
-- decides and which the other operations act on as set.h says.
use mathlib.Core.Bool.{◌||◌}
use thread_equivalence_check.Base.{
  ℕ, ◌^◌, ◌<◌, ◌≡◌, refl, sym, ◌∙◌, Bool, true, false, ◌&&◌, Option, some, ◌==◌, truthy, of_bool,
  arith,
}
use thread_equivalence_check.TrieSet.{
  SetT, node, max_offset, set_mk, set_alloc_offset, set_alloc, set_copy, set_insert, set_lookup,
  set_union, set_union_inplace, set_intersection, set_intersection_inplace,
}
use thread_equivalence_check.TrieSet.Wf.{Wf, contains}
use thread_equivalence_check.TrieSet.Lookup.{lookup-contains}
use thread_equivalence_check.TrieSet.Store.{Yields}
use thread_equivalence_check.TrieSet.Copy.{copy-node}
use thread_equivalence_check.TrieSet.Union.{union-node, union_inplace-node}
use thread_equivalence_check.TrieSet.Intersect.{intersection-node, intersection_inplace-node}
use thread_equivalence_check.TrieSet.Insert.{fresh-Wf, fresh-contains, insert-node, agree_lem}

-- `s` is a well-formed root and holds exactly the 32-bit values at which `f` is true.
pub record Denotes (s : SetT) (f : ℕ → Bool) : Type 0 where
  pub wf : Wf 6 s
  pub look : (v : ℕ) → v < 2 ^ 32 → set_lookup s v ≡ some (of_bool (f v))

of_bool_inj : (a b : Bool) → some (of_bool a) ≡ some (of_bool b) → a ≡ b
of_bool_inj true true h = refl
of_bool_inj true false h = absurd (ground arith)
of_bool_inj false true h = absurd (ground arith)
of_bool_inj false false h = refl

pub contains_of :
    (s : SetT) (f : ℕ → Bool) (v : ℕ) → Denotes s f → v < 2 ^ 32 → contains 6 s v ≡ f v
contains_of s f v d lt = of_bool_inj _ _ (sym (lookup-contains 6 s v d.wf) ∙ d.look v lt)

pub Denotes-mk :
    (s : SetT) (f : ℕ → Bool) → Wf 6 s → ((v : ℕ) → v < 2 ^ 32 → contains 6 s v ≡ f v) → Denotes s f
Denotes-mk s f w h = record { wf = w; look = λ v lt. lookup-contains 6 s v w ∙ rw (h v lt) refl }

-- Only the 32-bit values count.
pub Denotes-agree :
    (s : SetT) (f g : ℕ → Bool) → Denotes s f → ((v : ℕ) → v < 2 ^ 32 → f v ≡ g v) → Denotes s g
Denotes-agree s f g d h = record { wf = d.wf; look = λ v lt. d.look v lt ∙ rw (h v lt) refl }

-- A call that yields `g` at the root yields a set that denotes any `f` which agrees with `g`.
Yields-Denotes :
    (r : Option SetT) (g f : ℕ → Bool)
    → Yields 6 r g
    → ((v : ℕ) → v < 2 ^ 32 → g v ≡ f v)
    → (s : SetT) × (r ≡ some s) × Denotes s f
Yields-Denotes r g f (s, ran, w, same) h = (s, ran, Denotes-mk s f w (λ v lt. same v ∙ h v lt))

-- A new set is empty.
pub alloc-Denotes : Denotes set_alloc (λ v. false)
unfolding set_alloc set_alloc_offset set_mk
alloc-Denotes = Denotes-mk _ _ (fresh-Wf 6 (omega arith)) (λ v lt. fresh-contains 6 30 v)

-- For a 32-bit value `set_insert` succeeds, returns a nonzero result exactly if the value was in the
-- set already, and adds that value and no other.
pub insert-Denotes :
    (s : SetT) (f : ℕ → Bool) (v : ℕ)
    → Denotes s f
    → v < 2 ^ 32
    → (s' : SetT) × (r : ℕ) × (set_insert s v ≡ some (s', r))
      × (truthy r ≡ f v)
      × Denotes s' (λ u. f u || (u == v))
unfolding set_insert
insert-Denotes s f v d lt =
    let (s', r, ran, w, was, after) = insert-node 6 7 s v (omega arith) lt d.wf in
    (
      s',
      r,
      ran,
      was ∙ contains_of s f v d lt,
      Denotes-mk s' _ w
          (λ u small. after u ∙ rw (contains_of s f u d small, agree_lem u v small lt) refl),
    )

-- `set_copy` into any node gives a set with the members of the source.
copy-Denotes :
    (x : SetT) (f : ℕ → Bool)
    → Denotes x f
    → (m o : ℕ) (c : ℕ → SetT) → (s : SetT) × (set_copy (node m o c) x ≡ some s) × Denotes s f
copy-Denotes x f dx m o c =
    Yields-Denotes _ _ f (copy-node 6 m o c x dx.wf) (λ v lt. contains_of x f v dx lt)

module _ (x y : SetT) (f g : ℕ → Bool) (dx : Denotes x f) (dy : Denotes y g) where
  -- `set_union` into any root node, of two sets, gives their union.
  union-Denotes :
      (m : ℕ) (c : ℕ → SetT)
      → (s : SetT) × (set_union (node m max_offset c) x y ≡ some s) × Denotes s (λ v. f v || g v)
  union-Denotes m c =
      Yields-Denotes _ _ _ (union-node 6 m c x y dx.wf dy.wf)
        (λ v lt. rw (contains_of x f v dx lt, contains_of y g v dy lt) refl)

  -- `set_union_inplace(y, x)` gives the union of the two sets.
  pub union_inplace-Denotes :
      (s : SetT) × (set_union_inplace y x ≡ some s) × Denotes s (λ v. f v || g v)
  union_inplace-Denotes =
      Yields-Denotes _ _ _ (union_inplace-node 6 y x dx.wf dy.wf)
        (λ v lt. rw (contains_of x f v dx lt, contains_of y g v dy lt) refl)

  -- `set_intersection` into any root node, of two sets, gives their intersection.
  pub intersection-Denotes :
      (m : ℕ) (c : ℕ → SetT)
      → (s : SetT) × (set_intersection (node m max_offset c) x y ≡ some s)
        × Denotes s (λ v. f v && g v)
  intersection-Denotes m c =
      Yields-Denotes _ _ _ (intersection-node 6 m c x y dx.wf dy.wf)
        (λ v lt. rw (contains_of x f v dx lt, contains_of y g v dy lt) refl)

  -- `set_intersection_inplace(y, x)` gives the intersection of the two sets.
  intersection_inplace-Denotes :
      (s : SetT) × (set_intersection_inplace y x ≡ some s) × Denotes s (λ v. f v && g v)
  intersection_inplace-Denotes =
      Yields-Denotes _ _ _ (intersection_inplace-node 6 y x dx.wf dy.wf)
        (λ v lt. rw (contains_of x f v dx lt, contains_of y g v dy lt) refl)

  -- The operations on two sets are those of the predicates: `set_copy` into any root node gives the
  -- same set, `set_union` into any root node and `set_union_inplace(y, x)` give the union, and
  -- `set_intersection` into any root node and `set_intersection_inplace(y, x)` the intersection; all
  -- of them succeed.
  pub operations-Denotes :
      (m : ℕ) (c : ℕ → SetT)
      → (copy : SetT) × (union : SetT) × (union' : SetT) × (common : SetT) × (common' : SetT)
        × ((set_copy (node m max_offset c) x ≡ some copy) × Denotes copy f)
        × ((set_union (node m max_offset c) x y ≡ some union) × Denotes union (λ v. f v || g v))
        × ((set_union_inplace y x ≡ some union') × Denotes union' (λ v. f v || g v))
        × ((set_intersection (node m max_offset c) x y ≡ some common)
            × Denotes common (λ v. f v && g v))
        × ((set_intersection_inplace y x ≡ some common') × Denotes common' (λ v. f v && g v))
  operations-Denotes m c =
      let (s, copied, is_copy) = copy-Denotes x f dx m max_offset c in
      let (u, united, is_union) = union-Denotes m c in
      let (u', united', is_union') = union_inplace-Denotes in
      let (i, met, is_common) = intersection-Denotes m c in
      let (i', met', is_common') = intersection_inplace-Denotes in
      (
        s,
        u,
        u',
        i,
        i',
        (copied, is_copy),
        (united, is_union),
        (united', is_union'),
        (met, is_common),
        (met', is_common'),
      )
