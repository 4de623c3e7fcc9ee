-- ===== src/TrieSet/Count.antt =====
-- The contract of `set_foreach`, `set_cardinality` and `set_empty`.
use thread_equivalence_check.Base.{
  ℕ, ◌+◌, ◌-◌, ◌*◌, ◌^◌, ◌≤◌, ◌<◌, ◌≡◌, refl, subst, ◌∙◌, inl, inr, Bool, true, false, some, List,
  length, ◌==◌, u32, arith,
}
use mathlib.Core.List.{append-nil}
use thread_equivalence_check.TrieSet.{SetT, null, node, set_foreach, set_empty, set_cardinality}
use thread_equivalence_check.TrieSet.Wf.{Wf, contains, digit, digit-lt, bit-cases}
use thread_equivalence_check.TrieSet.Members.{
  members, members-add, members-cong, members-none, length-members-lt, length-members-pos,
  visit_all,
}
use thread_equivalence_check.TrieSet.Foreach.{Fits, foreach-node}
use thread_equivalence_check.TrieSet.Spec.{Denotes, contains_of}

root-Fits : {S : Type 0} (handler : ℕ → S → S) (s : SetT) → Wf 6 s → Fits handler 6 s 0
root-Fits handler null w = absurd w
root-Fits handler (node m o c) w = (
  omega arith,
  λ i lt on.
      let b : i * 2 ^ 30 < 2 ^ 32 = subst (λ t. i * 2 ^ t < 2 ^ 32) w.1 (w.3 i lt on).0 in
      omega arith,
)

beyond : (s : SetT) (v : ℕ) → Wf 6 s → 2 ^ 32 ≤ v → v < 2 ^ 35 → contains 6 s v ≡ false
beyond null v w low high = refl
beyond (node m o c) v w low high = elim (bit-cases (digit 6 v) m) [
  | inl off ↦ rw off refl
  | inr on ↦ absurd (
      let b : digit 6 v * 2 ^ 30 < 2 ^ 32 =
        subst (λ t. digit 6 v * 2 ^ t < 2 ^ 32) w.1 (w.3 (digit 6 v) (digit-lt 6 v) on).0 in
      omega arith)
]

-- The values that a set holds, in ascending order.
abbrev pub values : (ℕ → Bool) → List ℕ
values f = members f (2 ^ 32) 0

root_members :
    (s : SetT) (f : ℕ → Bool) → Denotes s f → members (contains 6 s) (2 ^ 35) 0 ≡ values f
root_members s f d =
    members-add (contains 6 s) (2 ^ 32) (2 ^ 35 - 2 ^ 32) 0
    ∙ rw
        (members-none (contains 6 s) (2 ^ 35 - 2 ^ 32) (0 + 2 ^ 32)
          (λ v low high. beyond s v d.wf low (omega arith)))
        (append-nil (members (contains 6 s) (2 ^ 32) 0)
          ∙ members-cong (contains 6 s) f (2 ^ 32) 0
              (λ v low high. contains_of s f v d (omega arith)))

module _ (s : SetT) (f : ℕ → Bool) (d : Denotes s f) where
  -- `set_foreach` calls the handler on the members in ascending order, each once, and returns their
  -- number modulo `2 ^ 32`.
  pub foreach-Denotes :
      {S : Type 0} (handler : ℕ → S → S) (st : S)
      → set_foreach handler s st ≡ some (u32 (length (values f)), visit_all handler (values f) st)
  unfolding set_foreach
  foreach-Denotes handler st =
      foreach-node handler 6 s 0 st d.wf (root-Fits handler s d.wf) ∙ rw (root_members s f d) refl

  -- `set_cardinality` is the number of members, unless every 32-bit value is one.
  pub cardinality-Denotes :
      (u : ℕ) → u < 2 ^ 32 → f u ≡ false → set_cardinality s ≡ some (length (values f))
  unfolding set_cardinality
  cardinality-Denotes u lt out =
      let small : length (values f) < 2 ^ 32 =
        length-members-lt f (2 ^ 32) 0 u (omega arith) (omega arith) out in
      let e : u32 (length (values f)) ≡ length (values f) = omega arith in
      rw (foreach-Denotes (λ v (t : Unit {0}). t) tt, e) refl

  -- `set_empty` returns 1 if no 32-bit value is a member, and 0 if some but not all are.
  pub empty-Denotes :
      (((v : ℕ) → v < 2 ^ 32 → f v ≡ false) → set_empty s ≡ some 1)
      × ((u v : ℕ) → u < 2 ^ 32 → v < 2 ^ 32 → f u ≡ false → f v ≡ true → set_empty s ≡ some 0)
  unfolding set_empty
  empty-Denotes = (
    (λ all.
        rw
          (
            cardinality-Denotes 0 (omega arith) (all 0 (omega arith)),
            members-none f (2 ^ 32) 0 (λ v low high. all v (omega arith)),
          )
          refl),
    λ u v hu hv fu fv.
        let pos : 0 < length (values f) =
          length-members-pos f (2 ^ 32) 0 v (omega arith) (omega arith) fv in
        let ne : (length (values f) == 0) ≡ false = ground arith in
        rw (cardinality-Denotes u hu fu, ne) refl,
  )
