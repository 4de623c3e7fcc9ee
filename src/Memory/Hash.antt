-- ===== src/Memory/Hash.antt =====
-- memory.c: what `hash_mem` depends on.
use thread_equivalence_check.Base.{
  ℕ, zero, suc, ◌+◌, ◌≤◌, ◌<◌, ◌^◌, ◌≡◌, refl, sym, ◌∙◌, Bool, true, some, List, [], ◌∷◌, ◌++◌, map,
  arith, inl, inr, Bool-cases,
}
use thread_equivalence_check.TrieSet.{SetT}
use thread_equivalence_check.TrieSet.Members.{members, visit_all}
use thread_equivalence_check.TrieSet.Spec.{Denotes}
use thread_equivalence_check.TrieSet.Count.{values, foreach-Denotes}
use thread_equivalence_check.Memory.{Xxh32, hash_mem_value, hash_mem}

-- The documented behaviour of a streaming hash: updates add up.
abbrev pub Streams : {H : Type 0} → Xxh32 H → Type 0
Streams {H} x =
    ((h : H) → x.update h [] ≡ h)
    × ((h : H) (xs ys : List ℕ) → x.update (x.update h xs) ys ≡ x.update h (xs ++ ys))

module _ {H : Type 0} (x : Xxh32 H) (streams : Streams x) where
  visit_all-update :
      (memory : ℕ → ℕ) (vs : List ℕ) (h : H)
      → visit_all (hash_mem_value x memory) vs h ≡ x.update h (map memory vs)
  unfolding visit_all hash_mem_value
  visit_all-update memory [] h = sym (streams.0 h)
  visit_all-update memory (v ∷ vs) h =
      visit_all-update memory vs (x.update h (memory v ∷ []))
      ∙ streams.1 h (memory v ∷ []) (map memory vs)

  -- `hash_mem` succeeds on every set, and the result is the hash of the bytes of its members in
  -- ascending order, so that it depends on which bytes the set holds and not on its shape.
  pub hash_mem-Denotes :
      (memory : ℕ → ℕ) (s : SetT) (f : ℕ → Bool)
      → Denotes s f
      → hash_mem x memory s ≡ some (x.digest (x.update x.create (map memory (values f))))
  unfolding hash_mem
  hash_mem-Denotes memory s f d =
      rw
        (
          foreach-Denotes s f d (hash_mem_value x memory) x.create,
          visit_all-update memory (values f) x.create,
        )
        refl

map-agree :
    (f : ℕ → Bool) (m m' : ℕ → ℕ) (k i : ℕ)
    → ((v : ℕ) → i ≤ v → v < i + k → f v ≡ true → m v ≡ m' v)
    → map m (members f k i) ≡ map m' (members f k i)
unfolding members
map-agree f m m' zero i h = refl
map-agree f m m' (suc k) i h =
    let rest = map-agree f m m' k (i + 1) (λ v low high. h v (omega arith) (omega arith)) in
    elim (Bool-cases (f i)) [
      | inl on ↦ rw (on, h i (omega arith) (omega arith) on, rest) refl
      | inr off ↦ rw (off) rest
    ]

-- Two memories that agree on the members of the set have the same hash, whatever the other bytes.
pub hash_mem-agree :
    {H : Type 0} (x : Xxh32 H) (streams : Streams x) (m m' : ℕ → ℕ) (s : SetT) (f : ℕ → Bool)
    → Denotes s f
    → ((v : ℕ) → v < 2 ^ 32 → f v ≡ true → m v ≡ m' v)
    → hash_mem x m s ≡ hash_mem x m' s
hash_mem-agree x streams m m' s f d h =
    rw
      (
        hash_mem-Denotes x streams m s f d,
        hash_mem-Denotes x streams m' s f d,
        map-agree f m m' (2 ^ 32) 0 (λ v low high. h v (omega arith)),
      )
      refl
