-- ===== src/Memory/Tagging.antt =====
-- memory.c: what `get_tag` finds after `add_tag`.
use thread_equivalence_check.Base.{
  ℕ, zero, suc, ◌+◌, ◌<◌, ◌≤◌, ◌≡◌, ◌≢◌, refl, sym, ap, ◌∙◌, Option, none, some, false, ◌==◌,
  lt→ltb, ==_refl, if◌then◌else◌, u32, Bool-cases, inl, inr, arith,
}
use thread_equivalence_check.Memory.Tags.{MemoryTags, add_tag, find_tag, get_tag}

-- No tag has this address.
abbrev pub IsUntagged : {S : Type 0} → MemoryTags S → ℕ → Type 0
IsUntagged t addr = (i : ℕ) → i < t.n_tags → t.tag_bases i ≢ u32 addr

module _ {S : Type 0} where
  find_tag-last :
      (t : MemoryTags S) (b k i : ℕ)
      → ((j : ℕ) → i ≤ j → j < i + k → t.tag_bases j ≢ u32 b)
      → find_tag t b (suc k) i ≡ (if t.tag_bases (i + k) == u32 b then t.tags (i + k) else none)
  unfolding find_tag
  find_tag-last t b zero i h = let e : i + 0 ≡ i = omega arith in rw e refl
  find_tag-last t b (suc k) i h =
      let miss : (t.tag_bases i == u32 b) ≡ false =
        let ne = h i (omega arith) (omega arith) in ground arith in
      let e : i + suc k ≡ i + 1 + k = omega arith in
      rw (miss, e) (find_tag-last t b k (i + 1) (λ j low high. h j (omega arith) (omega arith)))

  find_tag-found :
      (t : MemoryTags S) (b k i j : ℕ)
      → i ≤ j
      → j < i + k
      → t.tag_bases j ≡ u32 b
      → find_tag t b (suc k) i ≡ find_tag t b k i
  unfolding find_tag
  find_tag-found t b zero i j low high e = absurd (omega arith)
  find_tag-found t b (suc k) i j low high e = elim (Bool-cases (t.tag_bases i == u32 b)) [
    | inl hit ↦ rw hit refl
    | inr miss ↦
        let ne : i ≢ j = λ p. ground (arith, rw p at miss) in
        rw miss (find_tag-found t b k (i + 1) j (omega arith) (omega arith) e)
  ]

  find_tag-agree :
      (t t' : MemoryTags S) (b k i : ℕ)
      → ((j : ℕ) → j < i + k → (t'.tag_bases j ≡ t.tag_bases j) × (t'.tags j ≡ t.tags j))
      → find_tag t' b k i ≡ find_tag t b k i
  unfolding find_tag
  find_tag-agree t t' b zero i h = refl
  find_tag-agree t t' b (suc k) i h =
      let same = h i (omega arith) in
      let rest = find_tag-agree t t' b k (i + 1) (λ j lt. h j (omega arith)) in
      rw (same.0, same.1, rest) refl

  -- The tags with one more.
  abbrev added : MemoryTags S → ℕ → Option S → MemoryTags S
  added t a tag = record t {
    n_tags = t.n_tags + 1;
    tag_bases = λ j. if j == t.n_tags then u32 a else t.tag_bases j;
    tags = λ j. if j == t.n_tags then tag else t.tags j;
  }

  added-below :
      (t : MemoryTags S) (a : ℕ) (tag : Option S) (j : ℕ)
      → j < t.n_tags
      → ((added t a tag).tag_bases j ≡ t.tag_bases j) × ((added t a tag).tags j ≡ t.tags j)
  added-below t a tag j lt =
      let other : (j == t.n_tags) ≡ false = ground arith in (rw other refl, rw other refl)

  get_tag-new :
      (t : MemoryTags S) (a b : ℕ) (tag : Option S)
      → IsUntagged t b
      → get_tag (added t a tag) b ≡ (if u32 a == u32 b then tag else none)
  unfolding get_tag
  get_tag-new t a b tag none_yet =
      let n : ℕ = t.n_tags in
      let next : n + 1 ≡ suc n = omega arith in
      let here : 0 + n ≡ n = omega arith in
      ap (λ k. find_tag (added t a tag) b k 0) next
      ∙ find_tag-last (added t a tag) b n 0 (λ j low high e.
        none_yet j (omega arith) (sym ((added-below t a tag j (omega arith)).0) ∙ e))
      ∙ rw (here, ==_refl n) refl

  get_tag-old :
      (t : MemoryTags S) (a b i : ℕ) (tag : Option S)
      → i < t.n_tags
      → t.tag_bases i ≡ u32 b
      → get_tag (added t a tag) b ≡ get_tag t b
  unfolding get_tag
  get_tag-old t a b i tag lt e =
      let n : ℕ = t.n_tags in
      let next : n + 1 ≡ suc n = omega arith in
      ap (λ k. find_tag (added t a tag) b k 0) next
      ∙ find_tag-found (added t a tag) b n 0 i (omega arith) (omega arith)
          ((added-below t a tag i lt).0 ∙ e)
      ∙ find_tag-agree t (added t a tag) b n 0 (λ j high. added-below t a tag j (omega arith))

-- With room left `add_tag` succeeds. Then an address that had no tag has the new one if it is the
-- address that was given, and none otherwise; an address that had one keeps it.
pub get_tag-add_tag :
    {S : Type 0} (t : MemoryTags S) (a b : ℕ) (tag : Option S)
    → t.n_tags < t.room
    → (t' : MemoryTags S) × (add_tag t a tag ≡ some t')
      × (IsUntagged t b → get_tag t' b ≡ (if u32 a == u32 b then tag else none))
      × ((i : ℕ) → i < t.n_tags → t.tag_bases i ≡ u32 b → get_tag t' b ≡ get_tag t b)
unfolding add_tag
get_tag-add_tag t a b tag h = (
  added t a tag,
  rw (lt→ltb _ _ h) refl,
  get_tag-new t a b tag,
  λ i lt e. get_tag-old t a b i tag lt e,
)
