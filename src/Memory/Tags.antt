-- ===== src/Memory/Tags.antt =====
-- final_proj/code/memory.c, the tags: names of addresses. An array is a function with the room that
-- was allocated; the arrays are taken to be allocated.
use thread_equivalence_check.Base.{
  ℕ, zero, suc, ◌+◌, Option, none, some, ◌==◌, ltb, if◌then◌else◌, u32,
}

-- A tag is a string, `none` is NULL.
pub record MemoryTags (S : Type 0) : Type 0 where
  pub n_tags : ℕ
  pub room : ℕ
  pub tag_bases : ℕ → ℕ
  pub tags : ℕ → Option S

module _ {S : Type 0} where
  -- What the arrays hold before is not determined: `bases` and `names`.
  unfoldable pub mk_tags : ℕ → (ℕ → ℕ) → (ℕ → Option S) → MemoryTags S
  mk_tags n_tags bases names = record { n_tags = 0; room = n_tags; tag_bases = bases; tags = names }

  -- A write past the room is a fault.
  unfoldable pub add_tag : MemoryTags S → ℕ → Option S → Option (MemoryTags S)
  add_tag t addr tag =
      let t' : MemoryTags S = record t {
        n_tags = t.n_tags + 1;
        tag_bases = λ j. if j == t.n_tags then u32 addr else t.tag_bases j;
        tags = λ j. if j == t.n_tags then tag else t.tags j;
      } in
      if ltb t.n_tags t.room then some t' else none

  -- The loop from `i` on, with `k` tags left.
  unfoldable pub find_tag : MemoryTags S → ℕ → ℕ → ℕ → Option S
  find_tag t addr zero i = none
  find_tag t addr (suc k) i =
      if t.tag_bases i == u32 addr then t.tags i else find_tag t addr k (i + 1)

  unfoldable pub get_tag : MemoryTags S → ℕ → Option S
  get_tag t addr = find_tag t addr t.n_tags 0
