-- ===== src/Memory/SegmentTests.antt =====
-- Two segments of four bytes, and the tags of a few addresses.
use thread_equivalence_check.Base.{
  ℕ, ◌+◌, ◌*◌, ◌<◌, ◌≡◌, refl, some, none, Option, List, [], ◌∷◌, Bool, true, false, ◌==◌,
  if◌then◌else◌, u32, add32, lt→ltb, arith, ltb,
}
use thread_equivalence_check.Base.Exists.{any_below}
use thread_equivalence_check.Memory.Segments.{
  MemorySegments, initialize_memory_state, reset_memory_state, verify_memory_state,
  capture_memory_state, bytes_at, hash_among,
}
use thread_equivalence_check.Memory.Restore.{Outside, IsLaidOut, reset-initialize}
use thread_equivalence_check.Memory.Tags.{MemoryTags, add_tag, get_tag}
use thread_equivalence_check.Memory.Tagging.{IsUntagged, get_tag-add_tag}
use thread_equivalence_check.Memory.Verify.{segment_bytes, verify_memory_state_lem}
use thread_equivalence_check.Memory.Tests.{sum, sum-Streams}

abbrev two : MemorySegments
two = record {
  num_ptrs = 2;
  ptr_list = λ k. 100 + 50 * k;
  ptr_og_list = λ k. 0;
  size_list = λ k. 4;
}

abbrev copies : ℕ → ℕ
copies k = 1000 + 16 * k

abbrev bytes : ℕ → ℕ
bytes v = v + 1

two-IsLaidOut : IsLaidOut two copies
two-IsLaidOut = record {
  sized = λ k h. omega arith;
  copies_apart = λ i k hi hk ne o ho. ground arith;
  saved_apart = λ i k hi hk o ho. ground arith;
  apart_saved = λ i k hi hk o ho. ground arith;
}

reset-initialize_example :
    (s' : MemorySegments) × (m' : ℕ → ℕ) × (initialize_memory_state copies two bytes
      ≡ some (s', m'))
    × ((b : ℕ) → Outside 2 copies (λ k. 4) b → m' b ≡ bytes b)
    × ((m1 : ℕ → ℕ)
        → ((k o : ℕ) → k < 2 → o < 4 → m1 (add32 (copies k) o) ≡ m' (add32 (copies k) o))
        → (m2 : ℕ → ℕ) × (reset_memory_state s' m1 ≡ some m2)
          × ((k o : ℕ)
              → k < 2
              → o < 4
              → m2 (add32 (100 + 50 * k) o) ≡ bytes (add32 (100 + 50 * k) o))
          × ((b : ℕ) → Outside 2 (λ k. 100 + 50 * k) (λ k. 4) b → m2 b ≡ m1 b))
reset-initialize_example = reset-initialize two copies bytes two-IsLaidOut

verify_memory_state_lem_example :
    verify_memory_state sum two bytes (λ i. 1000 + 20 * i) 3
    ≡ some (
        any_below 3
          (λ j. sum.digest (sum.update sum.create (segment_bytes two bytes 2)) == 1000 + 20 * j))
verify_memory_state_lem_example =
    verify_memory_state_lem sum sum-Streams two bytes (λ i. 1000 + 20 * i) 3

found : verify_memory_state sum two bytes (λ i. 1000 + 20 * i) 3 ≡ some true
unfolding verify_memory_state capture_memory_state bytes_at hash_among
    thread_equivalence_check.Base.Loops.for_loop
found = refl

abbrev no_tags : MemoryTags ℕ
no_tags = record { n_tags = 0; room = 2; tag_bases = λ j. 0; tags = λ j. none }

get_tag-add_tag_example :
    (t' : MemoryTags ℕ) × (add_tag no_tags 4096 (some 7) ≡ some t')
    × (IsUntagged no_tags 4096 → get_tag t' 4096 ≡ (if u32 4096 == u32 4096 then some 7 else none))
    × ((i : ℕ) → i < 0 → 0 ≡ u32 4096 → get_tag t' 4096 ≡ get_tag no_tags 4096)
get_tag-add_tag_example = get_tag-add_tag no_tags 4096 4096 (some 7) (omega arith)
