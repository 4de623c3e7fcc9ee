-- ===== src/Malloc/Tests.antt =====
-- A heap with two free blocks, of 64 bytes at 256 and of 32 bytes at 512.
use thread_equivalence_check.Base.{
  ℕ, ◌<◌, ◌≡◌, ◌^◌, refl, some, [], ◌∷◌, ◌==◌, if◌then◌else◌, arith,
}
use thread_equivalence_check.Malloc.{Store, roundup, allocate_block}
use thread_equivalence_check.Malloc.Allocator.{equiv_malloc}
use thread_equivalence_check.Malloc.BestFit.{Chosen, malloc-Chosen}

abbrev two_free : ℕ → ℕ
two_free a = if a == 256 then 65 else if a == 264 then 512 else if a == 512 then 33 else 0

two_free_words : (a : ℕ) → two_free a < 2 ^ 32
two_free_words a = ground arith

abbrev store : Store
store = record {
  words = two_free;
  heap = record {
    first_free = 256;
    size = 1024;
    base = 256;
    blocks_used = 1;
    blocks_free = 2;
    bytes_used = 188;
    bytes_free = 96;
  };
}

abbrev empty_words : ℕ → ℕ
empty_words a = 0

rounded : roundup 24 ≡ 24
unfolding roundup
rounded = refl

malloc-Chosen_example :
    (b : ℕ) × (equiv_malloc 2 24 store
      ≡ some (if b == 0 then (store, 0) else allocate_block b 24 store))
    × Chosen two_free 24 (256 ∷ 512 ∷ []) b
malloc-Chosen_example =
    malloc-Chosen 2 24 24 256 (512 ∷ []) store (omega arith) (omega arith) rounded (omega arith)
      two_free_words refl (omega arith) (refl, omega arith, refl) (omega arith)
