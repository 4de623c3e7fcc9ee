-- ===== src/Memory.antt =====
-- final_proj/code/memory.c: the hash of the shared bytes, and ranges of bytes added to a set. The
-- functions of xxhash.h are parameters. The memory is a function from addresses to bytes.
pub mod Hash
pub mod Ranges
pub mod Segments
pub mod Restore
pub mod Tags
pub mod Tagging
pub mod Verify
pub mod SegmentTests
pub mod Tests
use thread_equivalence_check.Base.{ℕ, Option, some, List, [], ◌∷◌, add32, ◌>>=◌}
use thread_equivalence_check.Base.Loops.{for_loop}
use thread_equivalence_check.TrieSet.{SetT, set_foreach, set_insert}

-- `XXH32_createState`, `XXH32_update` on a string of bytes, and `XXH32_digest`.
pub record Xxh32 (H : Type 0) : Type 0 where
  pub create : H
  pub update : H → List ℕ → H
  pub digest : H → ℕ

module _ {H : Type 0} (x : Xxh32 H) (memory : ℕ → ℕ) where
  unfoldable pub hash_mem_value : ℕ → H → H
  hash_mem_value v state = x.update state (memory v ∷ [])

  unfoldable pub hash_mem : SetT → Option ℕ
  hash_mem mem = do (_, state) ← set_foreach hash_mem_value mem x.create; some (x.digest state)

unfoldable pub add_round : ℕ → ℕ → SetT → Option SetT
add_round base i mem = do (mem', _) ← set_insert mem (add32 base i); some mem'

unfoldable pub add_mem : SetT → ℕ → ℕ → Option SetT
add_mem mem base size = for_loop size 0 (add_round base) mem
