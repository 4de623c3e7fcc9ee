-- ===== src/Touched.antt =====
-- final_proj/code/equiv-rw-set.c, `get_touched_bytes`: the bytes that a load or store touches, read
-- off the instruction. `bits_get` and `bit_isset` of libpi are parameters.
pub mod Run
pub mod Width
pub mod Arm
pub mod Decode
pub mod Tests
use thread_equivalence_check.Base.{
  ℕ, ◌+◌, Option, none, some, ◌==◌, if◌then◌else◌, truthy, add32, bit_and, bit_or, ◌>>=◌,
}
use thread_equivalence_check.Base.Bits.{shl, shr}
use thread_equivalence_check.Base.Loops.{for_loop}
use thread_equivalence_check.TrieSet.{SetT, set_insert}

-- `set_insert(destination_set, addr + i)`
unfoldable pub insert_byte : ℕ → ℕ → SetT → Option SetT
insert_byte addr i destination_set = do (t, _) ← set_insert destination_set (add32 addr i); some t

-- A round of the loop over the register list.
unfoldable pub register_round : ℕ → ℕ → ℕ → SetT × ℕ → Option (SetT × ℕ)
register_round register_list addr i (t, offset) =
    if truthy (bit_and (shr register_list i) 1)
    then (do t' ← for_loop 4 0 (insert_byte (add32 addr offset)) t; some (t', add32 offset 4))
    else some (t, offset)

module _ (bits_get : ℕ → ℕ → ℕ → ℕ) (bit_isset : ℕ → ℕ → ℕ) where
  -- Load or store of a halfword, a double word or a signed byte; other codes panic.
  unfoldable pub touched_extra : ℕ → ℕ → SetT → Option SetT
  touched_extra instruction addr t =
      let lsh = bit_or (shl (bit_isset instruction 20) 2) (bits_get instruction 5 6) in
      let half = (do t1 ← insert_byte addr 0 t; insert_byte addr 1 t1) in
      let double = for_loop 8 0 (insert_byte addr) t in
      if lsh == 1
      then half
      else if lsh == 7
      then half
      else if lsh == 5
      then half
      else if lsh == 2
      then double
      else if lsh == 3
      then double
      else if lsh == 6
      then insert_byte addr 0 t
      else none

  unfoldable pub touched_multiple : ℕ → ℕ → SetT → Option SetT
  touched_multiple instruction addr t = do
    (t', _) ← for_loop 16 0 (register_round (bits_get instruction 0 15) addr) (t, 0)
    some t'

  unfoldable pub get_touched_bytes : ℕ → ℕ → SetT → Option SetT
  get_touched_bytes instruction addr t =
      let word = for_loop 4 0 (insert_byte addr) t in
      let byte = insert_byte addr 0 t in
      if bits_get instruction 20 27 == 16
      then word
      else if bits_get instruction 20 27 == 20
      then byte
      else if bits_get instruction 21 27 == 12
      then word
      else if bits_get instruction 26 27 == 1
      then (if truthy (bit_isset instruction 22) then byte else word)
      else if bits_get instruction 25 27 == 0
      then touched_extra instruction addr t
      else if bits_get instruction 25 27 == 4
      then touched_multiple instruction addr t
      else some t
