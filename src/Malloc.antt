-- ===== src/Malloc.antt =====
-- final_proj/code/equiv-malloc.c: the allocator. The memory is a function from word addresses; a
-- header at `h` is the word `metadata` at `h` and, in a free block, the words `previous_free` and
-- `next_free` at `h + 4` and `h + 8`, where the payload of a used block lies. NULL is 0.
pub mod Allocator
pub mod Headers
pub mod BestFit
pub mod Validate
pub mod Accounted
pub mod Fresh
pub mod HeapTests
pub mod Tests
use thread_equivalence_check.Base.{
  ℕ, zero, suc, ◌+◌, ◌-◌, ◌*◌, Option, none, some, Bool, true, false, ◌==◌, ltb, leb, if◌then◌else◌,
  not, ◌&&◌, ◌||◌, truthy, add32, sub32, bit_and, bit_or, ◌>>=◌,
}

abbrev pub status_free : ℕ
status_free = 1

abbrev pub status_used : ℕ
status_used = 0

-- `~STATUS_MASK`
abbrev pub size_mask : ℕ
size_mask = 0xFFFFFFFE

-- `MINIMUM_PAYLOAD`: two pointers, as the source counts them.
abbrev pub minimum_payload : ℕ
minimum_payload = 16

abbrev pub size_max : ℕ
size_max = 0xFFFFFFFF

abbrev pub max_request_size : ℕ
max_request_size = 1073741824

pub record HeapT : Type 0 where
  pub first_free : ℕ
  pub size : ℕ
  pub base : ℕ
  pub blocks_used : ℕ
  pub blocks_free : ℕ
  pub bytes_used : ℕ
  pub bytes_free : ℕ

-- The memory and the static variable `heap`.
pub record Store : Type 0 where
  pub words : ℕ → ℕ
  pub heap : HeapT

unfoldable pub write : ℕ → ℕ → (ℕ → ℕ) → ℕ → ℕ
write a v words b = if b == a then v else words b

-- `(sz + mult - 1) & ~(mult - 1)` with `mult` 8, `ALIGNMENT`.
unfoldable pub roundup : ℕ → ℕ
roundup sz = bit_and (add32 sz 7) 0xFFFFFFF8

unfoldable pub get_status : (ℕ → ℕ) → ℕ → ℕ
get_status words header = bit_and (words header) 1

unfoldable pub get_size : (ℕ → ℕ) → ℕ → ℕ
get_size words header = bit_and (words header) size_mask

unfoldable pub set_status : ℕ → ℕ → (ℕ → ℕ) → ℕ → ℕ
set_status header status words =
    write header (bit_or (get_size words header) (bit_and status 1)) words

unfoldable pub set_size : ℕ → ℕ → (ℕ → ℕ) → ℕ → ℕ
set_size header size words =
    write header (bit_or (bit_and size size_mask) (get_status words header)) words

unfoldable pub make_block : ℕ → ℕ → ℕ → (ℕ → ℕ) → ℕ → ℕ
make_block loc status size words = set_status loc status (set_size loc size words)

unfoldable pub get_payload_start : ℕ → ℕ
get_payload_start header = add32 header 4

unfoldable pub get_payload_end : (ℕ → ℕ) → ℕ → ℕ
get_payload_end words header = add32 header (add32 4 (get_size words header))

unfoldable pub header_of_payload : ℕ → ℕ
header_of_payload payload = sub32 payload 4

abbrev pub previous_free : (ℕ → ℕ) → ℕ → ℕ
previous_free words header = words (add32 header 4)

abbrev pub next_free : (ℕ → ℕ) → ℕ → ℕ
next_free words header = words (add32 header 8)

unfoldable pub remove_free_block : ℕ → Store → Store
remove_free_block header s =
    let previous = previous_free s.words header in
    let next = next_free s.words header in
    let heap = s.heap in
    let heap' : HeapT = if previous == 0 then record heap { first_free = next } else heap in
    let words' = if previous == 0 then s.words else write (add32 previous 8) next s.words in
    let words'' = if next == 0 then words' else write (add32 next 4) previous words' in
    record { words = words''; heap = heap' }

unfoldable pub append_free_block : ℕ → Store → Store
append_free_block header s =
    let old = s.heap.first_free in
    let heap = s.heap in
    let words' =
      if old == 0
      then s.words
      else write (add32 old 4) header
          (write (add32 header 4) 0 (write (add32 header 8) old s.words)) in
    let heap' : HeapT = record heap { first_free = header } in
    record { words = words'; heap = heap' }

-- The next block, or NULL past the end of the heap.
unfoldable pub next_block : Store → ℕ → ℕ
next_block s header =
    let end = get_payload_end s.words header in
    if ltb end (add32 s.heap.base s.heap.size) then end else 0

-- The while loop on fuel: each round makes the block longer. `next` is the last block reached.
unfoldable pub coalesce_fuel : ℕ → ℕ → ℕ → Store → Option Store
coalesce_fuel zero base next s = none
coalesce_fuel (suc fuel) base next s =
    let next' = next_block s next in
    let new_space = add32 (get_size s.words next') 4 in
    let grown : Store = record s {
      words = set_size base (add32 (get_size s.words base) new_space) s.words;
    } in
    let removed = remove_free_block next' grown in
    let heap = removed.heap in
    let heap' : HeapT = record heap {
      blocks_free = sub32 heap.blocks_free 1;
      bytes_free = add32 heap.bytes_free 4;
    } in
    let counted : Store = record removed { heap = heap' } in
    let rest = coalesce_fuel fuel base next' counted in
    if not (next' == 0) && get_status s.words next' == status_free then rest else some s

unfoldable pub coalesce_right : ℕ → ℕ → Store → Option Store
coalesce_right fuel base s = coalesce_fuel fuel base base s

unfoldable pub trim_block_if_possible : ℕ → ℕ → Store → Store
trim_block_if_possible header needs s =
    let excess = sub32 (get_size s.words header) needs in
    let excess_payload = sub32 excess 4 in
    let words1 = set_size header needs s.words in
    let new_block = get_payload_end words1 header in
    let made : Store = record s {
      words = make_block new_block status_free excess_payload words1;
    } in
    let appended = append_free_block new_block made in
    let heap = appended.heap in
    let heap' : HeapT = record heap {
      blocks_free = add32 heap.blocks_free 1;
      bytes_free = add32 heap.bytes_free excess_payload;
      bytes_used = sub32 heap.bytes_used excess;
    } in
    if leb (4 + minimum_payload) excess then record appended { heap = heap' } else s

unfoldable pub allocate_block : ℕ → ℕ → Store → Store × ℕ
allocate_block header needs s =
    let size = get_size s.words header in
    let heap = s.heap in
    let heap' : HeapT = record heap {
      blocks_free = sub32 heap.blocks_free 1;
      blocks_used = add32 heap.blocks_used 1;
      bytes_free = sub32 heap.bytes_free size;
      bytes_used = add32 heap.bytes_used size;
    } in
    let used : Store = record { words = set_status header status_used s.words; heap = heap' } in
    (remove_free_block header (trim_block_if_possible header needs used), get_payload_start header)
