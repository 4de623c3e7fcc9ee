-- ===== src/Malloc/Validate.antt =====
-- equiv-malloc.c, `validate_heap`: the tests of a heap. The loops run on fuel, the size of the heap;
-- `none` means that it ran out.
use thread_equivalence_check.Base.{
  ℕ, zero, suc, ◌+◌, ◌*◌, Option, none, some, ◌==◌, ltb, leb, if◌then◌else◌, not, ◌&&◌, ◌||◌, u32,
  add32, ◌>>=◌,
}
use thread_equivalence_check.Malloc.{
  Store, status_free, get_size, get_status, next_free, next_block,
}

-- The loop over the free list: the number of its blocks, unless one of them is used.
unfoldable pub count_free : ℕ → (ℕ → ℕ) → ℕ → ℕ → Option (Option ℕ)
count_free zero words current_free_block n_free = none
count_free (suc fuel) words current_free_block n_free =
    let next = next_free words current_free_block in
    let rest = count_free fuel words next (add32 n_free 1) in
    if not (get_status words current_free_block == status_free)
    then some none
    else if next == 0
    then some (some (add32 n_free 1))
    else rest

-- The loop over all blocks.
unfoldable pub check_blocks : ℕ → Store → ℕ → Option ℕ
check_blocks zero s current_block = none
check_blocks (suc fuel) s current_block =
    let size = get_size s.words current_block in
    let next = next_block s current_block in
    let rest = check_blocks fuel s next in
    if leb s.heap.size size || size == 0 then some 0 else if next == 0 then some 1 else rest

-- The headers and the payloads, as counted.
unfoldable pub counted_bytes : Store → ℕ
counted_bytes s =
    u32 ((s.heap.blocks_used + s.heap.blocks_free) * 4 + (s.heap.bytes_used + s.heap.bytes_free))

-- After the free list: a used block in it, or another number than is counted, is refused.
unfoldable pub after_free_list : Store → Option ℕ → Option ℕ
after_free_list s none = some 0
after_free_list s (some n_free) =
    if n_free == s.heap.blocks_free then check_blocks (suc s.heap.size) s s.heap.base else some 0

-- A free list has a block for each 4 bytes at most.
unfoldable pub validate_lists : Store → Option ℕ
validate_lists s = do
  counted ← count_free (suc s.heap.size) s.words s.heap.first_free 0
  after_free_list s counted

unfoldable pub validate_heap : Store → Option ℕ
validate_heap s =
    if s.heap.blocks_used == 0 && ltb 0 s.heap.bytes_used
    then some 0
    else if s.heap.blocks_free == 0 && ltb 0 s.heap.bytes_free
    then some 0
    else if not (counted_bytes s == s.heap.size)
    then some 0
    else validate_lists s
