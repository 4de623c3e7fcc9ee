-- ===== src/Malloc/Allocator.antt =====
-- equiv-malloc.c: `equiv_malloc_init`, `equiv_malloc`, `equiv_free` and `equiv_realloc`. The loops
-- over the free list and over the blocks to the right run on fuel, the first argument.
use thread_equivalence_check.Base.{
  ℕ, zero, suc, ◌+◌, Option, none, some, ◌==◌, ltb, leb, if◌then◌else◌, not, ◌&&◌, ◌||◌, add32,
  sub32, ◌*◌, ◌/◌, ◌>>=◌,
}
use thread_equivalence_check.Base.Loops.{for_loop}
use thread_equivalence_check.Malloc.{
  HeapT, Store, status_free, minimum_payload, size_max, max_request_size, write, roundup, get_size,
  get_status, set_status, set_size, make_block, header_of_payload, next_free, remove_free_block,
  append_free_block, next_block, coalesce_right, trim_block_if_possible, allocate_block,
}

unfoldable pub equiv_malloc_init : ℕ → ℕ → Store → Store × ℕ
equiv_malloc_init heap_start heap_size s =
    let first_block_size = sub32 heap_size 4 in
    let words1 = make_block heap_start status_free first_block_size s.words in
    let words2 = write (add32 heap_start 8) 0 (write (add32 heap_start 4) 0 words1) in
    let heap' : HeapT = record {
      first_free = heap_start;
      size = heap_size;
      base = heap_start;
      blocks_used = 0;
      blocks_free = 1;
      bytes_used = 0;
      bytes_free = first_block_size;
    } in
    if ltb heap_size (12 + minimum_payload)
    then (s, 0)
    else (record { words = words2; heap = heap' }, 1)

-- One block of the search: the best block so far, NULL at first, and the difference of its size to
-- what is needed.
unfoldable pub best_round : (ℕ → ℕ) → ℕ → ℕ → ℕ × ℕ → ℕ × ℕ
best_round words needs current_block best =
    let size = get_size words current_block in
    if leb needs size && ltb (sub32 size needs) best.1
    then (current_block, sub32 size needs)
    else best

-- The do loop on fuel, along the free list.
unfoldable pub best_fuel : ℕ → (ℕ → ℕ) → ℕ → ℕ → ℕ × ℕ → Option (ℕ × ℕ)
best_fuel zero words needs current_block best = none
best_fuel (suc fuel) words needs current_block best =
    let best' = best_round words needs current_block best in
    let rest = best_fuel fuel words needs (next_free words current_block) best' in
    if next_free words current_block == 0 then some best' else rest

-- The result is NULL if the request is not served; an empty free list is a fault, as the first round
-- reads the header of its head.
unfoldable pub equiv_malloc : ℕ → ℕ → Store → Option (Store × ℕ)
equiv_malloc fuel requested_size s =
    let at_least = if ltb requested_size minimum_payload then minimum_payload else requested_size in
    let needs = roundup at_least in
    if requested_size == 0 || ltb max_request_size requested_size
    then some (s, 0)
    else if s.heap.first_free == 0
    then none
    else (do
      (best, _) ← best_fuel fuel s.words needs s.heap.first_free (0, size_max)
      some (if best == 0 then (s, 0) else allocate_block best needs s))

unfoldable pub equiv_free : ℕ → ℕ → Store → Option Store
equiv_free fuel ptr s =
    let base = header_of_payload ptr in
    let size = get_size s.words base in
    let marked : Store = record s { words = set_status base status_free s.words } in
    let appended = append_free_block base marked in
    let heap = appended.heap in
    let heap' : HeapT = record heap {
      blocks_used = sub32 heap.blocks_used 1;
      blocks_free = add32 heap.blocks_free 1;
      bytes_free = add32 heap.bytes_free size;
      bytes_used = sub32 heap.bytes_used size;
    } in
    if ptr == 0 then some s else coalesce_right fuel base (record appended { heap = heap' })

-- `memcpy` of whole words, as all sizes are multiples of 4 in a heap whose size is one.
unfoldable pub copy_words : ℕ → ℕ → ℕ → Store → Option Store
copy_words dst src n s =
    for_loop n 0
      (λ i t.
        some (record t { words = write (add32 dst (4 * i)) (t.words (add32 src (4 * i))) t.words }))
      s

-- The block is merged with the free blocks to its right; the result is the space gained.
unfoldable pub absorb_right : ℕ → ℕ → Store → Option (Store × ℕ)
absorb_right fuel header s =
    let right = next_block s header in
    if not (right == 0) && get_status s.words right == status_free
    then (do
      merged ← coalesce_right fuel right s
      let gained = add32 (get_size merged.words right) 4 in
          let removed = remove_free_block right merged in
          let words' = set_size header (add32 (get_size s.words header) gained) removed.words in
          let heap = removed.heap in
          let heap' : HeapT = record heap {
            blocks_free = sub32 heap.blocks_free 1;
            bytes_free = sub32 heap.bytes_free (get_size words' right);
            bytes_used = add32 heap.bytes_used gained;
          } in
          some (record { words = words'; heap = heap' }, gained))
    else some (s, 0)

unfoldable pub move_block : ℕ → ℕ → ℕ → ℕ → Store → Option (Store × ℕ)
move_block fuel old_ptr old_size needs s = do
  (s1, new_block) ← equiv_malloc fuel needs s
  if new_block == 0 then some (s1, 0) else (do
    s2 ← copy_words new_block old_ptr (old_size / 4) s1
    s3 ← equiv_free fuel old_ptr s2
    some (s3, new_block))

unfoldable pub grow_block : ℕ → ℕ → ℕ → Store → Option (Store × ℕ)
grow_block fuel old_ptr needs s =
    let header = header_of_payload old_ptr in
    let old_size = get_size s.words header in
    (do
      (s', gained) ← absorb_right fuel header s
      if leb needs (add32 old_size gained)
          then some (trim_block_if_possible header needs s', old_ptr)
          else move_block fuel old_ptr (add32 old_size gained) needs s')

unfoldable pub equiv_realloc : ℕ → ℕ → ℕ → Store → Option (Store × ℕ)
equiv_realloc fuel old_ptr new_size s =
    if old_ptr == 0
    then equiv_malloc fuel new_size s
    else if new_size == 0
    then (do s' ← equiv_free fuel old_ptr s; some (s', 0))
    else if ltb max_request_size new_size
    then some (s, 0)
    else if leb (roundup new_size) (get_size s.words (header_of_payload old_ptr))
    then some (s, old_ptr)
    else grow_block fuel old_ptr (roundup new_size) s
