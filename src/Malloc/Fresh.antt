-- ===== src/Malloc/Fresh.antt =====
-- equiv-malloc.c: the heap that `equiv_malloc_init` makes passes `validate_heap`.
use thread_equivalence_check.Base.{
  ℕ, suc, ◌+◌, ◌-◌, ◌≤◌, ◌<◌, ◌%◌, ◌^◌, ◌≡◌, refl, some, true, false, ◌==◌, ltb, ==_refl, leb, u32,
  ◌*◌, add32, sub32, arith,
}
use thread_equivalence_check.Malloc.{
  Store, write, make_block, get_size, get_status, get_payload_end, next_block,
}
use thread_equivalence_check.Malloc.Allocator.{equiv_malloc_init}
use thread_equivalence_check.Malloc.Headers.{make_block-fields}
use thread_equivalence_check.Malloc.Validate.{
  count_free, check_blocks, counted_bytes, after_free_list, validate_lists, validate_heap,
}

module _ (start size : ℕ) (s : Store) (even : size % 2 ≡ 0) (large : 28 ≤ size)
    (fits : start + size < 2 ^ 32) where
  abbrev block : ℕ → ℕ
  block = make_block start 1 (sub32 size 4) s.words

  -- The words of the fresh heap.
  abbrev words : ℕ → ℕ
  words = write (add32 start 8) 0 (write (add32 start 4) 0 block)

  fresh-words :
      (get_size words start ≡ size - 4) × (get_status words start ≡ 1) × (words (add32 start 8) ≡ 0)
  unfolding write get_size get_status
  fresh-words =
      let less : sub32 size 4 ≡ size - 4 = omega arith in
      let (sized, free, rest) =
        make_block-fields start 1 (size - 4) s.words (omega arith) (omega arith) (omega arith) in
      let not8 : (start == add32 start 8) ≡ false = ground arith in
      let not4 : (start == add32 start 4) ≡ false = ground arith in
      (rw (not8, not4, less) sized, rw (not8, not4, less) free, rw (==_refl (add32 start 8)) refl)

  abbrev fresh : Store
  fresh = record {
    words = words;
    heap = record {
      first_free = start;
      size = size;
      base = start;
      blocks_used = 0;
      blocks_free = 1;
      bytes_used = 0;
      bytes_free = sub32 size 4;
    };
  }

  count_free-fresh : count_free (suc size) words start 0 ≡ some (some 1)
  unfolding count_free
  count_free-fresh = let (sized, free, last) = fresh-words in rw (free, last) refl

  next_block-fresh : next_block fresh start ≡ 0
  unfolding next_block get_payload_end
  next_block-fresh =
      let (sized, free, last) = fresh-words in
      let past : ltb (add32 start (add32 4 (size - 4))) (add32 start size) ≡ false = ground arith in
      rw (sized, past) refl

  check_blocks-fresh : check_blocks (suc size) fresh start ≡ some 1
  unfolding check_blocks
  check_blocks-fresh =
      let (sized, free, last) = fresh-words in
      let smaller : leb size (size - 4) ≡ false = ground arith in
      let some_bytes : ((size - 4) == 0) ≡ false = ground arith in
      rw (sized, smaller, some_bytes, next_block-fresh) refl

  -- A heap of an even number of bytes, 28 or more, that lies in the address space, is valid after
  -- `equiv_malloc_init`, which returns 1.
  pub validate_heap-init :
      ((equiv_malloc_init start size s).1 ≡ 1)
      × (validate_heap (equiv_malloc_init start size s).0 ≡ some 1)
  unfolding validate_heap equiv_malloc_init validate_lists after_free_list counted_bytes
  validate_heap-init =
      let enough : ltb size 28 ≡ false = ground arith in
      let adds_up : (u32 ((0 + 1) * 4 + (0 + sub32 size 4)) == size) ≡ true = ground arith in
      (rw enough refl, rw enough (rw (adds_up, count_free-fresh, check_blocks-fresh) refl))
