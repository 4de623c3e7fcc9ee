-- ===== src/Malloc/HeapTests.antt =====
-- A heap of 1024 bytes, from which a block is taken and to which it is returned.
use thread_equivalence_check.Base.{ℕ, ◌≡◌, refl, Option, none, some, arith}
use thread_equivalence_check.Malloc.{
  Store, write, roundup, get_size, get_status, set_status, set_size, make_block, get_payload_start,
  get_payload_end, header_of_payload, coalesce_right, coalesce_fuel, next_block, remove_free_block,
  append_free_block, trim_block_if_possible, allocate_block,
}
use thread_equivalence_check.Malloc.Allocator.{
  equiv_malloc_init, best_round, best_fuel, equiv_malloc, equiv_free,
}
use thread_equivalence_check.Malloc.Validate.{validate_heap}
use thread_equivalence_check.Malloc.Accounted.{
  IsAccounted, Reaches, here, next, allocates, frees, writes, reached-IsAccounted,
}
use thread_equivalence_check.Malloc.Fresh.{validate_heap-init}

abbrev pub blank : Store
blank = record {
  words = λ a. 0;
  heap = record {
    first_free = 0;
    size = 0;
    base = 0;
    blocks_used = 0;
    blocks_free = 0;
    bytes_used = 0;
    bytes_free = 0;
  };
}

fresh : Store
unfolding equiv_malloc_init make_block set_status set_size get_size get_status write
fresh = (equiv_malloc_init 4096 1024 blank).0

taken : Option (Store × ℕ)
unfolding fresh equiv_malloc roundup best_fuel best_round allocate_block trim_block_if_possible
    remove_free_block append_free_block get_payload_end get_payload_start
taken = equiv_malloc 1 24 fresh

store_of : Option (Store × ℕ) → Store
store_of none = blank
store_of (some r) = r.0

pointer_of : Option (Store × ℕ) → ℕ
pointer_of none = 0
pointer_of (some r) = r.1

-- The payload comes after the header of the first block.
at_start : pointer_of taken ≡ 4100
unfolding pointer_of taken
at_start = refl

taken_lem :
    equiv_malloc 1 24 (equiv_malloc_init 4096 1024 blank).0
    ≡ some (store_of taken, pointer_of taken)
unfolding taken store_of pointer_of
taken_lem = refl

-- The program writes to the payload, and then the block is freed and merged with the one after it.
written : Store
unfolding taken store_of
written = record (store_of taken) { words = write 4100 7 (store_of taken).words }

freed : Option Store
unfolding written taken store_of equiv_free header_of_payload coalesce_right coalesce_fuel
    next_block append_free_block remove_free_block set_status set_size get_size get_status
    get_payload_end write
freed = equiv_free 2 4100 written

left : Option Store → Store
left none = blank
left (some s) = s

freed_lem : equiv_free 2 4100 written ≡ some (left freed)
unfolding freed left
freed_lem = refl

one_block : (left freed).heap.blocks_free ≡ 1
unfolding freed left
one_block = refl

steps : Reaches (equiv_malloc_init 4096 1024 blank).0 (left freed)
unfolding written
steps =
    next
      (next (next here (allocates 1 24 (pointer_of taken) taken_lem))
        (writes (write 4100 7 (store_of taken).words)))
      (frees 2 4100 freed_lem)

reached-IsAccounted_example : IsAccounted (left freed)
reached-IsAccounted_example =
    reached-IsAccounted 4096 1024 blank (left freed) (omega arith) (omega arith) steps

validate_heap-init_example :
    ((equiv_malloc_init 4096 1024 blank).1 ≡ 1)
    × (validate_heap (equiv_malloc_init 4096 1024 blank).0 ≡ some 1)
validate_heap-init_example = validate_heap-init 4096 1024 blank refl (omega arith) (omega arith)
