-- ===== src/Memory/Segments.antt =====
-- final_proj/code/memory.c, the memory segments: their copies, their hash and the test against the
-- valid hashes. The pointers of a segment and of its copy, and its size, are functions of its index.
use thread_equivalence_check.Base.{
  ℕ, zero, suc, ◌+◌, Option, some, List, [], ◌∷◌, Bool, true, false, ◌==◌, ltb, if◌then◌else◌,
  add32, sub32, ◌>>=◌,
}
use thread_equivalence_check.Base.Loops.{for_loop}
use thread_equivalence_check.Memory.{Xxh32}

-- `ptr_og_list` is part of the state, as `initialize_memory_state` sets it.
pub record MemorySegments : Type 0 where
  pub num_ptrs : ℕ
  pub ptr_list : ℕ → ℕ
  pub ptr_og_list : ℕ → ℕ
  pub size_list : ℕ → ℕ

-- `memcpy`, on a memory of bytes; the offset of an address wraps around, as pointers do.
unfoldable pub memcpy : ℕ → ℕ → ℕ → (ℕ → ℕ) → ℕ → ℕ
memcpy dst src n memory b =
    let offset = sub32 b dst in if ltb offset n then memory (add32 src offset) else memory b

-- `var_addr i` is what `kmalloc` returns for the copy of segment `i`.
unfoldable pub initialize_memory_state :
    (ℕ → ℕ) → MemorySegments → (ℕ → ℕ) → Option (MemorySegments × (ℕ → ℕ))
initialize_memory_state var_addr memory_state memory = do
  memory' ←
      for_loop memory_state.num_ptrs 0
        (λ i m. some (memcpy (var_addr i) (memory_state.ptr_list i) (memory_state.size_list i) m))
        memory
  some (record memory_state { ptr_og_list = var_addr }, memory')

unfoldable pub reset_memory_state : MemorySegments → (ℕ → ℕ) → Option (ℕ → ℕ)
reset_memory_state memory_state memory =
    for_loop memory_state.num_ptrs 0
      (λ i m. some (
        memcpy (memory_state.ptr_list i) (memory_state.ptr_og_list i) (memory_state.size_list i) m))
      memory

-- The bytes at an address.
unfoldable pub bytes_at : ℕ → ℕ → (ℕ → ℕ) → List ℕ
bytes_at zero ptr memory = []
bytes_at (suc n) ptr memory = memory ptr ∷ bytes_at n (add32 ptr 1) memory

unfoldable pub capture_memory_state : {H : Type 0} → Xxh32 H → MemorySegments → (ℕ → ℕ) → Option ℕ
capture_memory_state x memory_state memory = do
  state ←
      for_loop memory_state.num_ptrs 0
        (λ i h.
          some (x.update h (bytes_at (memory_state.size_list i) (memory_state.ptr_list i) memory)))
        x.create
  some (x.digest state)

-- The loop over the valid hashes, with `k` left.
unfoldable pub hash_among : ℕ → (ℕ → ℕ) → ℕ → ℕ → Bool
hash_among hash valid_hashes zero i = false
hash_among hash valid_hashes (suc k) i =
    if hash == valid_hashes i then true else hash_among hash valid_hashes k (i + 1)

unfoldable pub verify_memory_state :
    {H : Type 0} → Xxh32 H → MemorySegments → (ℕ → ℕ) → (ℕ → ℕ) → ℕ → Option Bool
verify_memory_state x memory_state memory valid_hashes num_valid_hashes = do
  hash ← capture_memory_state x memory_state memory
  some (hash_among hash valid_hashes num_valid_hashes 0)
