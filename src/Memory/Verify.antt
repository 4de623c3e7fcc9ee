-- ===== src/Memory/Verify.antt =====
-- memory.c: `verify_memory_state` against the hash of all the bytes of the segments.
use thread_equivalence_check.Base.{
  ℕ, zero, suc, ◌+◌, ◌≡◌, refl, sym, ap, ◌∙◌, some, List, [], ◌++◌, Bool, true, false, ◌||◌, ◌==◌,
  if◌then◌else◌, arith,
}
use mathlib.Core.Bool.{or-false}
use thread_equivalence_check.Base.Exists.{any_below, any_below-suc}
use thread_equivalence_check.Base.Loops.{for_loop_inv}
use native.Mathlib.Numerals.{add-one}
use thread_equivalence_check.Memory.{Xxh32}
use thread_equivalence_check.Memory.Hash.{Streams}
use thread_equivalence_check.Memory.Segments.{
  MemorySegments, bytes_at, capture_memory_state, hash_among, verify_memory_state,
}

-- The bytes of the first `n` segments, one segment after the other.
unfoldable pub segment_bytes : MemorySegments → (ℕ → ℕ) → ℕ → List ℕ
segment_bytes s memory zero = []
segment_bytes s memory (suc n) =
    segment_bytes s memory n ++ bytes_at (s.size_list n) (s.ptr_list n) memory

either : (a b r : Bool) → (a || (if b then true else r)) ≡ ((a || b) || r)
either true b r = refl
either false true r = refl
either false false r = refl

-- The search of the front and the test from `i` on.
among_front :
    (hash : ℕ) (valid : ℕ → ℕ) (k i : ℕ)
    → (any_below i (λ j. hash == valid j) || hash_among hash valid k i)
      ≡ any_below (i + k) (λ j. hash == valid j)
unfolding hash_among
among_front hash valid zero i = let e : i + 0 ≡ i = omega arith in rw e (or-false _)
among_front hash valid (suc k) i =
    let e : i + suc k ≡ i + 1 + k = omega arith in
    rw
      (
        e,
        either (any_below i (λ j. hash == valid j)) (hash == valid i)
            (hash_among hash valid k (i + 1)),
      )
      (ap (λ b. b || hash_among hash valid k (i + 1)) (sym (any_below-suc i (λ j. hash == valid j)))
        ∙ among_front hash valid k (i + 1))

module _ {H : Type 0} (x : Xxh32 H) (streams : Streams x) where
  capture_memory_state_lem :
      (s : MemorySegments) (memory : ℕ → ℕ)
      → capture_memory_state x s memory
        ≡ some (x.digest (x.update x.create (segment_bytes s memory s.num_ptrs)))
  unfolding capture_memory_state segment_bytes
  capture_memory_state_lem s memory =
      let (h, ran, e) =
        for_loop_inv (λ i h. h ≡ x.update x.create (segment_bytes s memory i))
          (λ i h. some (x.update h (bytes_at (s.size_list i) (s.ptr_list i) memory))) s.num_ptrs 0
          s.num_ptrs x.create (omega arith)
          (λ i h low high e.
            (_, refl, rw (e, add-one) (streams.1 x.create (segment_bytes s memory i) _)))
          (sym (streams.0 x.create)) in
      rw (ran, e) refl

  -- With a streaming hash, `verify_memory_state` ends, and it returns true exactly if the hash of the
  -- bytes of the segments, in their order, is one of the first `n` valid hashes.
  pub verify_memory_state_lem :
      (s : MemorySegments) (memory valid : ℕ → ℕ) (n : ℕ)
      → verify_memory_state x s memory valid n
        ≡ some (
            any_below n
              (λ j. x.digest (x.update x.create (segment_bytes s memory s.num_ptrs)) == valid j))
  unfolding verify_memory_state any_below
  verify_memory_state_lem s memory valid n =
      let hash = x.digest (x.update x.create (segment_bytes s memory s.num_ptrs)) in
      let all : 0 + n ≡ n = omega arith in
      rw (capture_memory_state_lem s memory)
        (ap some (among_front hash valid n 0 ∙ ap (λ k. any_below k (λ j. hash == valid j)) all))
