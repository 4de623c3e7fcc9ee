-- ===== src/Memory/Restore.antt =====
-- memory.c: a reset restores the bytes that `initialize_memory_state` has saved.
use thread_equivalence_check.Base.{
  ℕ, ◌+◌, ◌<◌, ◌^◌, ◌≡◌, ◌≢◌, refl, ap, ◌∙◌, some, true, false, ◌==◌, ltb, ltb→lt, add32, sub32,
  Bool-cases, inl, inr, arith,
}
use thread_equivalence_check.Base.Loops.{for_loop_inv}
use thread_equivalence_check.Memory.Segments.{
  MemorySegments, memcpy, initialize_memory_state, reset_memory_state,
}

-- No byte of the first range lies in the second.
abbrev pub Apart : ℕ → ℕ → ℕ → ℕ → Type 0
Apart p n q m = (o : ℕ) → o < n → ltb (sub32 (add32 p o) q) m ≡ false

-- The byte lies in none of the first `n` ranges.
abbrev pub Outside : ℕ → (ℕ → ℕ) → (ℕ → ℕ) → ℕ → Type 0
Outside n ptrs sizes b = (k : ℕ) → k < n → ltb (sub32 b (ptrs k)) (sizes k) ≡ false

-- The copies overlap neither each other nor a segment, and no segment is larger than the memory.
pub record IsLaidOut (s : MemorySegments) (copies : ℕ → ℕ) : Type 0 where
  pub sized : (k : ℕ) → k < s.num_ptrs → s.size_list k < 2 ^ 32
  pub copies_apart :
      (i k : ℕ)
      → i < s.num_ptrs
      → k < s.num_ptrs
      → i ≢ k
      → Apart (copies i) (s.size_list i) (copies k) (s.size_list k)
  pub saved_apart :
      (i k : ℕ)
      → i < s.num_ptrs
      → k < s.num_ptrs
      → Apart (s.ptr_list i) (s.size_list i) (copies k) (s.size_list k)
  pub apart_saved :
      (i k : ℕ)
      → i < s.num_ptrs
      → k < s.num_ptrs
      → Apart (copies i) (s.size_list i) (s.ptr_list k) (s.size_list k)

memcpy-copied :
    (dst src n o : ℕ) (m : ℕ → ℕ)
    → o < n
    → n < 2 ^ 32
    → memcpy dst src n m (add32 dst o) ≡ m (add32 src o)
unfolding memcpy
memcpy-copied dst src n o m h word =
    let e : sub32 (add32 dst o) dst ≡ o = omega arith in
    let inside : ltb o n ≡ true = ground arith in rw (e, inside) refl

memcpy-kept :
    (dst src n b : ℕ) (m : ℕ → ℕ) → ltb (sub32 b dst) n ≡ false → memcpy dst src n m b ≡ m b
unfolding memcpy
memcpy-kept dst src n b m h = rw h refl

memcpy-inside :
    (dst src n b : ℕ) (m : ℕ → ℕ)
    → ltb (sub32 b dst) n ≡ true
    → memcpy dst src n m b ≡ m (add32 src (sub32 b dst))
unfolding memcpy
memcpy-inside dst src n b m h = rw h refl

offset-back : (p o q : ℕ) → add32 q (sub32 (add32 p o) q) ≡ add32 p o
offset-back p o q = omega arith

-- A byte of range `k ≤ i` that is not in range `i` is of an earlier range.
older-lt :
    (ptrs sizes : ℕ → ℕ) (i k o : ℕ)
    → k < i + 1
    → sizes i < 2 ^ 32
    → o < sizes k
    → ltb (sub32 (add32 (ptrs k) o) (ptrs i)) (sizes i) ≡ false
    → k < i
older-lt ptrs sizes i k o lt word h outside = elim (Bool-cases (k == i)) [
  | inl e ↦
      let e' : k ≡ i = ground arith in
      let at : sub32 (add32 (ptrs i) o) (ptrs i) ≡ o = omega (arith, ap sizes e') in
      absurd (ground (arith, rw (e', at) at outside, ap sizes e'))
  | inr ne ↦ ground arith
]

module _ (s : MemorySegments) (copies : ℕ → ℕ) (v : IsLaidOut s copies) where
  -- The first `n` copies hold what the segments held in `m`.
  abbrev Saved : (ℕ → ℕ) → ℕ → (ℕ → ℕ) → Type 0
  Saved m n m' =
      (k o : ℕ) → k < n → o < s.size_list k → m' (add32 (copies k) o) ≡ m (add32 (s.ptr_list k) o)

  abbrev Initialized : (ℕ → ℕ) → ℕ → (ℕ → ℕ) → Type 0
  Initialized m n m' =
      Saved m n m' × ((b : ℕ) → Outside s.num_ptrs copies s.size_list b → m' b ≡ m b)

  initialize-step :
      (m : ℕ → ℕ) (i : ℕ) (t : ℕ → ℕ)
      → i < s.num_ptrs
      → Initialized m i t
      → Initialized m (i + 1) (memcpy (copies i) (s.ptr_list i) (s.size_list i) t)
  initialize-step m i t high (saved, kept) = (
    λ k o lt h. elim (Bool-cases (k == i)) [
      | inl e ↦
          let e' : k ≡ i = ground arith in
          rw e' (
            memcpy-copied (copies i) (s.ptr_list i) (s.size_list i) o t (rw e' at h)
              (v.sized i high)
            ∙ kept (add32 (s.ptr_list i) o)
                (λ j below. v.saved_apart i j high below o (rw e' at h)))
      | inr ne ↦
          let old : k < i = ground arith in
          let other : k ≢ i = omega arith in
          memcpy-kept (copies i) (s.ptr_list i) (s.size_list i) (add32 (copies k) o) t
            (v.copies_apart k i (omega arith) high other o h)
          ∙ saved k o old h
    ],
    λ b out. memcpy-kept (copies i) (s.ptr_list i) (s.size_list i) b t (out i high) ∙ kept b out,
  )

  -- The copies hold the bytes of the segments, and all else but the copies is unchanged.
  pub initialize-Saved :
      (m : ℕ → ℕ)
      → (m' : ℕ → ℕ) × (initialize_memory_state copies s m
          ≡ some (record s { ptr_og_list = copies }, m'))
        × Initialized m s.num_ptrs m'
  unfolding initialize_memory_state
  initialize-Saved m =
      let (m', ran, done) =
        for_loop_inv (Initialized m)
          (λ i t. some (memcpy (copies i) (s.ptr_list i) (s.size_list i) t)) s.num_ptrs 0 s.num_ptrs
          m (omega arith) (λ i t low high h. (_, refl, initialize-step m i t high h))
          ((λ k o lt h. absurd (omega arith)), λ b out. refl) in
      (m', rw ran refl, done)

  -- The first `n` segments hold what they held in `m`, the copies are kept, and so is all else.
  abbrev Restored : (ℕ → ℕ) → (ℕ → ℕ) → ℕ → (ℕ → ℕ) → Type 0
  Restored m m1 n m' =
      Saved m s.num_ptrs m'
      × ((k o : ℕ)
          → k < n
          → o < s.size_list k
          → m' (add32 (s.ptr_list k) o) ≡ m (add32 (s.ptr_list k) o))
      × ((b : ℕ) → Outside s.num_ptrs s.ptr_list s.size_list b → m' b ≡ m1 b)

  reset-step :
      (m m1 : ℕ → ℕ) (i : ℕ) (t : ℕ → ℕ)
      → i < s.num_ptrs
      → Restored m m1 i t
      → Restored m m1 (i + 1) (memcpy (s.ptr_list i) (copies i) (s.size_list i) t)
  reset-step m m1 i t high (saved, back, kept) = (
    λ k o lt h.
        memcpy-kept (s.ptr_list i) (copies i) (s.size_list i) (add32 (copies k) o) t
          (v.apart_saved k i lt high o h)
        ∙ saved k o lt h,
    λ k o lt h.
        elim (Bool-cases (ltb (sub32 (add32 (s.ptr_list k) o) (s.ptr_list i)) (s.size_list i))) [
          | inl inside ↦
              memcpy-inside (s.ptr_list i) (copies i) (s.size_list i) (add32 (s.ptr_list k) o) t
                inside
              ∙ saved i (sub32 (add32 (s.ptr_list k) o) (s.ptr_list i)) high (ltb→lt _ _ inside)
              ∙ ap m (offset-back (s.ptr_list k) o (s.ptr_list i))
          | inr outside ↦
              memcpy-kept (s.ptr_list i) (copies i) (s.size_list i) (add32 (s.ptr_list k) o) t
                outside
              ∙ back k o (older-lt s.ptr_list s.size_list i k o lt (v.sized i high) h outside) h
        ],
    λ b out. memcpy-kept (s.ptr_list i) (copies i) (s.size_list i) b t (out i high) ∙ kept b out,
  )

  reset-Restored :
      (m m1 : ℕ → ℕ)
      → Saved m s.num_ptrs m1
      → (m2 : ℕ → ℕ) × (reset_memory_state (record s { ptr_og_list = copies }) m1 ≡ some m2)
        × Restored m m1 s.num_ptrs m2
  unfolding reset_memory_state
  reset-Restored m m1 saved =
      let (m2, ran, done) =
        for_loop_inv (Restored m m1)
          (λ i t. some (memcpy (s.ptr_list i) (copies i) (s.size_list i) t)) s.num_ptrs 0 s.num_ptrs
          m1 (omega arith) (λ i t low high h. (_, refl, reset-step m m1 i t high h))
          (saved, (λ k o lt h. absurd (omega arith)), λ b out. refl) in
      (m2, ran, done)

-- With copies that overlap neither each other nor a segment, `initialize_memory_state` succeeds and
-- changes only the copies; and whatever the memory is afterwards, if the copies are untouched,
-- `reset_memory_state` succeeds, gives each byte of each segment the value that it had before, and
-- changes no byte outside the segments.
pub reset-initialize :
    (s : MemorySegments) (copies : ℕ → ℕ) (m : ℕ → ℕ)
    → IsLaidOut s copies
    → (s' : MemorySegments) × (m' : ℕ → ℕ) × (initialize_memory_state copies s m ≡ some (s', m'))
      × ((b : ℕ) → Outside s.num_ptrs copies s.size_list b → m' b ≡ m b)
      × ((m1 : ℕ → ℕ)
          → ((k o : ℕ)
              → k < s.num_ptrs
              → o < s.size_list k
              → m1 (add32 (copies k) o) ≡ m' (add32 (copies k) o))
          → (m2 : ℕ → ℕ) × (reset_memory_state s' m1 ≡ some m2)
            × ((k o : ℕ)
                → k < s.num_ptrs
                → o < s.size_list k
                → m2 (add32 (s.ptr_list k) o) ≡ m (add32 (s.ptr_list k) o))
            × ((b : ℕ) → Outside s.num_ptrs s.ptr_list s.size_list b → m2 b ≡ m1 b))
reset-initialize s copies m v =
    let (m', ran, (saved, kept)) = initialize-Saved s copies v m in
    (
      record s { ptr_og_list = copies },
      m',
      ran,
      kept,
      λ m1 same.
          let (m2, ran', (still, back, rest)) =
            reset-Restored s copies v m m1 (λ k o lt h. same k o lt h ∙ saved k o lt h) in
          (m2, ran', back, rest),
    )
