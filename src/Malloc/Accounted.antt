-- ===== src/Malloc/Accounted.antt =====
-- equiv-malloc.c: the counters of the heap add up to its size.
use thread_equivalence_check.Base.{
  ℕ, zero, suc, ◌≤◌, ◌<◌, ◌^◌, ◌≡◌, refl, subst, Option, some, false, ◌==◌, ltb, leb, if◌then◌else◌,
  not, ◌&&◌, ◌||◌, add32, sub32, >>=-eq-some, inl, inr, Bool-cases, arith,
}
use thread_equivalence_check.Malloc.{
  HeapT, Store, status_free, status_used, minimum_payload, size_max, max_request_size, roundup,
  get_size, get_status, set_status, set_size, header_of_payload, remove_free_block,
  append_free_block, next_block, coalesce_fuel, coalesce_right, trim_block_if_possible,
  allocate_block,
}
use thread_equivalence_check.Malloc.Allocator.{
  equiv_malloc_init, best_fuel, equiv_malloc, equiv_free,
}
use thread_equivalence_check.Malloc.Validate.{counted_bytes}

-- Headers and payloads make up the heap.
abbrev pub IsAccounted : Store → Type 0
IsAccounted s = counted_bytes s ≡ s.heap.size

-- The counters, the size and the base are the same.
abbrev SameCounts : HeapT → HeapT → Type 0
SameCounts h k =
    (k.blocks_used ≡ h.blocks_used)
    × (k.blocks_free ≡ h.blocks_free)
    × (k.bytes_used ≡ h.bytes_used)
    × (k.bytes_free ≡ h.bytes_free)
    × (k.size ≡ h.size)

remove-SameCounts : (header : ℕ) (s : Store) → SameCounts s.heap (remove_free_block header s).heap
unfolding remove_free_block
remove-SameCounts header s = elim (Bool-cases (s.words (add32 header 4) == 0)) [
  | inl e ↦ rw e (refl, refl, refl, refl, refl)
  | inr e ↦ rw e (refl, refl, refl, refl, refl)
]

remove-IsAccounted :
    (header : ℕ) (s : Store) → IsAccounted s → IsAccounted (remove_free_block header s)
unfolding counted_bytes
remove-IsAccounted header s h =
    let (a, b, c, d, e) = remove-SameCounts header s in rw (a, b, c, d, e) h

trim-IsAccounted :
    (header needs : ℕ) (s : Store)
    → IsAccounted s
    → IsAccounted (trim_block_if_possible header needs s)
unfolding trim_block_if_possible append_free_block counted_bytes
trim-IsAccounted header needs s h =
    elim (Bool-cases (leb 20 (sub32 (get_size s.words header) needs))) [
      | inl fits ↦ rw fits (omega arith)
      | inr small ↦ rw small h
    ]

-- A block of `size` bytes is counted as used instead of free, and the other way round.
used-IsAccounted :
    (s : Store) (words' : ℕ → ℕ) (size : ℕ)
    → IsAccounted s
    → IsAccounted (record {
      words = words';
      heap = record (s.heap) {
        blocks_free = sub32 s.heap.blocks_free 1;
        blocks_used = add32 s.heap.blocks_used 1;
        bytes_free = sub32 s.heap.bytes_free size;
        bytes_used = add32 s.heap.bytes_used size;
      };
    })
unfolding counted_bytes
used-IsAccounted s words' size h = omega arith

freed-IsAccounted :
    (s : Store) (size : ℕ)
    → IsAccounted s
    → IsAccounted (record s {
      heap = record (s.heap) {
        blocks_used = sub32 s.heap.blocks_used 1;
        blocks_free = add32 s.heap.blocks_free 1;
        bytes_free = add32 s.heap.bytes_free size;
        bytes_used = sub32 s.heap.bytes_used size;
      };
    })
unfolding counted_bytes
freed-IsAccounted s size h = omega arith

-- Two free blocks are counted as one, whose payload has the second header.
merged-IsAccounted :
    (s : Store)
    → IsAccounted s
    → IsAccounted (record s {
      heap = record (s.heap) {
        blocks_free = sub32 s.heap.blocks_free 1;
        bytes_free = add32 s.heap.bytes_free 4;
      };
    })
unfolding counted_bytes
merged-IsAccounted s h = omega arith

allocate-IsAccounted :
    (header needs : ℕ) (s : Store) → IsAccounted s → IsAccounted (allocate_block header needs s).0
unfolding allocate_block
allocate-IsAccounted header needs s h = remove-IsAccounted header _ (
    trim-IsAccounted header needs _
      (used-IsAccounted s (set_status header status_used s.words) (get_size s.words header) h))

coalesce-IsAccounted :
    (fuel base next : ℕ) (s t : Store)
    → IsAccounted s
    → coalesce_fuel fuel base next s ≡ some t
    → IsAccounted t
unfolding coalesce_fuel
coalesce-IsAccounted zero base next s t h ran = cc
coalesce-IsAccounted (suc fuel) base next s t h ran =
    let next' = next_block s next in
    let grown : Store = record s {
      words =
          set_size base (add32 (get_size s.words base) (add32 (get_size s.words next') 4)) s.words;
    } in
    elim (Bool-cases (not (next' == 0) && get_status s.words next' == status_free)) [
      | inl free ↦
          coalesce-IsAccounted fuel base next' _ t
            (merged-IsAccounted (remove_free_block next' grown)
              (remove-IsAccounted next' grown (unfold counted_bytes in h)))
            (rw free at ran)
      | inr over ↦ let same : s ≡ t = let e = rw over at ran in cc in subst IsAccounted same h
    ]

abbrev some_pair : Store → ℕ → Option (Store × ℕ)
some_pair s p = some (s, p)

first_inj : (s t : Store) (p q : ℕ) → some_pair s p ≡ some_pair t q → s ≡ t
first_inj s t p q e = cc

equiv_free-IsAccounted :
    (fuel ptr : ℕ) (s t : Store) → IsAccounted s → equiv_free fuel ptr s ≡ some t → IsAccounted t
unfolding equiv_free append_free_block coalesce_right
equiv_free-IsAccounted fuel ptr s t h ran = elim (Bool-cases (ptr == 0)) [
  | inl null_ptr ↦ let same : s ≡ t = let e = rw null_ptr at ran in cc in subst IsAccounted same h
  | inr some_ptr ↦
      let base = header_of_payload ptr in
      let appended : Store =
        append_free_block base (record s { words = set_status base status_free s.words }) in
      coalesce-IsAccounted fuel base base _ t
        (freed-IsAccounted appended (get_size s.words base) (unfold counted_bytes in h))
        (rw some_ptr at ran)
]

equiv_malloc-IsAccounted :
    (fuel n p : ℕ) (s t : Store)
    → IsAccounted s
    → equiv_malloc fuel n s ≡ some (t, p)
    → IsAccounted t
unfolding equiv_malloc
equiv_malloc-IsAccounted fuel n p s t h ran = elim (Bool-cases (n == 0 || ltb max_request_size n)) [
  | inl refused ↦ subst IsAccounted (first_inj s t 0 p (rw refused at ran)) h
  | inr legal ↦ elim (Bool-cases (s.heap.first_free == 0)) [
    | inl empty ↦ let e = rw (legal, empty) at ran in cc
    | inr some_free ↦
        let needs = roundup (if ltb n minimum_payload then minimum_payload else n) in
        let (best, _, chosen) =
          >>=-eq-some (best_fuel fuel s.words needs s.heap.first_free (0, size_max)) _ _
            (rw (legal, some_free) at ran) in
        elim (Bool-cases (best.0 == 0)) [
          | inl none_fits ↦ subst IsAccounted (first_inj s t 0 p (rw none_fits at chosen)) h
          | inr fits ↦
              subst IsAccounted
                (first_inj (allocate_block best.0 needs s).0 t (allocate_block best.0 needs s).1 p
                  (rw fits at chosen))
                (allocate-IsAccounted best.0 needs s h)
        ]
  ]
]

init-IsAccounted :
    (heap_start heap_size : ℕ) (s : Store)
    → heap_size < 2 ^ 32
    → 28 ≤ heap_size
    → IsAccounted (equiv_malloc_init heap_start heap_size s).0
unfolding equiv_malloc_init counted_bytes
init-IsAccounted heap_start heap_size s word h =
    let large : ltb heap_size 28 ≡ false = ground arith in rw large (omega arith)

-- What happens to a heap: calls that end without a fault, after however many rounds, and any write of the program to the memory.
pub data Step : Store → Store → Type 0 where
  allocates : {s t : Store} (fuel n p : ℕ) → equiv_malloc fuel n s ≡ some (t, p) → Step s t
  frees : {s t : Store} (fuel ptr : ℕ) → equiv_free fuel ptr s ≡ some t → Step s t
  writes : {s : Store} (words' : ℕ → ℕ) → Step s (record s { words = words' })

pub data Reaches (s : Store) : Store → Type 0 where
  here : Reaches s s
  next : {t u : Store} → Reaches s t → Step t u → Reaches s u

Step-IsAccounted : {s t : Store} → Step s t → IsAccounted s → IsAccounted t
Step-IsAccounted {s} {t} (allocates fuel n p ran) h = equiv_malloc-IsAccounted fuel n p s t h ran
Step-IsAccounted {s} {t} (frees fuel ptr ran) h = equiv_free-IsAccounted fuel ptr s t h ran
Step-IsAccounted (writes words') h = unfold counted_bytes in h

Reaches-IsAccounted : {s t : Store} → Reaches s t → IsAccounted s → IsAccounted t
Reaches-IsAccounted here h = h
Reaches-IsAccounted (next r step) h = Step-IsAccounted step (Reaches-IsAccounted r h)

-- From a heap of 28 bytes or more that `equiv_malloc_init` has made, whatever calls of `equiv_malloc`
-- and `equiv_free` that end without a fault follow, with whatever arguments and however many rounds
-- their loops take, and whatever the program writes to the memory in between, headers included: the
-- counters of blocks and bytes add up to the size of the heap, as `validate_heap` tests.
pub reached-IsAccounted :
    (heap_start heap_size : ℕ) (s t : Store)
    → heap_size < 2 ^ 32
    → 28 ≤ heap_size
    → Reaches (equiv_malloc_init heap_start heap_size s).0 t
    → IsAccounted t
reached-IsAccounted heap_start heap_size s t word h r =
    Reaches-IsAccounted r (init-IsAccounted heap_start heap_size s word h)
