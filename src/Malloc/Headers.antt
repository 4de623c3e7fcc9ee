-- ===== src/Malloc/Headers.antt =====
-- equiv-malloc.c: the size and the status of a block share a word.
use thread_equivalence_check.Base.{
  ℕ, ◌+◌, ◌*◌, ◌/◌, ◌%◌, ◌≤◌, ◌<◌, ◌^◌, ◌≡◌, ◌≢◌, refl, ◌∙◌, false, ◌==◌, bit_or, ==_refl, arith,
}
use thread_equivalence_check.Base.Bits.{bit_or-fields}
use thread_equivalence_check.Base.Masks.{mask_one, mask_even}
use thread_equivalence_check.Malloc.{write, get_status, get_size, set_status, set_size, make_block}

-- A word of a header: an even size and the status in the lowest bit.
joined : (size status : ℕ) → size % 2 ≡ 0 → status ≤ 1 → bit_or size status ≡ size + status
joined size status even small =
    let e : size ≡ size / 2 * 2 ^ 1 = omega (arith, even) in
    rw e (bit_or-fields 1 (size / 2) status (omega arith))

pub set_size-fields :
    (h size : ℕ) (words : ℕ → ℕ)
    → size < 2 ^ 32
    → size % 2 ≡ 0
    → set_size h size words h ≡ size + get_status words h
unfolding set_size write get_status
set_size-fields h size words lt even =
    let kept : size / 2 * 2 ≡ size = omega (arith, even) in
    rw (==_refl h, mask_even size lt, kept, mask_one (words h))
      (joined size (words h % 2) even (omega arith))

pub set_status-fields :
    (h status : ℕ) (words : ℕ → ℕ)
    → words h < 2 ^ 32
    → status ≤ 1
    → set_status h status words h ≡ get_size words h + status
unfolding set_status write get_size
set_status-fields h status words lt small =
    let kept : status % 2 ≡ status = omega arith in
    rw (==_refl h, mask_even (words h) lt, mask_one status, kept)
      (joined (words h / 2 * 2) status (omega arith) small)

pub get_size-even : (h : ℕ) (words : ℕ → ℕ) → words h < 2 ^ 32 → get_size words h ≡ words h / 2 * 2
unfolding get_size
get_size-even h words lt = mask_even (words h) lt

pub get_status-parity : (h : ℕ) (words : ℕ → ℕ) → get_status words h ≡ words h % 2
unfolding get_status
get_status-parity h words = mask_one (words h)

write-other : (a b v : ℕ) (words : ℕ → ℕ) → b ≢ a → write a v words b ≡ words b
unfolding write
write-other a b v words ne = let off : (b == a) ≡ false = ground arith in rw off refl

others :
    (loc status size a : ℕ) (words : ℕ → ℕ)
    → a ≢ loc
    → set_status loc status (set_size loc size words) a ≡ words a
unfolding set_status set_size
others loc status size a words ne =
    write-other loc a _ (set_size loc size words) ne ∙ write-other loc a _ words ne

-- A block that is made of an even size below 2 ^ 32 and a status has that size and that status, and no
-- other word of the memory changes.
pub make_block-fields :
    (loc status size : ℕ) (words : ℕ → ℕ)
    → size + 1 < 2 ^ 32
    → size % 2 ≡ 0
    → status ≤ 1
    → (get_size (make_block loc status size words) loc ≡ size)
      × (get_status (make_block loc status size words) loc ≡ status)
      × ((a : ℕ) → a ≢ loc → make_block loc status size words a ≡ words a)
unfolding make_block
make_block-fields loc status size words lt even small =
    let first = set_size-fields loc size words (omega arith) even in
    let low = get_status-parity loc words in
    let sized = get_size-even loc (set_size loc size words) (omega (arith, first, low)) in
    let second =
      set_status-fields loc status (set_size loc size words) (omega (arith, first, low)) small in
    let whole : set_status loc status (set_size loc size words) loc ≡ size + status =
      omega (arith, first, low, sized, second) in
    let size' =
      get_size-even loc (set_status loc status (set_size loc size words)) (omega (arith, whole)) in
    let status' = get_status-parity loc (set_status loc status (set_size loc size words)) in
    (
      omega (arith, whole, size'),
      omega (arith, whole, status'),
      λ a ne. others loc status size a words ne,
    )
