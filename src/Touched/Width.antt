-- ===== src/Touched/Width.antt =====
-- equiv-rw-set.c: `get_touched_bytes` adds a run of bytes from the fault address on.
use native.Mathlib.Numerals.{add-one}
use thread_equivalence_check.Base.{
  ℕ, zero, suc, ◌+◌, ◌*◌, ◌≤◌, ◌<◌, ◌^◌, ◌≡◌, refl, Bool, true, false, ◌||◌, Option, none, some,
  ◌==◌, if◌then◌else◌, ◌>>=◌, truthy, add32, bit_and, bit_or, arith, inl, inr, Bool-cases,
}
use thread_equivalence_check.Base.Bits.{shl, shr}
use thread_equivalence_check.Base.Loops.{for_loop, for_loop_inv}
use thread_equivalence_check.TrieSet.{SetT}
use thread_equivalence_check.TrieSet.Spec.{Denotes}
use thread_equivalence_check.Memory.Ranges.{in_range}
use thread_equivalence_check.Touched.{
  insert_byte, register_round, touched_extra, touched_multiple, get_touched_bytes,
}
use thread_equivalence_check.Touched.Run.{
  Adds, more_bytes, start, first_byte, first_half, first_bytes,
}

-- The number of the first `k` registers that a list names.
unfoldable pub registers : ℕ → ℕ → ℕ
registers register_list zero = 0
registers register_list (suc k) =
    registers register_list k + (if truthy (bit_and (shr register_list k) 1) then 1 else 0)

-- The outcome for an access of that width.
abbrev pub Touches : Option SetT → (ℕ → Bool) → ℕ → Option ℕ → Type 0
Touches r f addr none = r ≡ none
Touches r f addr (some width) = Adds r f addr width

module _ (register_list addr : ℕ) (f : ℕ → Bool) (small : addr < 2 ^ 32) where
  abbrev offset : ℕ → ℕ
  offset k = 4 * registers register_list k

  registers-le : (k : ℕ) → registers register_list k ≤ k
  unfolding registers
  registers-le zero = omega arith
  registers-le (suc k) = ground (arith, registers-le k)

  registers-suc :
      (k : ℕ)
      → registers register_list (k + 1)
        ≡ registers register_list k + (if truthy (bit_and (shr register_list k) 1) then 1 else 0)
  unfolding registers
  registers-suc k = rw add-one refl

  abbrev Stored : ℕ → SetT × ℕ → Type 0
  Stored k t = Denotes t.0 (λ v. f v || in_range addr (offset k) v) × (t.1 ≡ offset k)

  register_step :
      (k : ℕ) (t : SetT × ℕ)
      → k < 16
      → Stored k t
      → (u : SetT × ℕ) × (register_round register_list addr k t ≡ some u) × Stored (k + 1) u
  unfolding register_round
  register_step k (t, o) h (dt, e) = elim (Bool-cases (truthy (bit_and (shr register_list k) 1))) [
    | inl named ↦
        let next : offset k + 4 ≡ offset (k + 1) = rw (registers-suc k, named) (omega arith) in
        let (u, ran, du) =
          more_bytes addr f small 4 (offset k) (offset (k + 1)) (add32 addr o) t next
            (omega (arith, registers-le (k + 1))) (rw e refl) dt in
        ((u, add32 o 4), rw (named, ran) refl, (du, omega (arith, e, next, registers-le (k + 1))))
    | inr other ↦
        let same : offset k ≡ offset (k + 1) = rw (registers-suc k, other) (omega arith) in
        ((t, o), rw other refl, rw (← same) (dt, e))
  ]

  pub each_register :
      (s : SetT)
      → Denotes s f
      → (t : SetT × ℕ) × (for_loop 16 0 (register_round register_list addr) (s, 0) ≡ some t)
        × Stored 16 t
  unfolding registers
  each_register s d =
      for_loop_inv Stored (register_round register_list addr) 16 0 16 (s, 0) (omega arith)
        (λ k t low high st. register_step k t high st) ((start addr f small s d, refl))

-- The number of bytes of a halfword, double word or signed byte access, by the bits L, S and H.
abbrev pub extra_width : ℕ → Option ℕ
extra_width lsh =
    if lsh == 2 || lsh == 3
    then some 8
    else if lsh == 6
    then some 1
    else if lsh == 1 || (lsh == 5 || lsh == 7)
    then some 2
    else none

module _ (bits_get : ℕ → ℕ → ℕ → ℕ) (bit_isset : ℕ → ℕ → ℕ) where
  -- The number of bytes that the tests of `get_touched_bytes` arrive at; `none` is a panic.
  abbrev pub decoded_width : ℕ → Option ℕ
  decoded_width instruction =
      if bits_get instruction 20 27 == 16
      then some 4
      else if bits_get instruction 20 27 == 20
      then some 1
      else if bits_get instruction 21 27 == 12
      then some 4
      else if bits_get instruction 26 27 == 1
      then (if truthy (bit_isset instruction 22) then some 1 else some 4)
      else if bits_get instruction 25 27 == 0
      then extra_width (bit_or (shl (bit_isset instruction 20) 2) (bits_get instruction 5 6))
      else if bits_get instruction 25 27 == 4
      then some (4 * registers (bits_get instruction 0 15) 16)
      else some 0

  module _ (addr : ℕ) (f : ℕ → Bool) (small : addr < 2 ^ 32) (s : SetT) (d : Denotes s f) where
    when :
        (b : Bool) (r r' : Option SetT) (w w' : Option ℕ)
        → Touches r f addr w
        → Touches r' f addr w'
        → Touches (if b then r else r') f addr (if b then w else w')
    when true r r' w w' h h' = h
    when false r r' w w' h h' = h'

    byte : Adds (insert_byte addr 0 s) f addr 1
    byte = first_byte addr f small s d

    half : Adds (insert_byte addr 0 s >>= insert_byte addr 1) f addr 2
    half = first_half addr f small s d

    run : (k : ℕ) → k ≤ 2 ^ 32 → Adds (for_loop k 0 (insert_byte addr) s) f addr k
    run k b = first_bytes addr f small k s b d

    abbrev lsh_of : ℕ → ℕ
    lsh_of instruction = bit_or (shl (bit_isset instruction 20) 2) (bits_get instruction 5 6)

    extra :
        (instruction l : ℕ)
        → l ≡ lsh_of instruction
        → Touches (touched_extra bits_get bit_isset instruction addr s) f addr (extra_width l)
    unfolding touched_extra
    extra instruction l e = rw (← e) (elim (Bool-cases (l == 1)) [
      | inl h ↦ let v : l ≡ 1 = ground arith in rw v half
      | inr n1 ↦ elim (Bool-cases (l == 7)) [
        | inl h ↦ let v : l ≡ 7 = ground arith in rw v half
        | inr n7 ↦ elim (Bool-cases (l == 5)) [
          | inl h ↦ let v : l ≡ 5 = ground arith in rw v half
          | inr n5 ↦ elim (Bool-cases (l == 2)) [
            | inl h ↦ let v : l ≡ 2 = ground arith in rw v (run 8 (omega arith))
            | inr n2 ↦ elim (Bool-cases (l == 3)) [
              | inl h ↦ let v : l ≡ 3 = ground arith in rw v (run 8 (omega arith))
              | inr n3 ↦ elim (Bool-cases (l == 6)) [
                | inl h ↦ let v : l ≡ 6 = ground arith in rw v byte
                | inr n6 ↦ rw (n1, n7, n5, n2, n3, n6) refl
              ]
            ]
          ]
        ]
      ]
    ])

    multiple :
        (instruction : ℕ)
        → Adds
            (touched_multiple bits_get bit_isset instruction addr s)
            f
            addr
            (4 * registers (bits_get instruction 0 15) 16)
    unfolding touched_multiple
    multiple instruction =
        let (t, ran, (dt, e)) = each_register (bits_get instruction 0 15) addr f small s d in
        (t.0, rw ran refl, dt)

    pub get_touched_bytes-Touches :
        (instruction : ℕ)
        → Touches
            (get_touched_bytes bits_get bit_isset instruction addr s)
            f
            addr
            (decoded_width instruction)
    unfolding get_touched_bytes
    get_touched_bytes-Touches instruction =
        when (bits_get instruction 20 27 == 16) _ _ _ _ (run 4 (omega arith)) (
          when (bits_get instruction 20 27 == 20) _ _ _ _ byte (
            when (bits_get instruction 21 27 == 12) _ _ _ _ (run 4 (omega arith)) (
              when (bits_get instruction 26 27 == 1) _ _ _ _
                (when (truthy (bit_isset instruction 22)) _ _ _ _ byte (run 4 (omega arith)))
                (when (bits_get instruction 25 27 == 0) _ _ _ _ (extra instruction _ refl) (
                  when (bits_get instruction 25 27 == 4) _ _ _ _ (multiple instruction)
                    (s, refl, start addr f small s d))))))
