-- ===== src/Touched/Arm.antt =====
-- The encodings of loads and stores in the architecture's manual (ARMv6, A3), which `get_touched_bytes`
-- of equiv-rw-set.c is to tell apart.
use thread_equivalence_check.Base.{
  ℕ, ◌+◌, ◌-◌, ◌*◌, ◌/◌, ◌%◌, ◌^◌, ◌≡◌, Bool, ◌||◌, ◌&&◌, Option, none, some, ◌==◌, if◌then◌else◌,
}
use thread_equivalence_check.Touched.Width.{registers}

-- The documented results of `bits_get` and `bit_isset`.
pub record ReadsBits (bits_get : ℕ → ℕ → ℕ → ℕ) (bit_isset : ℕ → ℕ → ℕ) : Type 0 where
  pub get : (x lb ub : ℕ) → bits_get x lb ub ≡ x / 2 ^ lb % 2 ^ (ub + 1 - lb)
  pub isset : (x i : ℕ) → bit_isset x i ≡ x / 2 ^ i % 2

-- Fields of an instruction: the condition, the group (bits 25 to 27), bits 20 to 24 with P, U, the
-- bit 22, W and L, the bits S and H (5 and 6), and bits 4 and 7.
abbrev pub cond : ℕ → ℕ
cond i = i / 268435456 % 16

abbrev pub group : ℕ → ℕ
group i = i / 33554432 % 8

abbrev pub puwl : ℕ → ℕ
puwl i = i / 1048576 % 32

abbrev pub sh : ℕ → ℕ
sh i = i / 32 % 4

-- The bytes of a swap or an exclusive access: SWP, SWPB, STREX and LDREX, and those of 8, 1 and 2
-- bytes.
unfoldable pub swap_width : ℕ → Option ℕ
swap_width op =
    if op == 16 || (op == 24 || op == 25)
    then some 4
    else if op == 20 || (op == 28 || op == 29)
    then some 1
    else if op == 26 || op == 27
    then some 8
    else if op == 30 || op == 31
    then some 2
    else none

-- The bytes of an access of the extra group, with bits 4 and 7 set: H alone is a halfword; S alone is
-- a signed byte if it loads and else a double word; S and H are a signed halfword if it loads and
-- else a double word.
unfoldable pub extra_bytes : ℕ → ℕ → Option ℕ
extra_bytes s op =
    if s == 0
    then swap_width op
    else if s == 1
    then some 2
    else if op % 2 == 0
    then some 8
    else if s == 2
    then some 1
    else some 2

-- How many bytes an instruction reads or writes, by the manual; `none` if it is no load or store.
-- The groups 2 and 3 are those of LDR and STR, with an immediate and a register offset (bit 4 of the
-- latter is clear), and bit 22 is that of bytes; group 4 is LDM and STM.
unfoldable pub arm_width : ℕ → Option ℕ
arm_width i =
    if cond i == 15
    then none
    else if group i == 2 || (group i == 3 && i / 16 % 2 == 0)
    then some (if i / 4194304 % 2 == 1 then 1 else 4)
    else if group i == 4
    then some (4 * registers (i % 65536) 16)
    else if group i == 0 && (i / 16 % 2 == 1 && i / 128 % 2 == 1)
    then extra_bytes (sh i) (puwl i)
    else none

-- The bits 20 to 24 of SWP, SWPB, STREX and LDREX. In the extra group they are also those of
-- halfwords and double words with a register offset (STRH, STRD and LDRD, and with 25 also LDRH,
-- LDRSB and LDRSH), or for 20 those with a negative immediate.
abbrev pub has_swap_bits : ℕ → Bool
has_swap_bits op = op == 16 || (op == 20 || (op == 24 || op == 25))

-- An instruction with the bits of a swap is one, and no other is: bits 5 and 6 are then clear.
abbrev pub IsPlain : ℕ → Type 0
IsPlain i = group i ≡ 0 → has_swap_bits (puwl i) ≡ (sh i == 0)
