-- ===== src/Debug/Mismatch.antt =====
-- mini-step.c: the bits of the breakpoint on mismatch, and what the run time keeps of it.
use thread_equivalence_check.Base.{
  ℕ, zero, suc, ◌∙◌, ◌-◌, ◌<◌, ◌≡◌, refl, some, true, false, ◌==◌, truthy, leb, ◌&&◌, if◌then◌else◌,
  arith,
}
use thread_equivalence_check.Base.Bits.{bit, bit-zero}
use thread_equivalence_check.Runtime.{Libpi}
use thread_equivalence_check.Debug.{
  BitSupport, Cp14, Stepper, cp14_is_enabled, cp14_enable, cp14_bcr0_enable, cp14_bcr0_disable,
  set_mismatch, turn_mismatch_on, turn_mismatch_off,
}

-- The documented behaviour of the functions on bits: the bit read, and the bits of what they return.
pub record SetsEachBit (pi : Libpi) (bs : BitSupport) : Type 0 where
  pub isset : (x i : ℕ) → truthy (pi.bit_isset x i) ≡ (bit i x == 1)
  pub set_one : (x i j : ℕ) → bit j (bs.bit_set x i) ≡ (if j == i then 1 else bit j x)
  pub clear_one : (x i j : ℕ) → bit j (bs.bit_clr x i) ≡ (if j == i then 0 else bit j x)
  pub set_field :
      (x lb ub v j : ℕ)
      → bit j (pi.bits_set x lb ub v) ≡ (if leb lb j && leb j ub then bit (j - lb) v else bit j x)
  pub clear_field :
      (x lb ub j : ℕ) → bit j (bs.bits_clr x lb ub) ≡ (if leb lb j && leb j ub then 0 else bit j x)

-- A breakpoint that is enabled, in every mode and security state, on every byte, not linked, and
-- on mismatch: bits 21 and 22 are 0b10.
abbrev pub IsMismatching : ℕ → Type 0
IsMismatching bcr0 =
    (bit 0 bcr0 ≡ 1)
    × ((bit 1 bcr0 ≡ 1) × (bit 2 bcr0 ≡ 1))
    × ((bit 5 bcr0 ≡ 1) × (bit 6 bcr0 ≡ 1) × (bit 7 bcr0 ≡ 1) × (bit 8 bcr0 ≡ 1))
    × ((bit 14 bcr0 ≡ 0) × (bit 15 bcr0 ≡ 0))
    × (bit 20 bcr0 ≡ 0)
    × ((bit 21 bcr0 ≡ 0) × (bit 22 bcr0 ≡ 1))

-- The breakpoint is off, and all bits but 0, 21 and 22 are as before.
abbrev pub IsTurnedOff : ℕ → ℕ → Type 0
IsTurnedOff old bcr0 =
    (bit 0 bcr0 ≡ 0)
    × (bit 21 bcr0 ≡ 0)
    × (bit 22 bcr0 ≡ 0)
    × ((j : ℕ) → (j == 0) ≡ false → (leb 21 j && leb j 22) ≡ false → bit j bcr0 ≡ bit j old)

-- The bits of the field values.
two_low : bit 0 2 ≡ 0
unfolding bit
two_low = refl

two_high : bit 1 2 ≡ 1
unfolding bit
two_high = refl

all_ones : (k : ℕ) → k < 4 → bit k 15 ≡ 1
unfolding bit
all_ones zero h = refl
all_ones (suc zero) h = refl
all_ones (suc (suc zero)) h = refl
all_ones (suc (suc (suc zero))) h = refl
all_ones (suc (suc (suc (suc k)))) h = absurd (omega arith)

both_ones : (k : ℕ) → k < 2 → bit k 3 ≡ 1
unfolding bit
both_ones zero h = refl
both_ones (suc zero) h = refl
both_ones (suc (suc k)) h = absurd (omega arith)

module _ (pi : Libpi) (bs : BitSupport) (law : SetsEachBit pi bs) where
  abbrev on_bit : ℕ → ℕ → ℕ
  on_bit old j =
      if leb 21 j && leb j 22
      then bit (j - 21) 2
      else if j == 20
      then 0
      else if leb 14 j && leb j 15
      then 0
      else if leb 5 j && leb j 8
      then bit (j - 5) 15
      else if leb 1 j && leb j 2
      then bit (j - 1) 3
      else if j == 0
      then 1
      else bit j old

  bit-on :
      (d : Cp14) (j : ℕ)
      → bit j (pi.bits_set (cp14_bcr0_enable pi bs d).bcr0 21 22 2) ≡ on_bit d.bcr0 j
  unfolding cp14_bcr0_enable
  bit-on d j = simp (law.set_field, law.clear_one, law.clear_field, law.set_one) refl

  pub mismatching : (d : Cp14) → IsMismatching (pi.bits_set (cp14_bcr0_enable pi bs d).bcr0 21 22 2)
  mismatching d = (
    bit-on d 0,
    (bit-on d 1 ∙ both_ones 0 (omega arith), bit-on d 2 ∙ both_ones 1 (omega arith)),
    (
      bit-on d 5 ∙ all_ones 0 (omega arith),
      bit-on d 6 ∙ all_ones 1 (omega arith),
      bit-on d 7 ∙ all_ones 2 (omega arith),
      bit-on d 8 ∙ all_ones 3 (omega arith),
    ),
    (bit-on d 14, bit-on d 15),
    bit-on d 20,
    (bit-on d 21 ∙ two_low, bit-on d 22 ∙ two_high),
  )

  off_bit :
      (d : Cp14) (j : ℕ)
      → bit j (bs.bit_clr (pi.bits_set d.bcr0 21 22 0) 0)
        ≡ (if j == 0 then 0 else if leb 21 j && leb j 22 then bit (j - 21) 0 else bit j d.bcr0)
  off_bit d j = simp (law.clear_one, law.set_field) refl

  pub turned_off : (d : Cp14) → IsTurnedOff d.bcr0 (bs.bit_clr (pi.bits_set d.bcr0 21 22 0) 0)
  turned_off d = (
    off_bit d 0,
    off_bit d 21 ∙ bit-zero 0,
    off_bit d 22 ∙ bit-zero 1,
    λ j other outside. off_bit d j ∙ rw (other, outside) refl,
  )

  -- Setting bit 15 of the status enables the debug coprocessor if bit 14 is clear.
  pub enable-is_enabled :
      (d : Cp14) → bit 14 d.status ≡ 0 → cp14_is_enabled pi bs (cp14_enable pi bs d) ≡ true
  unfolding cp14_is_enabled cp14_enable
  enable-is_enabled d clear =
      rw
        (
          law.isset (bs.bit_set d.status 15) 15,
          law.isset (bs.bit_set d.status 15) 14,
          law.set_one d.status 15 15,
          law.set_one d.status 15 14,
          clear,
        )
        refl

  -- Turned on from the off state, with bit 14 of the debug status clear, single stepping has the
  -- debug coprocessor and a breakpoint on mismatch enabled, at address 0; turned off again, the
  -- breakpoint is disabled, with no other bit of its control register changed than those of the
  -- enabling and of the mismatch.
  pub mismatch-on_off :
      (s : Stepper)
      → s.single_step_on_p ≡ 0
      → bit 14 s.hw.status ≡ 0
      → (on : Stepper) × (off : Stepper) × (turn_mismatch_on pi bs s ≡ some on)
        × (turn_mismatch_off pi bs on ≡ some off)
        × (cp14_is_enabled pi bs on.hw ≡ true)
        × IsMismatching on.hw.bcr0
        × (on.hw.bvr0 ≡ 0)
        × IsTurnedOff on.hw.bcr0 off.hw.bcr0
        × (off.single_step_on_p ≡ 0)
  unfolding turn_mismatch_on turn_mismatch_off set_mismatch cp14_enable cp14_bcr0_disable
      cp14_bcr0_enable cp14_is_enabled
  mismatch-on_off s was_off clear =
      let d : Cp14 = cp14_enable pi bs s.hw in
      let bcr0 = pi.bits_set (cp14_bcr0_enable pi bs d).bcr0 21 22 2 in
      let set : Cp14 = record (cp14_bcr0_enable pi bs d) { bcr0 = bcr0; bvr0 = 0 } in
      let on : Stepper = record { single_step_on_p = 1; hw = set } in
      let cleared : Cp14 = record set { bcr0 = bs.bit_clr (pi.bits_set bcr0 21 22 0) 0 } in
      let off : Stepper = record { single_step_on_p = 0; hw = cleared } in
      (
        on,
        off,
        rw was_off refl,
        refl,
        enable-is_enabled s.hw clear,
        mismatching d,
        refl,
        turned_off set,
        refl,
      )
