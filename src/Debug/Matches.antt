-- ===== src/Debug/Matches.antt =====
-- mini-step.c: the run time keeps the switch and the address of the breakpoint on mismatch; the
-- registers do what it says.
use thread_equivalence_check.Base.{
  ℕ, ◌∙◌, ◌≡◌, refl, Option, none, some, Bool, true, false, ◌==◌, truthy, inl, inr, Bool-cases,
  ==_refl,
}
use thread_equivalence_check.Base.Bits.{bit}
use thread_equivalence_check.Runtime.{State, Libpi}
use thread_equivalence_check.Runtime.Threads.{mismatch_pc_set, mismatch_on, mismatch_off}
use thread_equivalence_check.Debug.{
  BitSupport, Cp14, Stepper, cp14_is_enabled, cp14_enable, cp14_bcr0_enable, cp14_bcr0_disable,
  set_mismatch, turn_mismatch_on, turn_mismatch_off,
}
use thread_equivalence_check.Debug.Mismatch.{
  SetsEachBit, IsMismatching, enable-is_enabled, mismatching, turned_off,
}

module _ (pi : Libpi) (bs : BitSupport) where
  -- What single stepping asks of the registers: on, the debug coprocessor and the breakpoint on
  -- mismatch are enabled; off, the breakpoint is disabled.
  unfoldable pub Armed : Bool → Cp14 → Type 0
  Armed true d = (cp14_is_enabled pi bs d ≡ true) × IsMismatching d.bcr0
  Armed false d = bit 0 d.bcr0 ≡ 0

  -- The run time keeps the switch and the address of the breakpoint, and the registers are as the
  -- switch says, with bit 14 of the debug status clear.
  abbrev pub Stands : {Q : Type 0} → State Q → Stepper → Type 0
  Stands st s =
      (st.single_step_on_p ≡ s.single_step_on_p)
      × (st.breakpoint ≡ s.hw.bvr0)
      × (bit 14 s.hw.status ≡ 0)
      × Armed (truthy s.single_step_on_p) s.hw

  -- The two agree on faults, and what they keep stands for the same.
  abbrev pub Matches : {Q : Type 0} → Option (State Q) → Option Stepper → Type 0
  Matches none none = Unit
  Matches none (some s) = ⊥
  Matches (some st) none = ⊥
  Matches (some st) (some s) = Stands st s

  Armed-on :
      (n : ℕ) (d : Cp14)
      → (n == 0) ≡ false
      → cp14_is_enabled pi bs d ≡ true
      → IsMismatching d.bcr0
      → Armed (truthy n) d
  unfolding Armed
  Armed-on n d on enabled mismatching = rw on (enabled, mismatching)

  enabled-on :
      (n : ℕ) (d : Cp14) → (n == 0) ≡ false → Armed (truthy n) d → cp14_is_enabled pi bs d ≡ true
  unfolding Armed
  enabled-on n d on armed = (rw on at armed).0

-- The stepper that `set_mismatch` leaves.
abbrev pub stepper : Option (ℕ × Stepper) → Option Stepper
stepper none = none
stepper (some out) = some out.1

-- The functions on the registers do what those of the run time say: they fault in the same states,
-- and otherwise leave the same switch and the same address of the breakpoint, with the debug
-- coprocessor and the breakpoint on mismatch enabled while single stepping is on, and the breakpoint
-- disabled while it is off. This holds if it did before, with bit 14 of the debug status clear.
pub mismatch-Matches :
    {Q : Type 0} (pi : Libpi) (bs : BitSupport) (law : SetsEachBit pi bs) (pc : ℕ) (st : State Q)
    (s : Stepper)
    → Stands pi bs st s
    → Matches pi bs (mismatch_pc_set pc st) (stepper (set_mismatch pi bs pc s))
      × Matches pi bs (mismatch_on st) (turn_mismatch_on pi bs s)
      × Matches pi bs (mismatch_off st) (turn_mismatch_off pi bs s)
unfolding mismatch_pc_set mismatch_on mismatch_off set_mismatch turn_mismatch_on turn_mismatch_off
    cp14_bcr0_enable cp14_bcr0_disable cp14_enable cp14_is_enabled Armed
mismatch-Matches pi bs law pc st s (same, at, clear, armed) =
    elim (Bool-cases (s.single_step_on_p == 0)) [
      | inl e ↦
          let kept : bit 14 (bs.bit_set s.hw.status 15) ≡ 0 =
            law.set_one s.hw.status 15 14 ∙ clear in
          let enabled = enable-is_enabled pi bs law s.hw clear in
          rw (same, e) (tt, (refl, refl, kept, (enabled, mismatching pi bs law s.hw)), tt)
      | inr e ↦
          let set : Cp14 = record (cp14_bcr0_enable pi bs s.hw) {
            bcr0 = pi.bits_set (cp14_bcr0_enable pi bs s.hw).bcr0 21 22 2;
            bvr0 = pc;
          } in
          let still =
            Armed-on pi bs s.single_step_on_p set e
              (enabled-on pi bs s.single_step_on_p s.hw e armed) (mismatching pi bs law s.hw) in
          rw (same, e, ==_refl pc)
            ((refl, refl, clear, still), tt, (refl, at, clear, (turned_off pi bs law s.hw).0))
    ]
