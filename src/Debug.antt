-- ===== src/Debug.antt =====
-- armv6-debug-impl.h, the debug coprocessor, and mini-step.c, the breakpoint on mismatch in full: the
-- registers are fields, reads and writes of them the fields' use; the flushes are left out.
pub mod Mismatch
pub mod Matches
pub mod Tests
use thread_equivalence_check.Base.{
  ℕ, Option, some, Bool, true, false, ◌==◌, if◌then◌else◌, truthy, not, ◌&&◌, ◌||◌, sub32, assert,
  ◌>>=◌, ◌>>◌,
}
use thread_equivalence_check.Runtime.{Libpi}

-- The other functions of libpi's bit-support.h.
pub record BitSupport : Type 0 where
  pub bit_set : ℕ → ℕ → ℕ
  pub bit_clr : ℕ → ℕ → ℕ
  pub bits_clr : ℕ → ℕ → ℕ → ℕ

-- The status, breakpoint and watchpoint registers of coprocessor 14.
pub record Cp14 : Type 0 where
  pub status : ℕ
  pub bcr0 : ℕ
  pub bvr0 : ℕ
  pub wcr0 : ℕ

-- The registers of coprocessor 15 that describe a fault, and the debug status.
pub record FaultRegs : Type 0 where
  pub ifsr : ℕ
  pub dfsr : ℕ
  pub dscr : ℕ
  pub wfar : ℕ

module _ (pi : Libpi) (bs : BitSupport) where
  unfoldable pub cp14_is_enabled : Cp14 → Bool
  cp14_is_enabled d = truthy (pi.bit_isset d.status 15) && not (truthy (pi.bit_isset d.status 14))

  unfoldable pub cp14_enable : Cp14 → Cp14
  cp14_enable d = record d { status = bs.bit_set d.status 15 }

  unfoldable pub cp14_disable : Cp14 → Cp14
  cp14_disable d =
      if cp14_is_enabled d then record d { status = bs.bit_clr (bs.bit_set d.status 14) 15 } else d

  unfoldable pub cp14_bcr0_is_enabled : Cp14 → Bool
  cp14_bcr0_is_enabled d = truthy (pi.bit_isset d.bcr0 0)

  unfoldable pub cp14_bcr0_enable : Cp14 → Cp14
  cp14_bcr0_enable d =
      let enabled = bs.bit_set d.bcr0 0 in
      let either_access = pi.bits_set enabled 1 2 3 in
      let all_bytes = pi.bits_set either_access 5 8 15 in
      let any_state = bs.bits_clr all_bytes 14 15 in record d { bcr0 = bs.bit_clr any_state 20 }

  unfoldable pub cp14_bcr0_disable : Cp14 → Cp14
  cp14_bcr0_disable d = record d { bcr0 = bs.bit_clr d.bcr0 0 }

  unfoldable pub cp14_wcr0_is_enabled : Cp14 → Bool
  cp14_wcr0_is_enabled d = truthy (pi.bit_isset d.wcr0 0)

  unfoldable pub cp14_wcr0_enable : Cp14 → Cp14
  cp14_wcr0_enable d =
      let unlinked = bs.bit_clr d.wcr0 20 in
      let any_state = bs.bits_clr unlinked 14 15 in
      let loads_and_stores = pi.bits_set any_state 3 4 3 in
      let any_mode = pi.bits_set loads_and_stores 1 2 3 in
      let enabled = bs.bit_set any_mode 0 in record d { wcr0 = pi.bits_set enabled 5 8 15 }

  unfoldable pub cp14_wcr0_disable : Cp14 → Cp14
  cp14_wcr0_disable d = record d { wcr0 = bs.bit_clr d.wcr0 0 }

  unfoldable pub was_brkpt_fault : FaultRegs → Bool
  was_brkpt_fault r =
      if not (pi.bits_get r.ifsr 0 3 == 2) then false else pi.bits_get r.dscr 2 5 == 1

  unfoldable pub datafault_from_ld : FaultRegs → Bool
  datafault_from_ld r = pi.bit_isset r.dfsr 11 == 0

  unfoldable pub datafault_from_st : FaultRegs → Bool
  datafault_from_st r = not (datafault_from_ld r)

  unfoldable pub was_watchpt_fault : FaultRegs → Bool
  was_watchpt_fault r =
      if truthy (pi.bit_isset r.dfsr 10) || not (pi.bits_get r.dfsr 0 3 == 2)
      then false
      else pi.bits_get r.dscr 2 5 == 2

  -- The instruction is 8 bytes before the address in the register.
  unfoldable pub watchpt_fault_pc : FaultRegs → ℕ
  watchpt_fault_pc r = sub32 r.wfar 8

-- The state of mini-step.c: `single_step_on_p` and the registers.
pub record Stepper : Type 0 where
  pub single_step_on_p : ℕ
  pub hw : Cp14

module _ (pi : Libpi) (bs : BitSupport) where
  -- `mismatch_pc_set`, with the pc that it returns.
  unfoldable pub set_mismatch : ℕ → Stepper → Option (ℕ × Stepper)
  set_mismatch pc s =
      let d = cp14_bcr0_enable pi bs s.hw in
      let d' : Cp14 = record d { bcr0 = pi.bits_set d.bcr0 21 22 2; bvr0 = pc } in
      (do
        assert (truthy s.single_step_on_p)
        assert (d'.bvr0 == pc)
        some (s.hw.bvr0, record s { hw = d' }))

  -- `mismatch_on`.
  unfoldable pub turn_mismatch_on : Stepper → Option Stepper
  turn_mismatch_on s = do
    assert (not (truthy s.single_step_on_p))
    (old, s') ← set_mismatch 0 (record s { single_step_on_p = 1; hw = cp14_enable pi bs s.hw })
    some s'

  -- `mismatch_off`.
  unfoldable pub turn_mismatch_off : Stepper → Option Stepper
  turn_mismatch_off s =
      let d : Cp14 = record (s.hw) { bcr0 = pi.bits_set s.hw.bcr0 21 22 0 } in
      (do
        assert (truthy s.single_step_on_p)
        some (record s { single_step_on_p = 0; hw = cp14_bcr0_disable pi bs d }))
