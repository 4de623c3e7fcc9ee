-- ===== src/Mmu.antt =====
-- equiv-mmu.c, and the vm_* calls of equiv-pt.c on top of it: the coprocessor registers of the MMU.
-- A read or write of a register is a read or write of a field of the state; what the assembly
-- (mmu-asm.S) does to caches, TLB and pipeline is left out.
pub mod Enabled
pub mod Tests
use thread_equivalence_check.Base.{
  ℕ, ◌%◌, Option, some, Bool, ◌==◌, ltb, if◌then◌else◌, truthy, not, ◌&&◌, bit_or, assert, ◌>>=◌,
  ◌>>◌,
}
use thread_equivalence_check.Base.Bits.{shl, shr}
use thread_equivalence_check.PageTable.{Fld, Tables}
use thread_equivalence_check.PageTable.ProcMap.{ProcMap, vm_map_kernel}

-- Control register 1, a field for each bit field.
pub record ControlReg1 : Type 0 where
  pub mmu_enabled : ℕ
  pub a_alignment : ℕ
  pub c_unified_enable : ℕ
  pub w_write_buf : ℕ
  pub unused1 : ℕ
  pub b_endian : ℕ
  pub s_prot : ℕ
  pub r_rom_prot : ℕ
  pub f : ℕ
  pub z_branch_pred : ℕ
  pub i_icache_enable : ℕ
  pub v_high_except_v : ℕ
  pub rr_cache_rep : ℕ
  pub l4 : ℕ
  pub dt : ℕ
  pub sbz0 : ℕ
  pub it : ℕ
  pub sbz1 : ℕ
  pub st : ℕ
  pub f1 : ℕ
  pub u_unaligned : ℕ
  pub xp_pt : ℕ
  pub ve_vect_int : ℕ
  pub ee : ℕ
  pub l2_enabled : ℕ
  pub reserved0 : ℕ
  pub tr_tex_remap : ℕ
  pub fa_force_ap : ℕ
  pub reserved1 : ℕ

pub record Cp15 : Type 0 where
  pub ctrl_reg1 : ControlReg1
  pub domain_ctrl : ℕ
  -- The process id and the address space id.
  pub procid : ℕ
  pub ttbr0 : ℕ

unfoldable pub control_reg1_sanity_check : ControlReg1 → Option (Unit {0})
control_reg1_sanity_check r =
    assert (r.unused1 == 7)
    >> assert (r.dt == 1)
    >> assert (r.it == 1)
    >> assert (r.sbz0 == 0)
    >> assert (r.sbz1 == 0)
    >> assert (r.st == 0)
    >> assert (not (truthy r.l2_enabled))
    >> assert (not (truthy r.i_icache_enable))
    >> assert (not (truthy r.c_unified_enable))

unfoldable pub mmu_is_enabled : Cp15 → Bool
mmu_is_enabled hw = truthy hw.ctrl_reg1.mmu_enabled

unfoldable pub mmu_disable_set : ControlReg1 → Cp15 → Option Cp15
mmu_disable_set c hw =
    let c' : ControlReg1 =
      if truthy c.c_unified_enable then record c { c_unified_enable = 1 } else c in
    (do assert (not (truthy c.mmu_enabled)); some (record hw { ctrl_reg1 = c' }))

unfoldable pub mmu_disable : Cp15 → Option Cp15
mmu_disable hw =
    let c : ControlReg1 = record (hw.ctrl_reg1) { mmu_enabled = 0 } in
    (do assert (truthy hw.ctrl_reg1.mmu_enabled); mmu_disable_set c hw)

unfoldable pub mmu_enable_set : ControlReg1 → Cp15 → Option Cp15
mmu_enable_set c hw = do assert (truthy c.mmu_enabled); some (record hw { ctrl_reg1 = c })

unfoldable pub mmu_enable : Cp15 → Option Cp15
mmu_enable hw =
    let c : ControlReg1 = record (hw.ctrl_reg1) { mmu_enabled = 1 } in
    (do assert (not (truthy hw.ctrl_reg1.mmu_enabled)); mmu_enable_set c hw)

unfoldable pub set_procid_ttbr0 : ℕ → ℕ → ℕ → Cp15 → Option Cp15
set_procid_ttbr0 pid asid pt hw = do
  assert (shr pid 24 == 0)
  assert (ltb 64 pid)
  assert (ltb asid 64 && truthy asid)
  some (record hw { procid = bit_or (shl pid 8) asid; ttbr0 = pt })

unfoldable pub mmu_set_ctx : ℕ → ℕ → ℕ → Cp15 → Option Cp15
mmu_set_ctx pid asid pt hw = do
  assert (not (asid == 0))
  assert (ltb asid 64)
  assert (ltb 64 pid)
  set_procid_ttbr0 pid asid pt hw

unfoldable pub mmu_init : Cp15 → Option Cp15
mmu_init hw =
    let c1 : ControlReg1 = record (hw.ctrl_reg1) { xp_pt = 1 } in
    (do
      assert (truthy c1.xp_pt)
      assert (not (truthy c1.mmu_enabled))
      some (record hw { ctrl_reg1 = c1 }))

unfoldable pub domain_access_ctrl_set : ℕ → Cp15 → Cp15
domain_access_ctrl_set r hw = record hw { domain_ctrl = r }

unfoldable pub vm_mmu_enable : Cp15 → Option Cp15
vm_mmu_enable hw = do
  assert (not (mmu_is_enabled hw))
  hw' ← mmu_enable hw
  assert (mmu_is_enabled hw')
  some hw'

unfoldable pub vm_mmu_disable : Cp15 → Option Cp15
vm_mmu_disable hw = do
  assert (mmu_is_enabled hw)
  hw' ← mmu_disable hw
  assert (not (mmu_is_enabled hw'))
  some hw'

unfoldable pub vm_mmu_switch : ℕ → ℕ → ℕ → Cp15 → Option Cp15
vm_mmu_switch pt pid asid hw = do assert (truthy pt); mmu_set_ctx pid asid pt hw

unfoldable pub vm_mmu_init : ℕ → Cp15 → Option Cp15
vm_mmu_init domain_reg hw = do hw' ← mmu_init hw; some (domain_access_ctrl_set domain_reg hw')

abbrev pub no_entry : Fld
no_entry = record {
  tag = 0;
  B = 0;
  C = 0;
  xn = 0;
  domain = 0;
  imp = 0;
  ap = 0;
  tex = 0;
  apx = 0;
  S = 0;
  ng = 0;
  super = 0;
  sbz1 = 0;
  sec_base_addr = 0;
}

unfoldable pub fld_mk : Fld
fld_mk = record no_entry { tag = 2 }

unfoldable pub fld_check_valid : Fld → Option (Unit {0})
fld_check_valid e =
    assert (e.sbz1 == 0)
    >> assert (e.tag == 2)
    >> assert (e.S == 0)
    >> assert (e.imp == 0)
    >> assert (e.super == 0)

abbrev pub pt_level1_n : ℕ
pt_level1_n = 4096

-- `pt` is the address that `kmalloc_aligned` returns, for memory filled with zeros.
unfoldable pub vm_pt_alloc : ℕ → ℕ → Option (ℕ → Fld)
vm_pt_alloc pt n = do assert (n == 4096); assert (pt % 16384 == 0); some (λ i. no_entry)

-- Within the 4096 entries.
unfoldable pub vm_dup : ℕ → (ℕ → Fld) → Option (ℕ → Fld)
vm_dup pt pt1 = do
  pt2 ← vm_pt_alloc pt pt_level1_n
  some (λ i. if ltb i pt_level1_n then pt1 i else pt2 i)

abbrev pub kern_asid : ℕ
kern_asid = 1

abbrev pub kern_pid : ℕ
kern_pid = 0x140e

-- The whole of `vm_map_kernel`, with the registers.
unfoldable pub map_and_enable : ProcMap → ℕ → ℕ → (ℕ → ℕ) → Cp15 → Option (Tables × Cp15)
map_and_enable p enable_p pt taken_list hw = do
  entries ← vm_pt_alloc pt 4096
  hw1 ← vm_mmu_switch pt kern_pid kern_asid hw
  (t, d) ← vm_map_kernel p (record { pt = entries; taken_list = taken_list })
  hw2 ← vm_mmu_init d hw1
  hw3 ← if truthy enable_p then vm_mmu_enable hw2 else some hw2
  assert (truthy pt)
  some (t, hw3)
