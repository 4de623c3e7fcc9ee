-- ===== src/Mmu/Tests.antt =====
-- The MMU of a board that starts with it off.
use thread_equivalence_check.Base.{ℕ, ◌*◌, ◌<◌, ◌≡◌, refl, none, some, ◌>>=◌, arith}
use thread_equivalence_check.PageTable.{PrEnt, Tables, vm_xlate}
use thread_equivalence_check.PageTable.Domains.{access}
use thread_equivalence_check.PageTable.ProcMap.{procmap_lookup}
use thread_equivalence_check.PageTable.ProcMap.Tracked.{in_domain}
use thread_equivalence_check.PageTable.ProcMap.Tests.{heap_map, heap_map-IsProcMap}
use thread_equivalence_check.PageTable.{vm_entry}
use thread_equivalence_check.PageTable.Tests.{uncached}
use thread_equivalence_check.Mmu.{
  ControlReg1, Cp15, vm_mmu_enable, vm_mmu_disable, map_and_enable, fld_mk, fld_check_valid,
  control_reg1_sanity_check,
}
use thread_equivalence_check.Mmu.Enabled.{IsRunning, mmu_enable-disable, map_and_enable-IsRunning}

abbrev reset_reg : ControlReg1
reset_reg = record {
  mmu_enabled = 0;
  a_alignment = 0;
  c_unified_enable = 0;
  w_write_buf = 1;
  unused1 = 7;
  b_endian = 0;
  s_prot = 0;
  r_rom_prot = 0;
  f = 0;
  z_branch_pred = 0;
  i_icache_enable = 0;
  v_high_except_v = 0;
  rr_cache_rep = 0;
  l4 = 0;
  dt = 1;
  sbz0 = 0;
  it = 1;
  sbz1 = 0;
  st = 0;
  f1 = 0;
  u_unaligned = 1;
  xp_pt = 0;
  ve_vect_int = 0;
  ee = 0;
  l2_enabled = 0;
  reserved0 = 0;
  tr_tex_remap = 0;
  fa_force_ap = 0;
  reserved1 = 0;
}

abbrev pub reset_hw : Cp15
reset_hw = record { ctrl_reg1 = reset_reg; domain_ctrl = 0; procid = 0; ttbr0 = 0 }

reset_is_sane : control_reg1_sanity_check reset_reg ≡ some tt
unfolding control_reg1_sanity_check
reset_is_sane = refl

fld_is_valid : fld_check_valid fld_mk ≡ some tt
unfolding fld_check_valid fld_mk
fld_is_valid = refl

section_is_valid : fld_check_valid (vm_entry 1048576 uncached) ≡ some tt
unfolding fld_check_valid vm_entry
section_is_valid = refl

mmu_enable-disable_example : (vm_mmu_enable reset_hw >>= vm_mmu_disable) ≡ some reset_hw
mmu_enable-disable_example = mmu_enable-disable reset_hw refl (omega arith)

map_and_enable-IsRunning_example :
    (t : Tables) × (hw' : Cp15) × (d : ℕ) × (map_and_enable heap_map 1 16384 (λ i. 0) reset_hw
      ≡ some (t, hw'))
    × IsRunning 16384 d reset_hw hw'
    × ((a : ℕ) (e : PrEnt) → procmap_lookup heap_map a ≡ some e → vm_xlate t.pt a ≡ some a)
    × ((a : ℕ) → a < 0xFFF00000 → procmap_lookup heap_map a ≡ none → vm_xlate t.pt a ≡ none)
    × ((i : ℕ) → i < 16 → access i d ≡ in_domain heap_map.map i * 3)
map_and_enable-IsRunning_example =
    map_and_enable-IsRunning heap_map 16384 (λ i. 0) reset_hw heap_map-IsProcMap (λ e. absurd cc)
      refl (omega arith) refl
