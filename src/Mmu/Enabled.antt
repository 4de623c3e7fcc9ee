-- ===== src/Mmu/Enabled.antt =====
-- equiv-mmu.c and equiv-pt.c: turning the MMU on and off, and the state after `vm_map_kernel`.
use thread_equivalence_check.Base.{
  ℕ, ◌*◌, ◌%◌, ◌≤◌, ◌<◌, ◌≡◌, ◌≢◌, refl, none, some, [], true, false, ◌==◌, truthy, ◌>>=◌, inl, inr,
  Bool-cases, bit_or, arith,
}
use thread_equivalence_check.Base.Bits.{shl}
use thread_equivalence_check.PageTable.{PrEnt, Tables, vm_xlate}
use thread_equivalence_check.PageTable.Domains.{access}
use thread_equivalence_check.PageTable.ProcMap.{ProcMap, procmap_lookup}
use thread_equivalence_check.PageTable.ProcMap.Tracked.{in_domain, IsProcMap}
use thread_equivalence_check.PageTable.ProcMap.Ready.{vm_map_kernel-identity}
use thread_equivalence_check.Mmu.{
  ControlReg1, Cp15, mmu_is_enabled, mmu_disable_set, mmu_disable, mmu_enable_set, mmu_enable,
  set_procid_ttbr0, mmu_set_ctx, mmu_init, domain_access_ctrl_set, vm_mmu_enable, vm_mmu_disable,
  vm_mmu_switch, vm_mmu_init, no_entry, vm_pt_alloc, map_and_enable, kern_pid, kern_asid,
}

-- From a state in which the MMU is off, turning it on and off again succeeds and gives back the state,
-- if the bit of the data cache is 0 or 1.
pub mmu_enable-disable :
    (hw : Cp15)
    → hw.ctrl_reg1.mmu_enabled ≡ 0
    → hw.ctrl_reg1.c_unified_enable ≤ 1
    → (vm_mmu_enable hw >>= vm_mmu_disable) ≡ some hw
unfolding vm_mmu_enable vm_mmu_disable mmu_is_enabled mmu_enable mmu_enable_set mmu_disable
    mmu_disable_set
mmu_enable-disable hw off bit =
    let c : ControlReg1 = hw.ctrl_reg1 in
    elim (Bool-cases (c.c_unified_enable == 0)) [
      | inl e ↦
          let none_on : truthy c.c_unified_enable ≡ false = rw e refl in rw (off, none_on) refl
      | inr e ↦
          let some_on : truthy c.c_unified_enable ≡ true = rw e refl in
          let one_bit : c.c_unified_enable ≡ 1 = ground arith in rw (off, some_on, one_bit) refl
    ]

-- The registers of a running MMU for a page table, with the kernel's process and address space.
abbrev pub IsRunning : ℕ → ℕ → Cp15 → Cp15 → Type 0
IsRunning pt d old hw =
    (hw.ctrl_reg1 ≡ record (old.ctrl_reg1) { mmu_enabled = 1; xp_pt = 1 })
    × (hw.ttbr0 ≡ pt)
    × (hw.procid ≡ bit_or (shl kern_pid 8) kern_asid)
    × (hw.domain_ctrl ≡ d)

-- With the MMU off, a well-formed map with an entry at least and an aligned table at an address that
-- is not NULL, `vm_map_kernel` succeeds and leaves the MMU on, in ARMv6 mode, on that table. Then an
-- address that `procmap_lookup` finds translates to itself, one below the last section that it does
-- not find has no translation, and the domains of the entries, and no others, have a manager's access.
pub map_and_enable-IsRunning :
    (p : ProcMap) (pt : ℕ) (taken_list : ℕ → ℕ) (hw : Cp15)
    → IsProcMap p
    → p.map ≢ []
    → hw.ctrl_reg1.mmu_enabled ≡ 0
    → pt ≢ 0
    → pt % 16384 ≡ 0
    → (t : Tables) × (hw' : Cp15) × (d : ℕ) × (map_and_enable p 1 pt taken_list hw ≡ some (t, hw'))
      × IsRunning pt d hw hw'
      × ((a : ℕ) (e : PrEnt) → procmap_lookup p a ≡ some e → vm_xlate t.pt a ≡ some a)
      × ((a : ℕ) → a < 0xFFF00000 → procmap_lookup p a ≡ none → vm_xlate t.pt a ≡ none)
      × ((i : ℕ) → i < 16 → access i d ≡ in_domain p.map i * 3)
unfolding map_and_enable vm_pt_alloc vm_mmu_switch mmu_set_ctx set_procid_ttbr0 vm_mmu_init mmu_init
    domain_access_ctrl_set vm_mmu_enable mmu_is_enabled mmu_enable mmu_enable_set vm_xlate
map_and_enable-IsRunning p pt taken_list hw h filled off some_table aligned =
    let blank : Tables = record { pt = λ i. no_entry; taken_list = taken_list } in
    let (t, d, ran, same, other, granted) = vm_map_kernel-identity p blank h filled in
    let table : truthy pt ≡ true = ground arith in
    let fits : (pt % 16384 == 0) ≡ true = ground arith in
    let word : bit_or (shl kern_pid 8) kern_asid ≡ bit_or (shl kern_pid 8) kern_asid = refl in
    let hw1 : Cp15 = record hw { procid = bit_or (shl kern_pid 8) kern_asid; ttbr0 = pt } in
    let hw' : Cp15 = record hw1 {
      domain_ctrl = d;
      ctrl_reg1 = record (hw.ctrl_reg1) { mmu_enabled = 1; xp_pt = 1 };
    } in
    (t, hw', d, rw (fits, table, ran, off) refl, (refl, refl, refl, refl), same, other, granted)
