-- ===== src/Checker/Ready.antt =====
-- equiv-checker.c: what holds after the start.
use thread_equivalence_check.Base.{
  ℕ, ◌+◌, ◌-◌, ◌*◌, ◌%◌, ◌^◌, ◌<◌, ◌≡◌, ◌≢◌, refl, ◌∙◌, none, some, List, [], ◌∷◌, true, false,
  ◌==◌, ltb, leb, ◌&&◌, ◌||◌, if◌then◌else◌, add32, max, length, >>=-some, inl, inr, Bool-cases,
  arith,
}
use thread_equivalence_check.Base.Loops.{for_loop_inv}
use thread_equivalence_check.Malloc.Allocator.{equiv_malloc_init}
use thread_equivalence_check.PageTable.ProcMap.Tracked.{in_domain}
use thread_equivalence_check.Malloc.Validate.{validate_heap}
use thread_equivalence_check.Malloc.Fresh.{validate_heap-init}
use thread_equivalence_check.PageTable.{PrEnt, Tables, vm_xlate}
use thread_equivalence_check.PageTable.Domains.{access}
use thread_equivalence_check.PageTable.ProcMap.{Layout, ProcMap, procmap_default_mk, procmap_lookup}
use thread_equivalence_check.PageTable.ProcMap.Ready.{IsLayout, default_mk-made}
use thread_equivalence_check.Mmu.{Cp15}
use thread_equivalence_check.Mmu.Enabled.{map_and_enable-IsRunning}
use thread_equivalence_check.Debug.{BitSupport}
use thread_equivalence_check.Except.{Board, init_tracker}
use thread_equivalence_check.Runtime.{RunQueue, State, Libpi}
use thread_equivalence_check.Runtime.Tracker.{
  kern_dom, user_dom, dom_manager, rw_tracker_init, rw_tracker_disarm, set_memory_touch_handler,
  set_data_faults,
}
use thread_equivalence_check.Runtime.Faults.{SetsBits, set_data_faults-access}
use thread_equivalence_check.Checker.Start.{
  copy_byte, equiv_copy_user_data, Machine, equiv_checker_init,
}

-- The bytes after the first `n` rounds.
abbrev Copied : (ℕ → ℕ) → ℕ → (ℕ → ℕ) → Type 0
Copied old n new =
    (b : ℕ)
    → new b ≡ (if leb 3145728 b && ltb b (3145728 + n) then old (b - 3145728 + 102400) else old b)

copy_round :
    (old : ℕ → ℕ) (n : ℕ) (m : ℕ → ℕ)
    → n < 102400
    → Copied old n m
    → (m' : ℕ → ℕ) × (copy_byte n m ≡ some m') × Copied old (n + 1) m'
unfolding copy_byte
copy_round old n m less h =
    let src : m (add32 n 102400) ≡ old (n + 102400) = ground (arith, h (add32 n 102400)) in
    (
      _,
      refl,
      λ b. elim (Bool-cases (b == add32 3145728 n)) [
        | inl e ↦
            let here : b ≡ 3145728 + n = ground arith in
            let low : leb 3145728 b ≡ true = ground arith in
            let high : ltb b (3145728 + (n + 1)) ≡ true = ground arith in
            let from : b - 3145728 + 102400 ≡ n + 102400 = omega arith in
            rw (e, low, high, from) src
        | inr e ↦
            let same : ltb b (3145728 + n) ≡ ltb b (3145728 + (n + 1)) = ground arith in
            rw (e, h b, same) refl
      ],
    )

pub copy-Copied :
    (old : ℕ → ℕ) → (new : ℕ → ℕ) × (equiv_copy_user_data old ≡ some new) × Copied old 102400 new
unfolding equiv_copy_user_data
copy-Copied old =
    for_loop_inv (Copied old) copy_byte 102400 0 102400 old (omega arith)
      (λ n m low less h. copy_round old n m less h)
      (λ b.
        let none_yet : (leb 3145728 b && ltb b (3145728 + 0)) ≡ false = ground arith in
        rw none_yet refl)

-- The state after the start: the heap is valid, the MMU is on, in ARMv6 mode, on the new page table,
-- the addresses of the kernel's map translate to themselves, and no others below the last section do,
-- no access to the two domains in use is checked, and there is none to the others, the user's data
-- are copied, and the tracker is off.
pub record IsReady {Q : Type 0} (at : Layout) (pt : ℕ) (m m' : Machine Q) : Type 0 where
  kernel_map : ProcMap
  made : procmap_default_mk at kern_dom user_dom ≡ some kernel_map
  valid : validate_heap m'.heap ≡ some 1
  running : m'.cp15.ctrl_reg1 ≡ record (m.cp15.ctrl_reg1) { mmu_enabled = 1; xp_pt = 1 }
  on_table : m'.cp15.ttbr0 ≡ pt
  identity :
      (a : ℕ) (e : PrEnt) → procmap_lookup kernel_map a ≡ some e → vm_xlate m'.tables.pt a ≡ some a
  others :
      (a : ℕ) → a < 0xFFF00000 → procmap_lookup kernel_map a ≡ none → vm_xlate m'.tables.pt a ≡ none
  unchecked :
      (i : ℕ)
      → i < 16
      → access i m'.cp15.domain_ctrl ≡ (if i == kern_dom || i == user_dom then dom_manager else 0)
  same_register : m'.board.run_time.domain_acl ≡ m'.cp15.domain_ctrl
  user_data : Copied m.memory 102400 m'.memory
  tracker_off :
      (m'.board.run_time.rw_tracker_enabled ≡ 0) × (m'.board.run_time.memory_touch_handler ≡ false)

-- The access after the tracker has turned its faults off, given that of the kernel's map.
opened :
    {Q : Type 0} (pi : Libpi) (sets : SetsBits pi) (st : State Q) (i n : ℕ)
    → n ≡ max (if i == kern_dom then 1 else 0) (if i == user_dom then 1 else 0)
    → access i st.domain_acl ≡ n * 3
    → access i (set_data_faults pi 0 st).domain_acl
      ≡ (if i == kern_dom || i == user_dom then dom_manager else 0)
opened pi sets st i n used was = elim (Bool-cases (i == kern_dom)) [
  | inl e ↦ set_data_faults-access pi sets st 0 i ∙ rw e refl
  | inr e ↦ elim (Bool-cases (i == user_dom)) [
    | inl u ↦
        let one : n ≡ 1 = rw (e, u) at used in
        set_data_faults-access pi sets st 0 i ∙ rw (e, u, was, one) refl
    | inr u ↦
        let unused : n ≡ 0 = rw (e, u) at used in
        set_data_faults-access pi sets st 0 i ∙ rw (e, u, was, unused) refl
  ]
]

some_entry : (es : List PrEnt) → length es ≡ 8 → es ≢ []
some_entry [] h e = omega arith
some_entry (x ∷ es) h e = cc

module _ {Q : Type 0} (rq : RunQueue Q) (pi : Libpi) (sets : SetsBits pi) (bs : BitSupport)
    (ss_on_exit ints : ℕ) where
  -- The state that the start leaves.
  abbrev started : Machine Q → ℕ → Tables → Cp15 → (ℕ → ℕ) → Machine Q
  started m heap_start t hw memory =
      let run_time : State Q = record (m.board.run_time) { domain_acl = hw.domain_ctrl } in
      let board : Board (State Q) =
        init_tracker rq pi bs ss_on_exit ints 0 (record m.board { run_time = run_time }) in
      record {
        heap = (equiv_malloc_init heap_start 524288 m.heap).0;
        memory = memory;
        tables = t;
        cp15 = record hw { domain_ctrl = board.run_time.domain_acl };
        board = board;
      }

  -- With the MMU off, the memory laid out as memmap says, 512 KB for the heap in the address space,
  -- and an aligned page table that is not at address 0, `equiv_checker_init` succeeds, and the state
  -- is ready: the heap is valid, the MMU translates, the user's data are copied, the tracker is off.
  pub checker_init-IsReady :
      (at : Layout) (heap_start pt : ℕ) (m : Machine Q)
      → IsLayout at
      → heap_start + 524288 < 2 ^ 32
      → m.cp15.ctrl_reg1.mmu_enabled ≡ 0
      → pt ≢ 0
      → pt % 16384 ≡ 0
      → (m' : Machine Q) × (equiv_checker_init rq pi bs ss_on_exit ints at heap_start pt m
          ≡ some m')
        × IsReady at pt m m'
  unfolding equiv_checker_init init_tracker rw_tracker_init rw_tracker_disarm
      set_memory_touch_handler
  checker_init-IsReady at heap_start pt m layout fits off some_table aligned =
      let (p, made, is_map, eight, domains) =
        default_mk-made at kern_dom user_dom layout (omega arith) (omega arith) in
      let filled : p.map ≢ [] = some_entry p.map eight in
      let (t, hw, d, enabled, (ctrl, table, procid, granted), same, other, accesses) =
        map_and_enable-IsRunning p pt m.tables.taken_list m.cp15 is_map filled off some_table
          aligned in
      let (memory, ran, bytes) = copy-Copied m.memory in
      let acl : State Q = record (m.board.run_time) { domain_acl = hw.domain_ctrl } in
      (
        started m heap_start t hw memory,
        >>=-some _ _ p _ made (>>=-some _ _ (t, hw) _ enabled (>>=-some _ _ memory _ ran refl)),
        record {
          kernel_map = p;
          made = made;
          valid = (validate_heap-init heap_start 524288 m.heap refl (omega arith) fits).1;
          running = ctrl;
          on_table = table;
          identity = same;
          others = other;
          unchecked = λ i low.
              opened pi sets acl i (in_domain p.map i) (domains i) (rw granted (accesses i low));
          same_register = refl;
          user_data = bytes;
          tracker_off = (refl, refl);
        },
      )
