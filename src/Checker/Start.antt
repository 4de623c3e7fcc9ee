-- ===== src/Checker/Start.antt =====
-- equiv-checker.c, `equiv_checker_init` and `equiv_copy_user_data`. `kmalloc` is the address that it
-- returns, and the end of the heap that `kmalloc_init_set_start` sets is in the layout; the heap's
-- words and the bytes below the heap and of the user's data are separate memories. The address that
-- the call looks up in the page table at the end is not used.
use thread_equivalence_check.Base.{ℕ, ◌*◌, Option, some, ◌==◌, if◌then◌else◌, add32, ◌>>=◌}
use thread_equivalence_check.Base.Loops.{for_loop}
use thread_equivalence_check.Malloc.{Store}
use thread_equivalence_check.Malloc.Allocator.{equiv_malloc_init}
use thread_equivalence_check.PageTable.{Tables}
use thread_equivalence_check.PageTable.ProcMap.{Layout, procmap_default_mk}
use thread_equivalence_check.Mmu.{Cp15, map_and_enable}
use thread_equivalence_check.Debug.{BitSupport}
use thread_equivalence_check.Except.{Board, init_tracker}
use thread_equivalence_check.Runtime.{RunQueue, State, Libpi}
use thread_equivalence_check.Runtime.Tracker.{kern_dom, user_dom}

-- `*dst = *src` for byte `i`.
unfoldable pub copy_byte : ℕ → (ℕ → ℕ) → Option (ℕ → ℕ)
copy_byte i memory =
    let src = add32 i (100 * 1024) in
    let dst = add32 0x300000 i in some (λ b. if b == dst then memory src else memory b)

unfoldable pub equiv_copy_user_data : (ℕ → ℕ) → Option (ℕ → ℕ)
equiv_copy_user_data memory = for_loop (100 * 1024) 0 copy_byte memory

-- What the start sets up.
pub record Machine (Q : Type 0) : Type 0 where
  pub heap : Store
  pub memory : ℕ → ℕ
  pub tables : Tables
  pub cp15 : Cp15
  pub board : Board (State Q)

-- The tracker reads and writes the register for the access to the domains that the MMU reads.
unfoldable pub equiv_checker_init :
    {Q : Type 0}
    → RunQueue Q
    → Libpi
    → BitSupport
    → ℕ
    → ℕ
    → Layout
    → ℕ
    → ℕ
    → Machine Q
    → Option (Machine Q)
equiv_checker_init {Q} rq pi bs ss_on_exit ints at heap_start pt m =
    let heap_size = 1024 * 512 in
    let heap : Store = (equiv_malloc_init heap_start heap_size m.heap).0 in
    (do
      kernel_map ← procmap_default_mk at kern_dom user_dom
      (t, hw) ← map_and_enable kernel_map 1 pt m.tables.taken_list m.cp15
      memory ← equiv_copy_user_data m.memory
      let run_time : State Q = record (m.board.run_time) { domain_acl = hw.domain_ctrl } in
          (let board : Board (State Q) =
              init_tracker rq pi bs ss_on_exit ints 0 (record m.board { run_time = run_time }) in
            some (record {
              heap = heap;
              memory = memory;
              tables = t;
              cp15 = record hw { domain_ctrl = board.run_time.domain_acl };
              board = board;
            })))
