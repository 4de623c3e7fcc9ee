-- ===== src/Checker/StartTests.antt =====
-- The start on a board whose memory holds zeros.
use thread_equivalence_check.Base.{ℕ, ◌≡◌, refl, some, List, arith}
use thread_equivalence_check.Malloc.HeapTests.{blank}
use thread_equivalence_check.PageTable.ProcMap.Tests.{kernel_layout}
use thread_equivalence_check.Mmu.Tests.{reset_hw}
use thread_equivalence_check.Mmu.{no_entry}
use thread_equivalence_check.Debug.Tests.{other_bits}
use thread_equivalence_check.Except.Tests.{new_board}
use thread_equivalence_check.Runtime.Tests.{list_queue}
use thread_equivalence_check.Runtime.AloneTests.{bits, sets}
use thread_equivalence_check.Checker.Start.{Machine, equiv_checker_init}
use thread_equivalence_check.Checker.Ready.{IsReady, checker_init-IsReady}

abbrev machine : Machine (List ℕ)
machine = record {
  heap = blank;
  memory = λ b. 0;
  tables = record { pt = λ i. no_entry; taken_list = λ i. 0 };
  cp15 = reset_hw;
  board = new_board;
}

checker_init-IsReady_example :
    (m' : Machine (List ℕ)) × (equiv_checker_init list_queue bits other_bits 8 0x8000 kernel_layout
        0x100000 0x180000 machine
      ≡ some m')
    × IsReady kernel_layout 0x180000 machine m'
checker_init-IsReady_example =
    checker_init-IsReady list_queue bits sets other_bits 8 0x8000 kernel_layout 0x100000 0x180000
      machine (omega arith, refl, refl, omega arith, refl, omega arith, refl) (omega arith) refl
      (omega arith) refl
