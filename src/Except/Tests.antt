-- ===== src/Except/Tests.antt =====
-- A board that starts, and a system call from another mode than user mode.
use thread_equivalence_check.Base.{ℕ, ◌%◌, ◌≡◌, refl, none, some, List}
use thread_equivalence_check.TrieSet.{set_alloc}
use thread_equivalence_check.Runtime.{Regs, State}
use thread_equivalence_check.Runtime.Tests.{list_queue, state_at}
use thread_equivalence_check.Runtime.Handlers.{syscall}
use thread_equivalence_check.Debug.Tests.{bits, other_bits, off_state}
use thread_equivalence_check.Except.{Vectors, Modes, Board, dispatch, syscall_pointer}
use thread_equivalence_check.Except.Unhandled.{unhandled-fault}

abbrev modes : Modes
modes = record {
  mode_get = λ cpsr. cpsr % 32;
  user_mode = 16;
  priv_sp = λ cpsr. 0x9000000;
  priv_lr = λ cpsr. 0x8000;
  local_addr = 0x9000000;
}

abbrev no_vectors : Vectors (State (List ℕ))
no_vectors = record {
  vector_base = 0;
  prefetch_handler = none;
  data_abort_handler = none;
  syscall_handler = none;
}

abbrev pub new_board : Board (State (List ℕ))
new_board = record {
  vectors = no_vectors;
  hw = off_state.hw;
  step_handler = none;
  init = 0;
  run_time = state_at 0 set_alloc;
}

abbrev with_syscalls : Vectors (State (List ℕ))
with_syscalls = record no_vectors {
  syscall_handler = some (syscall_pointer list_queue bits other_bits 8 0x8000);
}

abbrev supervisor : Regs
supervisor r = 19

unhandled-fault_example :
    dispatch modes with_syscalls (syscall supervisor) 19 19 (state_at 0 set_alloc) ≡ none
unhandled-fault_example =
    unhandled-fault modes with_syscalls (syscall supervisor) 19 19 (state_at 0 set_alloc) refl
