-- ===== src/Except.antt =====
-- staff-full-except.c: the exception entries that the assembly calls, and the installation of the
-- handlers by mini-step.c, equiv-rw-set.c and equiv-threads.c. The vectors (full-except-asm.S), the
-- mode of a CPSR and the registers of another mode are parameters; `switchto` is what the machine
-- does next.
pub mod Installed
pub mod Unhandled
pub mod Tests
use thread_equivalence_check.Base.{
  ℕ, Option, none, some, Bool, ◌==◌, ltb, if◌then◌else◌, truthy, not, assert, ◌>>=◌, ◌>>◌,
}
use thread_equivalence_check.Runtime.{Regs, RunQueue, State, Libpi}
use thread_equivalence_check.Runtime.Tracker.{rw_tracker_init}
use thread_equivalence_check.Runtime.Handlers.{
  Ending, returns, switches, finishes, Event, data_abort, prefetch_abort, syscall,
  rw_tracker_data_abort_handler, equiv_hash_handler, equiv_syscall_handler, after_step,
}
use thread_equivalence_check.Debug.{BitSupport, Cp14, cp14_enable, cp14_bcr0_is_enabled}

-- What the handlers read besides the registers: fault address, fault status, and the word at the PC.
pub record Fault : Type 0 where
  pub far : ℕ
  pub dfsr : ℕ
  pub instruction : ℕ

-- A handler may change the registers that it is given. The one for system calls has a result.
abbrev pub FullExcept : Type 0 → Type 0
FullExcept S = Fault → Regs → S → Option ((S × Ending) × Regs)

abbrev pub FullExcepti : Type 0 → Type 0
FullExcepti S = Fault → Regs → S → Option (((S × Ending) × Regs) × ℕ)

-- The static variables, and the vector base register.
pub record Vectors (S : Type 0) : Type 0 where
  pub vector_base : ℕ
  pub prefetch_handler : Option (FullExcept S)
  pub data_abort_handler : Option (FullExcept S)
  pub syscall_handler : Option (FullExcepti S)

-- From cpsr-util.h and the assembly: the mode of a CPSR, USER_MODE, SP and LR of the mode of a CPSR,
-- and the address of a local variable on the exception stack.
pub record Modes : Type 0 where
  pub mode_get : ℕ → ℕ
  pub user_mode : ℕ
  pub priv_sp : ℕ → ℕ
  pub priv_lr : ℕ → ℕ
  pub local_addr : ℕ

-- The thread goes on with these registers, or the handler has switched to other ones itself.
pub data Resumption (S : Type 0) : Type 0 where
  resumed : S → Regs → Resumption S
  left : S → Ending → Resumption S

-- The call of `switchto` after a handler.
unfoldable pub switch_back : {S : Type 0} → (S × Ending) × Regs → Resumption S
switch_back ((st, returns), r) = resumed st r
switch_back ((st, e), r) = left st e

module _ (modes : Modes) where
  unfoldable pub fixup_regs : Regs → ℕ → Regs
  fixup_regs r spsr i =
      if modes.mode_get spsr == modes.user_mode
      then r i
      else if i == 13
      then modes.priv_sp spsr
      else if i == 14
      then modes.priv_lr spsr
      else r i

  module _ {S : Type 0} (v : Vectors S) where
    unfoldable pub prefetch_abort_full_except : Fault → Regs → ℕ → ℕ → S → Option (Resumption S)
    prefetch_abort_full_except f r spsr pc st = do
      assert (spsr == r 16)
      assert (pc == r 15)
      h ← v.prefetch_handler
      out ← h f (fixup_regs r spsr) st
      some (switch_back out)

    unfoldable pub data_abort_full_except : Fault → Regs → ℕ → ℕ → S → Option (Resumption S)
    data_abort_full_except f r spsr pc st = do
      assert (spsr == r 16)
      assert (pc == r 15)
      h ← v.data_abort_handler
      out ← h f (fixup_regs r spsr) st
      some (switch_back out)

    -- `r->regs[0]` is the result of the handler.
    unfoldable pub set_result : ((S × Ending) × Regs) × ℕ → (S × Ending) × Regs
    set_result ((out, r), result) = (out, λ i. if i == 0 then result else r i)

    unfoldable pub syscall_full_except : Fault → Regs → ℕ → ℕ → S → Option (Resumption S)
    syscall_full_except f r spsr pc st = do
      assert (spsr == r 16)
      assert (pc == r 15)
      assert (modes.mode_get spsr == modes.user_mode)
      assert (ltb 100000 modes.local_addr)
      h ← v.syscall_handler
      out ← h f r st
      some (switch_back (set_result out))

module _ {S : Type 0} where
  unfoldable pub full_except_set_prefetch :
      Option (FullExcept S) → Vectors S → Option (FullExcept S) × Vectors S
  full_except_set_prefetch h v = (v.prefetch_handler, record v { prefetch_handler = h })

  unfoldable pub full_except_set_data_abort :
      Option (FullExcept S) → Vectors S → Option (FullExcept S) × Vectors S
  full_except_set_data_abort h v = (v.data_abort_handler, record v { data_abort_handler = h })

  unfoldable pub full_except_set_syscall :
      Option (FullExcepti S) → Vectors S → Option (FullExcepti S) × Vectors S
  full_except_set_syscall h v = (v.syscall_handler, record v { syscall_handler = h })

  -- `ints` is the address of the vectors.
  unfoldable pub full_except_install : ℕ → ℕ → Vectors S → Option (Vectors S)
  full_except_install ints override_p v =
      let installed : Vectors S = record v { vector_base = ints } in
      if truthy override_p
      then some installed
      else if v.vector_base == 0
      then some installed
      else if not (v.vector_base == ints)
      then none
      else some v

-- The variables of mini-step.c and equiv-threads.c that the start sets, beside the run time's state.
pub record Board (S : Type 0) : Type 0 where
  pub vectors : Vectors S
  pub hw : Cp14
  pub step_handler : Option (Regs → S → Option (S × Ending))
  pub init : ℕ
  pub run_time : S

module _ {Q : Type 0} (rq : RunQueue Q) (pi : Libpi) (bs : BitSupport) (ss_on_exit ints : ℕ) where
  -- `mismatch_fault`, with the step handler that is set.
  unfoldable pub step_with :
      Option (Regs → State Q → Option (State Q × Ending)) → FullExcept (State Q)
  step_with none f r st = none
  step_with (some h) f r st = do
    out ← if r 15 == ss_on_exit then none else (h r st >>= after_step rq (r 15))
    some (out, r)

  unfoldable pub mini_step_init :
      Option (Regs → State Q → Option (State Q × Ending))
      → Board (State Q)
      → Option (Board (State Q))
  mini_step_init none b = none
  mini_step_init (some h) b =
      let hw : Cp14 = cp14_enable pi bs b.hw in
      (do
        v ← full_except_install ints 0 b.vectors
        assert (not (cp14_bcr0_is_enabled pi bs hw))
        assert (not (cp14_bcr0_is_enabled pi bs hw))
        some (record b {
          step_handler = some h;
          vectors = (full_except_set_prefetch (some (step_with (some h))) v).1;
          hw = hw;
        }))

  -- The handlers of the program, as pointers to functions: they leave the registers as they are.
  abbrev pub data_abort_pointer : FullExcept (State Q)
  data_abort_pointer f r st = do
    out ← (do
      st' ← rw_tracker_data_abort_handler pi r f.far f.dfsr f.instruction st
      some (st', returns))
    some (out, r)

  abbrev pub syscall_pointer : FullExcepti (State Q)
  syscall_pointer f r st = do out ← equiv_syscall_handler rq r st; some ((out, r), 0)

  unfoldable pub equiv_init : Board (State Q) → Option (Board (State Q))
  equiv_init b = if truthy b.init then some b else (do
    b' ← mini_step_init (some (equiv_hash_handler rq pi)) b
    some (record b' { vectors = (full_except_set_syscall (some syscall_pointer) b'.vectors).1 }))

  -- `rw_tracker_init`, with its handler.
  unfoldable pub init_tracker : ℕ → Board (State Q) → Board (State Q)
  init_tracker enabled b = record b {
    vectors = (full_except_set_data_abort (some data_abort_pointer) b.vectors).1;
    run_time = rw_tracker_init pi enabled b.run_time;
  }

module _ (modes : Modes) {S : Type 0} where
  -- The entry for an exception, with the fault that the coprocessor reports.
  unfoldable pub dispatch : Vectors S → Event → ℕ → ℕ → S → Option (Resumption S)
  dispatch v (data_abort r addr dfsr instruction) spsr pc st =
      data_abort_full_except modes v (record { far = addr; dfsr = dfsr; instruction = instruction })
        r spsr pc st
  dispatch v (prefetch_abort r) spsr pc st =
      prefetch_abort_full_except modes v (record { far = 0; dfsr = 0; instruction = 0 }) r spsr pc
        st
  dispatch v (syscall r) spsr pc st =
      syscall_full_except modes v (record { far = 0; dfsr = 0; instruction = 0 }) r spsr pc st
