-- ===== src/Except/Installed.antt =====
-- staff-full-except.c: the entries after the start, and the handlers of the run time.
use thread_equivalence_check.Base.{
  ℕ, ◌≡◌, refl, Option, none, some, Bool, true, false, ◌==◌, if◌then◌else◌, truthy, inl, inr,
  ==_refl, OnSome, ◌⊎◌, Bool-cases,
}
use thread_equivalence_check.Runtime.{Regs, RunQueue, State, Libpi}
use thread_equivalence_check.Runtime.Tracker.{rw_tracker_init}
use thread_equivalence_check.Runtime.Handlers.{
  Ending, returns, switches, finishes, Event, data_abort, prefetch_abort, syscall, handle,
  equiv_hash_handler,
}
use thread_equivalence_check.Debug.{BitSupport, cp14_enable, cp14_bcr0_is_enabled}
use thread_equivalence_check.Except.{
  Vectors, Modes, Resumption, resumed, left, fixup_regs, full_except_install,
  full_except_set_prefetch, full_except_set_data_abort, full_except_set_syscall, Board, step_with,
  mini_step_init, equiv_init, init_tracker, data_abort_pointer, syscall_pointer,
}

-- The registers at an exception, and the exception with others.
abbrev pub regs_of : Event → Regs
regs_of (data_abort r addr dfsr instruction) = r
regs_of (prefetch_abort r) = r
regs_of (syscall r) = r

abbrev pub with_regs : Event → Regs → Event
with_regs (data_abort r addr dfsr instruction) r' = data_abort r' addr dfsr instruction
with_regs (prefetch_abort r) r' = prefetch_abort r'
with_regs (syscall r) r' = syscall r'

abbrev pub is_syscall : Event → Bool
is_syscall (data_abort r addr dfsr instruction) = false
is_syscall (prefetch_abort r) = false
is_syscall (syscall r) = true

-- What the model of the run time says of an exception, as the machine sees it.
abbrev pub resumption : {S : Type 0} → Regs → Option (S × Ending) → Option (Resumption S)
resumption r none = none
resumption r (some (st, returns)) = some (resumed st r)
resumption r (some (st, switches)) = some (left st switches)
resumption r (some (st, finishes)) = some (left st finishes)

-- A handler that does not return.
Leaves : {S : Type 0} → S × Ending → Type 0
Leaves (st, returns) = ⊥
Leaves (st, switches) = Unit
Leaves (st, finishes) = Unit

module _ {Q : Type 0} (rq : RunQueue Q) where
  abbrev Left : Option (State Q × Ending) → Type 0
  Left o = OnSome Leaves o

module _ {Q : Type 0} (rq : RunQueue Q) (pi : Libpi) (bs : BitSupport) (ss_on_exit ints : ℕ)
    (modes : Modes) where
  -- The vectors after the start.
  installed : ℕ → Vectors (State Q)
  installed base = record {
    vector_base = base;
    prefetch_handler = some (step_with rq pi bs ss_on_exit ints (some (equiv_hash_handler rq pi)));
    data_abort_handler = some (data_abort_pointer rq pi bs ss_on_exit ints);
    syscall_handler = some (syscall_pointer rq pi bs ss_on_exit ints);
  }

  -- The board after the start.
  board : Board (State Q) → ℕ → Board (State Q)
  board b enabled = record {
    vectors = installed ints;
    hw = cp14_enable pi bs b.hw;
    step_handler = some (equiv_hash_handler rq pi);
    init = b.init;
    run_time = rw_tracker_init pi enabled b.run_time;
  }

  start :
      (b : Board (State Q)) (enabled : ℕ)
      → truthy b.init ≡ false
      → (b.vectors.vector_base ≡ 0) ⊎ (b.vectors.vector_base ≡ ints)
      → truthy (pi.bit_isset b.hw.bcr0 0) ≡ false
      → equiv_init rq pi bs ss_on_exit ints (init_tracker rq pi bs ss_on_exit ints enabled b)
        ≡ some (board b enabled)
  unfolding equiv_init mini_step_init init_tracker full_except_install full_except_set_prefetch
      full_except_set_data_abort full_except_set_syscall cp14_bcr0_is_enabled cp14_enable board
      installed
  start b enabled started (inl none_yet) off = rw (started, none_yet, off) refl
  start b enabled started (inr same) off = elim (Bool-cases (ints == 0)) [
    | inl e ↦ rw (started, same, e, off) refl
    | inr e ↦ rw (started, same, e, ==_refl ints, off) refl
  ]

  -- What an entry comes to, by the handlers of the run time.
  abbrev pub entry_of : Event → State Q → Option (Resumption (State Q))
  entry_of e st =
      let r = regs_of e in
      let fixed = fixup_regs modes r (r 16) in
      if modes.mode_get (r 16) == modes.user_mode
      then resumption r (handle rq pi ss_on_exit e st)
      else if is_syscall e
      then none
      else resumption fixed (handle rq pi ss_on_exit (with_regs e fixed) st)
