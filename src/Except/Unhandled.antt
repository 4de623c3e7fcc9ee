-- ===== src/Except/Unhandled.antt =====
-- staff-full-except.c: the exceptions that the entries refuse.
use thread_equivalence_check.Base.{
  ℕ, ◌≡◌, refl, Option, none, some, Bool, true, false, ◌==◌, not, assert, ◌&&◌, ◌||◌, ◌>>=◌,
}
use thread_equivalence_check.Runtime.Handlers.{Event, data_abort, prefetch_abort, syscall}
use thread_equivalence_check.Except.{
  Vectors, Modes, prefetch_abort_full_except, data_abort_full_except, syscall_full_except, dispatch,
}
use thread_equivalence_check.Except.Installed.{regs_of, is_syscall}

abbrev pub is_set {ℓ} : {A : Type ℓ} → Option A → Bool
is_set none = false
is_set (some a) = true

abort_guard :
    {A B : Type 0} (a b : Bool) (h : Option A) (k : A → Option B)
    → (is_set h && a && b && true) ≡ false
    → (assert a >>= λ x. assert b >>= λ y. h >>= k) ≡ none
abort_guard false b h k e = refl
abort_guard true false h k e = refl
abort_guard true true none k e = refl
abort_guard true true (some h) k e = absurd cc

syscall_guard :
    {A B : Type 0} (a b user deep : Bool) (h : Option A) (k : A → Option B)
    → (is_set h && a && b && user) ≡ false
    → (assert a >>= λ x. assert b >>= λ y. assert user >>= λ z. assert deep >>= λ w. h >>= k) ≡ none
syscall_guard false b user deep h k e = refl
syscall_guard true false user deep h k e = refl
syscall_guard true true false deep h k e = refl
syscall_guard true true true false h k e = refl
syscall_guard true true true true none k e = refl
syscall_guard true true true true (some h) k e = absurd cc

module _ (modes : Modes) {S : Type 0} where
  -- A handler is set for the exception.
  abbrev pub is_handled : Vectors S → Event → Bool
  is_handled v (data_abort r addr dfsr instruction) = is_set v.data_abort_handler
  is_handled v (prefetch_abort r) = is_set v.prefetch_handler
  is_handled v (syscall r) = is_set v.syscall_handler

  -- An exception is a fault for which no handler is set, or whose registers do not have the CPSR
  -- and the PC that the assembly passes, or that is a system call from another mode than user mode.
  pub unhandled-fault :
      (v : Vectors S) (e : Event) (spsr pc : ℕ) (st : S)
      → (is_handled v e
          && spsr == regs_of e 16
          && pc == regs_of e 15
          && (not (is_syscall e) || modes.mode_get spsr == modes.user_mode))
        ≡ false
      → dispatch modes v e spsr pc st ≡ none
  unfolding dispatch data_abort_full_except prefetch_abort_full_except syscall_full_except
  unhandled-fault v (data_abort r addr dfsr instruction) spsr pc st h =
      abort_guard (spsr == r 16) (pc == r 15) v.data_abort_handler _ h
  unhandled-fault v (prefetch_abort r) spsr pc st h =
      abort_guard (spsr == r 16) (pc == r 15) v.prefetch_handler _ h
  unhandled-fault v (syscall r) spsr pc st h =
      syscall_guard (spsr == r 16) (pc == r 15) _ _ v.syscall_handler _ h
