-- ===== src/Runtime.antt =====
-- The state of the run time of final_proj/code: equiv-threads.h, and the static variables of
-- equiv-threads.c, equiv-rw-set.c and mini-step.c. A pointer to a thread is a number, and `none`
-- stands for NULL. The queue of queue-ext-T.h is a parameter with the interface `RunQueue`.
pub mod Tracker
pub mod Threads
pub mod Handlers
pub mod Run
pub mod Bounded
pub mod Handled
pub mod Reached
pub mod Rotation
pub mod Switching
pub mod Touching
pub mod Traced
pub mod Untracked
pub mod Recorded
pub mod Alone
pub mod Ended
pub mod Roster
pub mod Turns
pub mod RosterTests
pub mod Kept
pub mod Conserved
pub mod AloneTests
pub mod Faults
pub mod Tests
use thread_equivalence_check.Base.{
  ℕ, ◌≡◌, ◌≢◌, Option, none, some, List, [], ◌∷◌, ◌++◌, All, Bool, ◌==◌, if◌then◌else◌,
}
use thread_equivalence_check.TrieSet.{SetT}

-- `regs_t`: 17 registers; 13 is SP, 14 LR, 15 PC and 16 CPSR.
abbrev pub Regs : Type 0
Regs = ℕ → ℕ

pub record EqTh : Type 0 where
  pub regs : Regs
  pub tid : ℕ
  pub fn : ℕ
  pub args : ℕ
  pub stack_start : ℕ
  pub stack_end : ℕ
  pub verbose_p : ℕ

pub record ScheduleT : Type 0 where
  pub tids : List ℕ
  pub instr_counts : List ℕ
  pub n_ctx_switches : ℕ
  pub n_funcs : ℕ
  -- The recorded PC for each context switch and instruction.
  pub report : Option (ℕ → ℕ → ℕ)

pub record CtxSwitchStatus : Type 0 where
  pub ctx_switch : ℕ
  pub instr_count : ℕ
  pub do_instr_count : ℕ
  pub yielded : ℕ

pub record RwTracker : Type 0 where
  pub read : Option SetT
  pub write : Option SetT
  pub shared_memory : Option SetT
  pub flagged_pcs : Option SetT

-- The queue of threads: the operations, and what they do to the list of the queued threads, the
-- head first. A thread is linked through its own `next`, so it must not be queued twice.
pub record RunQueue (Q : Type 0) : Type 0 where
  pub eq_pop : Q → Option (ℕ × Q)
  pub eq_append : Q → ℕ → Q
  pub eq_push : Q → ℕ → Q
  pub eq_empty : Q → Bool
  pub items : Q → List ℕ
  pub pop_nil : (q : Q) → items q ≡ [] → eq_pop q ≡ none
  pub pop_cons :
      (q : Q) (p : ℕ) (ps : List ℕ)
      → items q ≡ p ∷ ps
      → (q' : Q) × (eq_pop q ≡ some (p, q')) × (items q' ≡ ps)
  pub append_items :
      (q : Q) (p : ℕ) → All (λ x. p ≢ x) (items q) → items (eq_append q p) ≡ items q ++ p ∷ []
  pub push_items : (q : Q) (p : ℕ) → All (λ x. p ≢ x) (items q) → items (eq_push q p) ≡ p ∷ items q

-- The static variables. `memory_touch_handler` tells whether `ctx_switch_handler` is installed, the
-- only handler that the program installs; `domain_acl` and `breakpoint` are hardware registers.
pub record State (Q : Type 0) : Type 0 where
  pub heap : ℕ → EqTh
  pub equiv_runq : Q
  pub cur_thread : Option ℕ
  pub schedule : Option ScheduleT
  pub shared_memory : Option SetT
  pub ctx_switch_status : CtxSwitchStatus
  pub ntids : ℕ
  pub rw_tracker_enabled : ℕ
  pub current_tracker : RwTracker
  pub memory_touch_handler : Bool
  pub domain_acl : ℕ
  pub single_step_on_p : ℕ
  pub breakpoint : ℕ

-- `*th = t`
abbrev pub write_thread : (ℕ → EqTh) → ℕ → EqTh → ℕ → EqTh
write_thread heap th t p = if p == th then t else heap p

-- The functions of libpi on bit fields.
pub record Libpi : Type 0 where
  pub bits_get : ℕ → ℕ → ℕ → ℕ
  pub bit_isset : ℕ → ℕ → ℕ
  pub bits_set : ℕ → ℕ → ℕ → ℕ → ℕ
