-- ===== src/Runtime/Tests.antt =====
-- The run time on three threads, with a list as the queue.
use thread_equivalence_check.Base.{
  OnSome, ℕ, ◌≡◌, refl, ap, Option, none, some, List, [], ◌∷◌, ◌++◌, Bool, true, false, ◌||◌, ◌==◌,
  truthy, arith,
}
use thread_equivalence_check.TrieSet.{SetT, set_alloc, set_insert}
use thread_equivalence_check.TrieSet.Spec.{Denotes, alloc-Denotes, insert-Denotes}
use thread_equivalence_check.Runtime.{
  Regs, EqTh, ScheduleT, CtxSwitchStatus, RwTracker, RunQueue, State, Libpi,
}
use thread_equivalence_check.Runtime.Handlers.{handle, prefetch_abort, switches, equiv_hash_handler}
use thread_equivalence_check.Runtime.Rotation.{Distinct}
use thread_equivalence_check.Runtime.Switching.{SwitchedTo, hash_handler-SwitchedTo}
use thread_equivalence_check.Runtime.Bounded.{Bounded}
use thread_equivalence_check.Runtime.Handled.{handle-Bounded}

abbrev pop : List ℕ → Option (ℕ × List ℕ)
pop [] = none
pop (p ∷ ps) = some (p, ps)

abbrev no_items : List ℕ → Bool
no_items [] = true
no_items (p ∷ ps) = false

abbrev pub list_queue : RunQueue (List ℕ)
list_queue = record {
  eq_pop = pop;
  eq_append = λ q p. q ++ p ∷ [];
  eq_push = λ q p. p ∷ q;
  eq_empty = no_items;
  items = λ q. q;
  pop_nil = λ q e. ap pop e;
  pop_cons = λ q p ps e. (ps, ap pop e, refl);
  append_items = λ q p fresh. refl;
  push_items = λ q p fresh. refl;
}

-- The thread at address `p` has the id `p`.
abbrev pub thread : ℕ → EqTh
thread p = record {
  regs = λ r. 0;
  tid = p;
  fn = 0;
  args = 0;
  stack_start = p;
  stack_end = p;
  verbose_p = 0;
}

abbrev pub two_slices : ScheduleT
two_slices = record {
  tids = 1 ∷ 3 ∷ 2 ∷ [];
  instr_counts = 2 ∷ 1 ∷ [];
  n_ctx_switches = 2;
  n_funcs = 3;
  report = none;
}

abbrev status_at : ℕ → CtxSwitchStatus
status_at n = record { ctx_switch = 0; instr_count = n; do_instr_count = 1; yielded = 0 }

abbrev no_tracker : RwTracker
no_tracker = record { read = none; write = none; shared_memory = none; flagged_pcs = none }

abbrev pub pi : Libpi
pi = record { bits_get = λ n low high. n; bit_isset = λ n i. n; bits_set = λ n low high v. v }

abbrev pub state_at : ℕ → SetT → State (List ℕ)
state_at n shared = record {
  heap = thread;
  equiv_runq = 2 ∷ 3 ∷ [];
  cur_thread = some 1;
  schedule = some two_slices;
  shared_memory = some shared;
  ctx_switch_status = status_at n;
  ntids = 4;
  rw_tracker_enabled = 1;
  current_tracker = no_tracker;
  memory_touch_handler = true;
  domain_acl = 0;
  single_step_on_p = 1;
  breakpoint = 0;
}

abbrev moved : Regs
moved r = 8

two_three : Distinct thread (2 ∷ 3 ∷ [])
two_three = ((omega arith, tt), (tt, tt))

one_two_three : Distinct thread (1 ∷ 2 ∷ 3 ∷ [])
one_two_three = ((omega arith, (omega arith, tt)), two_three)

hash_handler-SwitchedTo_example :
    (st' : State (List ℕ)) × (equiv_hash_handler list_queue pi moved (state_at 1 set_alloc)
      ≡ some (st', switches))
    × SwitchedTo list_queue pi (state_at 1 set_alloc) st' two_slices 1 3 moved (2 ∷ 1 ∷ [])
hash_handler-SwitchedTo_example =
    hash_handler-SwitchedTo list_queue pi (state_at 1 set_alloc) moved two_slices 1 3 2 (2 ∷ []) []
      refl refl refl refl (omega arith) (omega arith) (omega arith) refl refl one_two_three refl

-- The set with the value 5.
abbrev five :
    (s : SetT) × (r : ℕ) × (set_insert set_alloc 5 ≡ some (s, r))
    × (truthy r ≡ false)
    × Denotes s (λ u. false || (u == 5))
five = insert-Denotes set_alloc (λ v. false) 5 alloc-Denotes (omega arith)

abbrev reporting : ScheduleT
reporting = record two_slices { report = some (λ c i. 0) }

abbrev untouched : State (List ℕ)
untouched = record (state_at 1 five.0) {
  schedule = some reporting;
  ctx_switch_status = record (status_at 1) { do_instr_count = 0 };
}

handle-Bounded_example :
    OnSome
      (λ out. Bounded 2 out.0)
      (handle list_queue pi 99 (prefetch_abort moved) (state_at 1 set_alloc))
handle-Bounded_example =
    handle-Bounded 2 (omega arith) list_queue pi 99 (prefetch_abort moved) (state_at 1 set_alloc)
      ((omega arith, λ on. omega arith), refl)
