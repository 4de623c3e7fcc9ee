-- ===== src/Runtime/AloneTests.antt =====
-- A function that stores a word and exits, and the access to the domains.
use thread_equivalence_check.Base.{
  ℕ, zero, suc, ◌+◌, ◌*◌, ◌-◌, ◌/◌, ◌%◌, ◌^◌, ◌<◌, ◌≡◌, refl, Option, none, some, List, [], ◌∷◌,
  inl, inr, Bool, false, true, ◌||◌, ◌==◌, if◌then◌else◌, truthy, arith,
}
use thread_equivalence_check.TrieSet.{SetT, set_alloc, set_lookup}
use thread_equivalence_check.TrieSet.Spec.{Denotes, alloc-Denotes}
use thread_equivalence_check.Runtime.{Regs, EqTh, CtxSwitchStatus, RwTracker, State, Libpi}
use thread_equivalence_check.Touched.Arm.{ReadsBits, arm_width}
use thread_equivalence_check.Runtime.Tracker.{
  set_tracker, rw_tracker_mk, disable_ctx_switch, kern_dom, dom_client, dom_manager,
  set_data_faults,
}
use thread_equivalence_check.Runtime.Tests.{list_queue, state_at}
use thread_equivalence_check.Runtime.Threads.{Cpu}
use thread_equivalence_check.Runtime.Handlers.{
  handle, Ending, returns, finishes, Event, data_abort, syscall,
}
use thread_equivalence_check.Runtime.Traced.{find_rw_set, find_pc_set}
use thread_equivalence_check.Runtime.Recorded.{IsAccess, all_accesses}
use thread_equivalence_check.Runtime.Alone.{Handled, launched, find_rw_set-Sets}
use thread_equivalence_check.Runtime.Ended.{begin, Stops, find_rw_set-Ends}
use thread_equivalence_check.Runtime.Faults.{SetsBits, set_data_faults-access}
use thread_equivalence_check.PageTable.Domains.{access}

abbrev pub bits : Libpi
bits = record {
  bits_get = λ n low high. n / 2 ^ low % 2 ^ (high + 1 - low);
  bit_isset = λ n i. n / 2 ^ i % 2;
  bits_set = λ n low high v. n / 2 ^ (high + 1) * 2 ^ (high + 1) + v * 2 ^ low + n % 2 ^ low;
}

abbrev no_regs : Regs
no_regs r = 0

-- The stack pointer is at the end of the stack.
abbrev exit_regs : Option ℕ → State (List ℕ) → Regs
exit_regs none st r = 0
exit_regs (some th) st r = if r == 13 then (st.heap th).stack_end else 0

-- A store of a word to address 64, by STR, that faults on the permission of domain 1.
abbrev stores : ℕ → State (List ℕ) → Event × ℕ
stores zero st = (data_abort no_regs 64 2077 67108864, 1)
stores (suc n) st = (syscall (exit_regs st.cur_thread st), suc (suc n))

abbrev cpu : Cpu
cpu = record { sys_equiv_exit = 0; user_cpsr = 16 }

abbrev new_thread : ℕ → ℕ × ℕ
new_thread w = (4096, w)

abbrev idle : ℕ × State (List ℕ)
idle = (0, record (state_at 0 set_alloc) { equiv_runq = []; single_step_on_p = 0 })

abbrev Result : Type 0
Result = (SetT × SetT) × (ℕ × State (List ℕ))

result : Option Result → Result
result none = ((set_alloc, set_alloc), idle)
result (some r) = r

-- The line names the program, for the tests below.
run : Option Result
unfolding thread_equivalence_check.Runtime.Traced.run_alone
    thread_equivalence_check.Runtime.Traced.find_rw_set
    thread_equivalence_check.Runtime.Traced.find_pc_set
    thread_equivalence_check.Runtime.Tracker.pc_tracker_mk
    thread_equivalence_check.Runtime.Tracker.rw_tracker_mk
    thread_equivalence_check.Runtime.Tracker.zero_status
    thread_equivalence_check.Runtime.Tracker.reset_ctx_switch
    thread_equivalence_check.Runtime.Tracker.enable_ctx_switch
    thread_equivalence_check.Runtime.Tracker.disable_ctx_switch
    thread_equivalence_check.Runtime.Tracker.set_tracker
    thread_equivalence_check.Runtime.Tracker.set_memory_touch_handler
    thread_equivalence_check.Runtime.Tracker.set_data_faults
    thread_equivalence_check.Runtime.Tracker.rw_tracker_disarm
    thread_equivalence_check.Runtime.Tracker.rw_tracker_enable
    thread_equivalence_check.Runtime.Tracker.rw_tracker_disable
    thread_equivalence_check.Runtime.Threads.retrieve_fuel
    thread_equivalence_check.Runtime.Threads.retrieve_tid_from_queue
    thread_equivalence_check.Runtime.Threads.check_sp
    thread_equivalence_check.Runtime.Threads.equiv_regs_init
    thread_equivalence_check.Runtime.Threads.reset_ntids
    thread_equivalence_check.Runtime.Threads.equiv_fork
    thread_equivalence_check.Runtime.Threads.equiv_refresh
    thread_equivalence_check.Runtime.Threads.reset_threads
    thread_equivalence_check.Runtime.Threads.init_threads
    thread_equivalence_check.Runtime.Threads.mismatch_pc_set
    thread_equivalence_check.Runtime.Threads.mismatch_on
    thread_equivalence_check.Runtime.Threads.mismatch_off
    thread_equivalence_check.Runtime.Threads.mismatch_run
    thread_equivalence_check.Runtime.Run.first_thread
    thread_equivalence_check.Runtime.Run.run_events thread_equivalence_check.Runtime.Run.equiv_run
    thread_equivalence_check.Runtime.Handlers.exit_to
    thread_equivalence_check.Runtime.Handlers.sys_exit
    thread_equivalence_check.Runtime.Handlers.equiv_syscall_handler
    thread_equivalence_check.Runtime.Handlers.handle thread_equivalence_check.TrieSet.put
    thread_equivalence_check.TrieSet.set_mk thread_equivalence_check.TrieSet.set_alloc_offset
    thread_equivalence_check.TrieSet.set_alloc thread_equivalence_check.TrieSet.mask_has
    thread_equivalence_check.TrieSet.index_at thread_equivalence_check.TrieSet.visit_child
    thread_equivalence_check.TrieSet.set_foreach_recurse
    thread_equivalence_check.TrieSet.set_foreach thread_equivalence_check.TrieSet.set_free
    thread_equivalence_check.TrieSet.insert_fuel thread_equivalence_check.TrieSet.set_insert
    thread_equivalence_check.TrieSet.union_inplace_child
    thread_equivalence_check.TrieSet.set_union_inplace thread_equivalence_check.Base.Loops.for_loop
    thread_equivalence_check.Runtime.Handlers.record_pc
    thread_equivalence_check.Runtime.Handlers.union_into
    thread_equivalence_check.Runtime.Handlers.track
    thread_equivalence_check.Runtime.Handlers.touch_installed
    thread_equivalence_check.Runtime.Handlers.ctx_switch_handler
    thread_equivalence_check.Runtime.Handlers.touch_scheduled
    thread_equivalence_check.Runtime.Handlers.rw_tracker_data_abort_handler
    thread_equivalence_check.Touched.insert_byte thread_equivalence_check.Touched.register_round
    thread_equivalence_check.Touched.touched_extra thread_equivalence_check.Touched.touched_multiple
    thread_equivalence_check.Touched.get_touched_bytes thread_equivalence_check.TrieSet.set_lookup
    thread_equivalence_check.TrieSet.set_union thread_equivalence_check.TrieSet.set_copy
    thread_equivalence_check.TrieSet.copy_child thread_equivalence_check.TrieSet.union_child
run = find_rw_set list_queue bits cpu 99 stores 20 0 new_thread 7 set_alloc set_alloc idle

run-some :
    find_rw_set list_queue bits cpu 99 stores 20 0 new_thread 7 set_alloc set_alloc idle
    ≡ some (((result run).0.0, (result run).0.1), (result run).1)
unfolding run result
run-some = refl

stored : set_lookup (result run).0.1 66 ≡ some 1
unfolding run result
stored = refl

reads : ReadsBits bits.bits_get bits.bit_isset
reads = record { get = λ x lb ub. refl; isset = λ x i. refl }

words : (w : ℕ) (st : State (List ℕ)) → IsAccess (stores w st).0
unfolding arm_width
words zero st = (omega arith, (4, refl), λ swap. absurd (omega (arith, swap)))
words (suc n) st = tt

find_rw_set-Sets_example :
    (start : ℕ × State (List ℕ)) × (end : ℕ × State (List ℕ)) × (es : List Event) × (launched
        list_queue bits cpu 99 stores 20 0 new_thread 7
        (idle.0, set_tracker (rw_tracker_mk set_alloc set_alloc) (disable_ctx_switch idle.1))
      ≡ some start)
    × Handled list_queue bits 99 stores start es end
    × (end.0 ≡ (result run).1.0)
    × Denotes (result run).0.0 (λ v. false || all_accesses bits false es v)
    × Denotes (result run).0.1 (λ v. false || all_accesses bits true es v)
find_rw_set-Sets_example =
    find_rw_set-Sets list_queue bits cpu 99 stores 20 0 new_thread reads words 7 set_alloc set_alloc
      (result run).0.0 (result run).0.1 (λ v. false) (λ v. false) idle (result run).1 alloc-Denotes
      alloc-Denotes run-some

pub sets : SetsBits bits
sets x lb ub v h fits = refl

set_data_faults-access_example : access 1 (set_data_faults bits 1 idle.1).domain_acl ≡ (
    if 1 == kern_dom
    then (if truthy 1 then dom_client else dom_manager)
    else access 1 idle.1.domain_acl)
set_data_faults-access_example = set_data_faults-access bits sets idle.1 1 1

abbrev World : Type 0
World = ℕ × State (List ℕ)

there : Option World → World
there none = idle
there (some s) = s

handled : Option (State (List ℕ) × Ending) → State (List ℕ)
handled none = idle.1
handled (some out) = out.0

launch : Option World
unfolding run
launch = launched list_queue bits cpu 99 stores 20 0 new_thread 7 (begin set_alloc set_alloc idle)

launch-some :
    launched list_queue bits cpu 99 stores 20 0 new_thread 7 (begin set_alloc set_alloc idle)
    ≡ some (there launch)
unfolding launch launched there
launch-some = refl

after_store : Option (State (List ℕ) × Ending)
unfolding launch launched there
after_store = handle list_queue bits 99 (stores 0 (there launch).1).0 (there launch).1

after_exit : Option (State (List ℕ) × Ending)
unfolding after_store handled
after_exit = handle list_queue bits 99 (stores 1 (handled after_store)).0 (handled after_store)

abbrev events : List Event
events = (stores 0 (there launch).1).0 ∷ (stores 1 (handled after_store)).0 ∷ []

abbrev ended : World
ended = (2, handled after_exit)

store_then_exit : Stops list_queue bits 99 stores (there launch) events ended
unfolding after_exit
store_then_exit = (
  handled after_store,
  returns,
  refl,
  refl,
  inr (refl, (handled after_exit, finishes, refl, refl, inl (refl, refl, refl))),
)

stepping : truthy ended.1.single_step_on_p ≡ true
unfolding after_exit
stepping = refl

no_thread : list_queue.eq_empty ended.1.equiv_runq ≡ true
unfolding after_exit
no_thread = refl

find_rw_set-Ends_example :
    (read' : SetT) × (write' : SetT) × (t : World) × (find_rw_set list_queue bits cpu 99 stores 20 0
        new_thread 7 set_alloc set_alloc idle
      ≡ some ((read', write'), t))
    × Denotes read' (λ v. false || all_accesses bits false events v)
    × Denotes write' (λ v. false || all_accesses bits true events v)
find_rw_set-Ends_example =
    find_rw_set-Ends list_queue bits cpu 99 stores 20 0 new_thread reads words 7 set_alloc set_alloc
      (λ v. false) (λ v. false) events idle (there launch) ended alloc-Denotes alloc-Denotes
      (omega arith) launch-some store_then_exit stepping no_thread
