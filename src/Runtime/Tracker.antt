-- ===== src/Runtime/Tracker.antt =====
-- final_proj/code/equiv-rw-set.c: the tracker of reads and writes, without its fault handler, and
-- the switches of equiv-threads.c for a schedule.
use thread_equivalence_check.Base.{ℕ, ◌+◌, none, some, Bool, false, if◌then◌else◌, truthy}
use thread_equivalence_check.TrieSet.{SetT}
use thread_equivalence_check.Runtime.{RwTracker, CtxSwitchStatus, ScheduleT, State, Libpi}

abbrev pub kern_dom : ℕ
kern_dom = 1

abbrev pub user_dom : ℕ
user_dom = 2

abbrev pub dom_client : ℕ
dom_client = 1

abbrev pub dom_manager : ℕ
dom_manager = 3

unfoldable pub rw_tracker_mk : SetT → SetT → RwTracker
rw_tracker_mk r w = record {
  read = some r;
  write = some w;
  shared_memory = none;
  flagged_pcs = none;
}

unfoldable pub pc_tracker_mk : SetT → SetT → RwTracker
pc_tracker_mk shared_mem pcs = record {
  read = none;
  write = none;
  shared_memory = some shared_mem;
  flagged_pcs = some pcs;
}

unfoldable pub zero_status : CtxSwitchStatus
zero_status = record { ctx_switch = 0; instr_count = 0; do_instr_count = 0; yielded = 0 }

module _ {Q : Type 0} where
  unfoldable pub reset_ctx_switch : State Q → State Q
  reset_ctx_switch st = record st { ctx_switch_status = zero_status }

  unfoldable pub enable_ctx_switch : ScheduleT → SetT → State Q → State Q
  enable_ctx_switch sched shared_mem st =
      reset_ctx_switch (record st { schedule = some sched; shared_memory = some shared_mem })

  unfoldable pub disable_ctx_switch : State Q → State Q
  disable_ctx_switch st = reset_ctx_switch (record st { schedule = none; shared_memory = none })

  unfoldable pub set_tracker : RwTracker → State Q → State Q
  set_tracker tracker st = record st { current_tracker = tracker }

  unfoldable pub set_memory_touch_handler : Bool → State Q → State Q
  set_memory_touch_handler func st = record st { memory_touch_handler = func }

  module _ (pi : Libpi) where
    -- The field of the user domain in the access control register.
    unfoldable pub set_data_faults : ℕ → State Q → State Q
    set_data_faults enable st =
        if truthy enable
        then record st { domain_acl = pi.bits_set st.domain_acl user_dom (user_dom + 1) dom_client }
        else record st {
          domain_acl = pi.bits_set st.domain_acl user_dom (user_dom + 1) dom_manager;
        }

    unfoldable pub rw_tracker_arm : State Q → State Q
    rw_tracker_arm st = if truthy st.rw_tracker_enabled then set_data_faults 1 st else st

    unfoldable pub rw_tracker_disarm : State Q → State Q
    rw_tracker_disarm st = set_data_faults 0 st

    unfoldable pub rw_tracker_enable : State Q → State Q
    rw_tracker_enable st = record st { rw_tracker_enabled = 1 }

    unfoldable pub rw_tracker_disable : State Q → State Q
    rw_tracker_disable st = let st' = rw_tracker_disarm st in record st' { rw_tracker_enabled = 0 }

    unfoldable pub rw_tracker_init : ℕ → State Q → State Q
    rw_tracker_init enabled st =
        let st' = set_memory_touch_handler false (rw_tracker_disarm st) in
        record st' { rw_tracker_enabled = enabled }
