-- ===== src/Runtime/Traced.antt =====
-- final_proj/code/equiv-rw-set.c, `find_rw_set` and `find_pc_set`: one function runs under the
-- tracker. `new_thread` is what `kmalloc_aligned` does to the world: the address of the thread.
use thread_equivalence_check.Base.{ℕ, Option, some, ◌>>=◌}
use thread_equivalence_check.TrieSet.{SetT}
use thread_equivalence_check.Runtime.{RunQueue, State, Libpi}
use thread_equivalence_check.Runtime.Tracker.{
  rw_tracker_mk, pc_tracker_mk, disable_ctx_switch, set_tracker, rw_tracker_enable,
  rw_tracker_disable,
}
use thread_equivalence_check.Runtime.Threads.{Cpu, reset_ntids, equiv_fork}
use thread_equivalence_check.Runtime.Handlers.{Event}
use thread_equivalence_check.Runtime.Run.{equiv_run}

module _ {W Q : Type 0} (rq : RunQueue Q) (pi : Libpi) (cpu : Cpu) (ss_on_exit : ℕ)
    (machine : W → State Q → Event × W) (run_fuel verbose_p : ℕ) (new_thread : W → ℕ × W) where
  -- The run of the function, with the tracker set.
  unfoldable pub run_alone : ℕ → W × State Q → Option (W × State Q)
  run_alone exe (w, st) =
      let (th, w') = new_thread w in
      (do
        st1 ← equiv_fork rq cpu verbose_p th exe 0 (rw_tracker_enable pi st)
        (st2, w'') ← equiv_run rq pi ss_on_exit machine run_fuel w' st1
        st3 ← reset_ntids rq (rw_tracker_disable pi st2)
        some (w'', st3))

  -- The sets are those that the tracker points to at the end.
  unfoldable pub find_rw_set :
      ℕ → SetT → SetT → W × State Q → Option ((SetT × SetT) × (W × State Q))
  find_rw_set exe read write (w, st) = do
    (w', st') ← run_alone exe (w, set_tracker (rw_tracker_mk read write) (disable_ctx_switch st))
    read' ← st'.current_tracker.read
    write' ← st'.current_tracker.write
    some ((read', write'), (w', st'))

  unfoldable pub find_pc_set : ℕ → SetT → SetT → W × State Q → Option (SetT × (W × State Q))
  find_pc_set exe shared_memory pcs (w, st) = do
    (w', st') ←
        run_alone exe (w, set_tracker (pc_tracker_mk shared_memory pcs) (disable_ctx_switch st))
    pcs' ← st'.current_tracker.flagged_pcs
    some (pcs', (w', st'))
