-- ===== src/Runtime/Threads.antt =====
-- final_proj/code/equiv-threads.c: threads and the run queue; from mini-step.c the setting of the
-- mismatch breakpoint; from interleaver.c the set-up of the threads of a run.
use thread_equivalence_check.Base.{
  ℕ, zero, suc, ◌%◌, Option, none, some, ◌==◌, ltb, if◌then◌else◌, truthy, add32, not, length,
  assert, ◌>>=◌, ◌>>◌,
}
use thread_equivalence_check.Base.Loops.{for_loop}
use thread_equivalence_check.Runtime.{Regs, EqTh, RunQueue, State, write_thread}

abbrev pub stack_size : ℕ
stack_size = 2048

-- What the registers of a new thread take from the processor and the linker: the address of
-- `sys_equiv_exit`, and the inherited CPSR in user mode.
pub record Cpu : Type 0 where
  pub sys_equiv_exit : ℕ
  pub user_cpsr : ℕ

module _ {Q : Type 0} (rq : RunQueue Q) where
  -- The while loop on fuel, with `th` popped; a NULL pointer and the panic are faults.
  unfoldable pub retrieve_fuel : ℕ → (ℕ → EqTh) → ℕ → ℕ → ℕ → Q → Option (ℕ × Q)
  retrieve_fuel zero heap tid first_tid th q = none
  retrieve_fuel (suc fuel) heap tid first_tid th q =
      let step = (do
        (th', q') ← rq.eq_pop q
        let rest = retrieve_fuel fuel heap tid first_tid th' (rq.eq_append q' th) in
            if (heap th').tid == first_tid then none else rest) in
      if (heap th).tid == tid then some (th, q) else step

  -- Each round rotates the queue by one, so its length bounds the rounds.
  unfoldable pub retrieve_tid_from_queue : (ℕ → EqTh) → ℕ → Q → Option (ℕ × Q)
  retrieve_tid_from_queue heap tid q = do
    (th, q') ← rq.eq_pop q
    retrieve_fuel (length (rq.items q)) heap tid (heap th).tid th q'

  unfoldable pub check_sp : EqTh → Option (Unit {0})
  check_sp th =
      assert (not (ltb (th.regs 13) th.stack_start)) >> assert (not (ltb th.stack_end (th.regs 13)))

  unfoldable pub equiv_regs_init : Cpu → EqTh → Regs
  equiv_regs_init cpu p r =
      if r == 0
      then p.args
      else if r == 15
      then p.fn
      else if r == 13
      then p.stack_end
      else if r == 14
      then cpu.sys_equiv_exit
      else if r == 16
      then cpu.user_cpsr
      else 0

  unfoldable pub reset_ntids : State Q → Option (State Q)
  reset_ntids st = assert (rq.eq_empty st.equiv_runq) >> some (record st { ntids = 1 })

  -- `th` is what `kmalloc_aligned` returns.
  unfoldable pub equiv_fork : Cpu → ℕ → ℕ → ℕ → ℕ → State Q → Option (State Q)
  equiv_fork cpu verbose_p th fn args st =
      let blank : EqTh = record {
        regs = λ r. 0;
        tid = st.ntids;
        fn = fn;
        args = args;
        stack_start = th;
        stack_end = add32 th stack_size;
        verbose_p = verbose_p;
      } in
      let t : EqTh = record blank { regs = equiv_regs_init cpu blank } in
      (do
        assert (th % 8 == 0)
        assert (t.stack_end % 8 == 0)
        check_sp t
        some (record st {
          ntids = add32 st.ntids 1;
          heap = write_thread st.heap th t;
          equiv_runq = rq.eq_push st.equiv_runq th;
        }))

  -- A thread without a stack: the stack pointer and both ends are 0.
  unfoldable pub equiv_fork_nostack : Cpu → ℕ → ℕ → ℕ → ℕ → State Q → Option (State Q)
  equiv_fork_nostack cpu verbose_p th fn args st = do
    st' ← equiv_fork cpu verbose_p th fn args st
    let forked = st'.heap th in
        (let t : EqTh = record forked {
          regs = λ r. if r == 13 then 0 else forked.regs r;
          stack_start = 0;
          stack_end = 0;
        } in
          some (record st' { heap = write_thread st'.heap th t }))

  unfoldable pub equiv_refresh : Cpu → ℕ → State Q → Option (State Q)
  equiv_refresh cpu th st =
      let old = st.heap th in
      let t : EqTh = record old { regs = equiv_regs_init cpu old } in
      (do
        check_sp t
        some (record st {
          heap = write_thread st.heap th t;
          equiv_runq = rq.eq_push st.equiv_runq th;
        }))

  unfoldable pub reset_threads : Cpu → (ℕ → ℕ) → ℕ → State Q → Option (State Q)
  reset_threads cpu thread_arr num_threads st =
      for_loop num_threads 0 (λ i. equiv_refresh cpu (thread_arr i)) st

  -- `fns` are the addresses of the functions and `thread_arr` the allocated threads.
  unfoldable pub init_threads : Cpu → ℕ → (ℕ → ℕ) → (ℕ → ℕ) → ℕ → State Q → Option (State Q)
  init_threads cpu verbose_p thread_arr fns num_funcs st = do
    st' ← reset_ntids st
    for_loop num_funcs 0 (λ i. equiv_fork cpu verbose_p (thread_arr i) (fns i) 0) st'

module _ {Q : Type 0} where
  -- The breakpoint register holds the address at which no fault is raised.
  unfoldable pub mismatch_pc_set : ℕ → State Q → Option (State Q)
  mismatch_pc_set pc st =
      assert (truthy st.single_step_on_p) >> some (record st { breakpoint = pc })

  unfoldable pub mismatch_on : State Q → Option (State Q)
  mismatch_on st =
      assert (not (truthy st.single_step_on_p))
      >> mismatch_pc_set 0 (record st { single_step_on_p = 1 })

  unfoldable pub mismatch_off : State Q → Option (State Q)
  mismatch_off st = assert (truthy st.single_step_on_p) >> some (record st { single_step_on_p = 0 })

  -- The switch to the registers of the current thread is what the machine does next.
  unfoldable pub mismatch_run : State Q → Option (State Q)
  mismatch_run st = do th ← st.cur_thread; mismatch_pc_set ((st.heap th).regs 15) st
