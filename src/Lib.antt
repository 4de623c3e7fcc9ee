-- ===== src/Lib.antt =====
-- Verification of the thread equivalence checker of final_proj/code.
--
-- The program checks small functions that are to run as threads on one processor (a Raspberry Pi).
-- It finds the bytes that the functions share, runs the functions one after the other in every
-- order and keeps the hashes of the shared bytes, and then runs them as threads under every schedule
-- with a number of context switches, one instruction at a time, and reports each schedule after which
-- the hash is none of those.
--
-- The parts, all in final_proj/code, and their files here:
-- - TrieSet: set.c and set.h, sets of 32-bit values as 32-way tries. A node is `node mask offset
--   children`, NULL is `null`. The loops over a node's children are recursion on the trie; only
--   `set_insert`, which goes on into nodes that it has just made, runs on fuel: 7 rounds, as the
--   offset drops by 5 from 30. TrieSet.Spec has the contract: a trie stands for a predicate.
-- - Memory: memory.c, `hash_mem` and `add_mem`; Memory.Segments the memory segments and Memory.Tags
--   the tags. xxHash (xxhash.h) is a parameter, of which the theorems assume that updates add up.
-- - Touched: equiv-rw-set.c, `get_touched_bytes`. Touched.Arm has the widths of loads and stores as
--   the architecture's manual gives them, which do not follow the tests of the code; Touched.Decode
--   compares them.
-- - Runtime: the static variables of equiv-threads.c, equiv-rw-set.c and mini-step.c as one record;
--   Runtime.Tracker the read/write tracker and the switches for schedules, Runtime.Threads the
--   threads and the run queue, Runtime.Handlers the exception handlers, Runtime.Run `equiv_run`.
--   The machine, which runs a thread up to its next exception, is a parameter, and so is the queue
--   of libpi's queue-ext-T.h (`RunQueue`, operations with laws about a list).
-- - SharedMemory: interleaver.c, `find_shared_memory`, on top of TrieSet.
-- - Schedule: interleaver.c, `tids_valid` and `next_tid`. Its loop runs on fuel: the arrays of a
--   length are as many as the fuel.
-- - Interleaver: interleaver.c, `find_good_hashes` and `run_interleavings`, on top of Memory, Schedule
--   and Runtime. What is printed of a run is a verdict. The loop over the schedules runs on fuel, and
--   so does a run of the machine, which may never stop.
-- - PageTable: equiv-pt.c and equiv-mmu.h, page tables of 1 MB sections as data. PageTable.ProcMap is
--   the map of the kernel's memory and `vm_map_kernel`; the addresses of memmap.h and of the linker
--   are a parameter (`Layout`).
-- - Mmu: equiv-mmu.c and the vm_mmu_* calls of equiv-pt.c, on the coprocessor registers as fields;
--   Mmu.Enabled composes them with PageTable to the whole of `vm_map_kernel`.
-- - Debug: armv6-debug-impl.h and mini-step.c, the debug registers as fields, and the breakpoint on
--   mismatch with all bits of its control register, of which Runtime.Threads keeps the address. The
--   bit-field functions of libpi are a parameter.
-- - Except: staff-full-except.c, the entries for the exceptions, and the start of mini-step.c,
--   equiv-threads.c and equiv-rw-set.c, which installs the handlers of Runtime.Handlers.
-- - Malloc: equiv-malloc.c on a memory of words; Malloc.Validate is `validate_heap`. The search of
--   the free list and the merging of blocks run on fuel, which is an argument: a call that ends in C
--   gives its result for all fuel from some number on. For the search the length of the list is
--   enough.
-- - Checker: equiv-checker.c, `equiv_checker_run`, which composes SharedMemory, with `find_rw_set`
--   (Runtime.Traced), Permutations, `find_good_hashes` and `run_interleavings`. Checker.Start is
--   `equiv_checker_init`, which composes Malloc, PageTable, Mmu and Except.
-- - Permutations: permutations.c. The rows of `itl` are a list that grows at its end.
-- Base has what the modules share: Boolean tests, words of 32 bits that wrap around, faults, lists,
-- bit operations and counted loops. `none` is a fault (a NULL pointer, a failed assert, a panic), or
-- fuel that ran out. The Tests modules run the definitions on small inputs.
--
-- Not modelled: printing and traces; allocation that fails, outside Malloc; assembly and exception
-- vectors (*.S, armv6-cp15.h, armv6-coprocessor-asm.h, switchto.h), of which only reads and writes of
-- registers are, as fields, and not the flushes of caches, TLB and pipeline; xxhash.h; the example
-- programs, which are inputs of the checker.
pub mod Base
pub mod TrieSet
pub mod Memory
pub mod Touched
pub mod Runtime
pub mod SharedMemory
pub mod Schedule
pub mod Interleaver
pub mod PageTable
pub mod Mmu
pub mod Debug
pub mod Except
pub mod Malloc
pub mod Permutations
pub mod Checker
