-- ===== src/PageTable/ProcMap.antt =====
-- equiv-mmu.h, the map of the kernel's memory (`procmap_t`), and equiv-pt.c, `vm_map_kernel`.
-- `n` is the length of `map`; NULL is `none`.
pub mod Lookup
pub mod Tracked
pub mod Ready
pub mod Tests
use thread_equivalence_check.Base.{
  ℕ, Option, none, some, List, [], ◌∷◌, ◌++◌, length, ◌==◌, ltb, leb, if◌then◌else◌, ◌&&◌, bit_or,
  assert, add32, sub32, ◌>>=◌, ◌>>◌,
}
use thread_equivalence_check.Base.Bits.{shl}
use thread_equivalence_check.Runtime.Tracker.{dom_manager}
use thread_equivalence_check.PageTable.{
  MemType, mem_device, mem_rw, PrEnt, one_mb, Tables, map_entries, dom_perm,
}

unfoldable pub pr_ent_mk : ℕ → ℕ → MemType → ℕ → Option PrEnt
pr_ent_mk addr nbytes mem_type dom = do
  assert (nbytes == one_mb)
  assert (ltb dom 16)
  some (record { addr = addr; nbytes = nbytes; mem_type = mem_type; dom = dom })

abbrev pub max_ent : ℕ
max_ent = 8

pub record ProcMap : Type 0 where
  pub dom_ids : ℕ
  pub map : List PrEnt

abbrev pub empty_map : ProcMap
empty_map = record { dom_ids = 0; map = [] }

unfoldable pub procmap_push : PrEnt → ProcMap → Option ProcMap
procmap_push e p = do
  assert (ltb (length p.map) max_ent)
  assert (ltb e.dom 16)
  some (record { dom_ids = bit_or p.dom_ids (shl 1 e.dom); map = p.map ++ (e ∷ []) })

-- The loop of `procmap_lookup`; the end of an entry wraps around.
unfoldable pub lookup_from : List PrEnt → ℕ → Option PrEnt
lookup_from [] a = none
lookup_from (e ∷ es) a =
    let later = lookup_from es a in
    if leb e.addr a && ltb a (add32 e.addr e.nbytes) then some e else later

unfoldable pub procmap_lookup : ProcMap → ℕ → Option PrEnt
procmap_lookup pmap a = lookup_from pmap.map a

-- `procmap_push(&p, pr_ent_mk(addr, MB, type, dom))`.
unfoldable pub push_section : ℕ → MemType → ℕ → ProcMap → Option ProcMap
push_section addr mem_type dom p = do e ← pr_ent_mk addr one_mb mem_type dom; procmap_push e p

-- The addresses of the program's end, of the heap and of the stacks come from elsewhere.
pub record Layout : Type 0 where
  pub prog_end : ℕ
  pub heap_start : ℕ
  pub heap_end : ℕ
  pub int_stack_addr : ℕ
  pub stack_addr : ℕ

unfoldable pub procmap_default_mk : Layout → ℕ → ℕ → Option ProcMap
procmap_default_mk at dom dom2 = do
  p1 ← push_section 0x20000000 mem_device dom empty_map
  p2 ← push_section 0x20100000 mem_device dom p1
  p3 ← push_section 0x20200000 mem_device dom p2
  p4 ← push_section 0x300000 mem_rw dom2 p3
  assert (leb at.prog_end one_mb)
  p5 ← push_section 0 mem_rw dom p4
  assert (at.heap_start == one_mb)
  assert (sub32 at.heap_end at.heap_start == one_mb)
  p6 ← push_section 0x100000 mem_rw dom p5
  p7 ← push_section (sub32 at.int_stack_addr one_mb) mem_rw dom p6
  push_section (sub32 at.stack_addr one_mb) mem_rw dom p7

-- The page table and the word for the domain access control.
unfoldable pub vm_map_kernel : ProcMap → Tables → Option (Tables × ℕ)
vm_map_kernel p t = do t' ← map_entries p.map t; d ← dom_perm p.dom_ids dom_manager; some (t', d)
