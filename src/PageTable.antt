-- ===== src/PageTable.antt =====
-- final_proj/code/equiv-pt.c and equiv-mmu.h: page tables of 1 MB sections, as far as they are data.
-- An entry is a record with a field for each bit field, which holds the value cut to its width.
pub mod Translate
pub mod Kernel
pub mod Domains
pub mod ProcMap
pub mod Tests
use thread_equivalence_check.Base.{
  ℕ, zero, suc, ◌+◌, ◌-◌, ◌*◌, ◌/◌, ◌%◌, ◌^◌, Option, none, some, List, [], ◌∷◌, Bool, true, false,
  ◌==◌, ltb, leb, if◌then◌else◌, not, ◌&&◌, ◌||◌, bit_and, bit_or, assert, truthy, add32, ◌>>=◌,
  ◌>>◌,
}
use thread_equivalence_check.Base.Bits.{shl, shr}
use thread_equivalence_check.Base.Loops.{for_loop}

pub record Fld : Type 0 where
  pub tag : ℕ
  pub B : ℕ
  pub C : ℕ
  pub xn : ℕ
  pub domain : ℕ
  pub imp : ℕ
  pub ap : ℕ
  pub tex : ℕ
  pub apx : ℕ
  pub S : ℕ
  pub ng : ℕ
  pub super : ℕ
  pub sbz1 : ℕ
  pub sec_base_addr : ℕ

pub record PinT : Type 0 where
  pub G : ℕ
  pub asid : ℕ
  pub dom : ℕ
  pub pagesize : ℕ
  pub ap_perm : ℕ
  pub mem_attr : ℕ

-- `MEM_DEVICE`, `MEM_RW` and `MEM_RO`.
pub data MemType : Type 0 where
  mem_device : MemType
  mem_rw : MemType
  mem_ro : MemType

pub record PrEnt : Type 0 where
  pub addr : ℕ
  pub nbytes : ℕ
  pub mem_type : MemType
  pub dom : ℕ

abbrev pub one_mb : ℕ
one_mb = 1048576

-- The page table and the list of taken physical pages.
pub record Tables : Type 0 where
  pub pt : ℕ → Fld
  pub taken_list : ℕ → ℕ

abbrev pub perm_rw_priv : ℕ
perm_rw_priv = 1

unfoldable pub mem_perm_islegal : ℕ → Option ℕ
mem_perm_islegal p = if p == 3 || (p == 2 || (p == 5 || (p == 1 || p == 0))) then some 1 else none

unfoldable pub pin_mk : ℕ → ℕ → ℕ → ℕ → ℕ → Option PinT
pin_mk g dom asid perm mem_attr = do
  legal ← mem_perm_islegal perm
  assert (truthy legal)
  assert (leb dom 16)
  assert (if truthy g then asid == 0 else ltb 0 asid && ltb asid 64)
  some (record { G = g; asid = asid; dom = dom; pagesize = 3; ap_perm = perm; mem_attr = mem_attr })

unfoldable pub pin_mk_device : ℕ → Option PinT
pin_mk_device dom = pin_mk 1 dom 0 perm_rw_priv 0

unfoldable pub pin_mk_global : ℕ → ℕ → ℕ → Option PinT
pin_mk_global dom perm attr = pin_mk 1 dom 0 perm attr

-- The loop over the pages from `i` on; running out of pages is a panic.
unfoldable pub free_page_from : ℕ → ℕ → (ℕ → ℕ) → Option ℕ
free_page_from zero i taken_list = none
free_page_from (suc k) i taken_list =
    let later = free_page_from k (i + 1) taken_list in if taken_list i == 0 then some i else later

unfoldable pub get_first_free_page : (ℕ → ℕ) → Option ℕ
get_first_free_page taken_list = free_page_from 4096 0 taken_list

abbrev pub section_of : ℕ → ℕ
section_of va = shr va 20

unfoldable pub vm_entry : ℕ → PinT → Fld
vm_entry pa attr = record {
  tag = 2;
  B = attr.mem_attr % 2;
  C = attr.mem_attr / 2 % 2;
  xn = 0;
  domain = attr.dom % 16;
  imp = 0;
  ap = bit_and attr.ap_perm 3 % 4;
  tex = attr.mem_attr / 4 % 8;
  apx = shr attr.ap_perm 2 % 2;
  S = 0;
  ng = (2 ^ 32 - 1 - attr.G) % 2;
  super = 0;
  sbz1 = 0;
  sec_base_addr = shr pa 20 % 4096;
}

unfoldable pub vm_map_sec : ℕ → ℕ → PinT → Tables → Option Tables
vm_map_sec va pa attr t = do
  assert (va % one_mb == 0)
  assert (pa % one_mb == 0)
  assert (attr.pagesize == 3)
  assert (ltb (section_of pa) 4096)
  assert (ltb (section_of va) 4096)
  some (record {
    pt = λ i. if i == section_of va then vm_entry pa attr else t.pt i;
    taken_list = λ i. if i == section_of pa then 1 else t.taken_list i;
  })

unfoldable pub vm_lookup : (ℕ → Fld) → ℕ → Option Fld
vm_lookup pt va = if (pt (section_of va)).tag == 0 then none else some (pt (section_of va))

-- The physical address, if there is an entry.
unfoldable pub vm_xlate : (ℕ → Fld) → ℕ → Option ℕ
vm_xlate pt va =
    let pte = pt (section_of va) in
    if pte.tag == 0 then none else some (bit_or (shl pte.sec_base_addr 20) (bit_and va 0xFFFFF))

-- The attribute of each type; read-only memory panics.
unfoldable pub attr_mk : MemType → ℕ → Option PinT
attr_mk mem_device dom = pin_mk_device dom
attr_mk mem_rw dom = pin_mk_global dom perm_rw_priv 4
attr_mk mem_ro dom = none

unfoldable pub map_entry : PrEnt → Tables → Option Tables
map_entry e t = do
  assert (e.nbytes == one_mb)
  attr ← attr_mk e.mem_type e.dom
  vm_map_sec e.addr e.addr attr t

-- The loop of `vm_map_kernel` on the entries of the map.
unfoldable pub map_entries : List PrEnt → Tables → Option Tables
map_entries [] t = some t
map_entries (e ∷ es) t = do t' ← map_entry e t; map_entries es t'

-- `dom_perm`: the access bits of the domains in use.
unfoldable pub dom_perm : ℕ → ℕ → Option ℕ
dom_perm doms perm = do
  assert (truthy doms)
  assert (shr doms 16 == 0)
  assert (leb perm 3)
  for_loop 16 0
      (λ i mask.
        some (if truthy (bit_and doms (shl 1 i)) then bit_or mask (shl perm (i * 2)) else mask))
      0
