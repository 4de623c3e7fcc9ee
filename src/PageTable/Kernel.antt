-- ===== src/PageTable/Kernel.antt =====
-- equiv-pt.c, `vm_map_kernel`: the kernel's map is the identity.
use mathlib.Core.Bool.{◌||◌}
use thread_equivalence_check.Base.{
  ℕ, ◌+◌, ◌%◌, ◌^◌, ◌≤◌, ◌<◌, ◌≡◌, refl, ap, ◌∙◌, some, List, [], ◌∷◌, All, Bool, true, false, ◌==◌,
  leb, if◌then◌else◌, inl, inr, Bool-cases, arith,
}
use thread_equivalence_check.PageTable.{
  PinT, PrEnt, MemType, mem_device, mem_rw, mem_ro, one_mb, Tables, section_of, mem_perm_islegal,
  pin_mk, pin_mk_device, pin_mk_global, attr_mk, map_entry, map_entries, vm_xlate,
}
use thread_equivalence_check.PageTable.Translate.{map_sec-translates}

-- Memory that `vm_map_kernel` maps: read-only memory panics.
abbrev pub IsMappable : MemType → Type 0
IsMappable mem_device = Unit
IsMappable mem_rw = Unit
IsMappable mem_ro = ⊥

-- An entry of one section in a legal domain.
abbrev pub OneSection : PrEnt → Type 0
OneSection e =
    (e.nbytes ≡ one_mb)
    × (e.addr < 2 ^ 32)
    × (e.addr % 1048576 ≡ 0)
    × (e.dom ≤ 16)
    × IsMappable e.mem_type

-- An entry of the list covers the address.
unfoldable pub covered : List PrEnt → ℕ → Bool
covered [] a = false
covered (e ∷ es) a = covered es a || (section_of a == section_of e.addr)

attr_mk-pagesize :
    (k : MemType) (dom : ℕ)
    → IsMappable k
    → dom ≤ 16
    → (attr : PinT) × (attr_mk k dom ≡ some attr) × (attr.pagesize ≡ 3)
unfolding attr_mk pin_mk_device pin_mk_global pin_mk mem_perm_islegal
attr_mk-pagesize mem_device dom kind legal =
    let domain : leb dom 16 ≡ true = ground arith in
    let made : PinT = record {
      G = 1;
      asid = 0;
      dom = dom;
      pagesize = 3;
      ap_perm = 1;
      mem_attr = 0;
    } in
    (made, rw domain refl, refl)
attr_mk-pagesize mem_rw dom kind legal =
    let domain : leb dom 16 ≡ true = ground arith in
    let made : PinT = record {
      G = 1;
      asid = 0;
      dom = dom;
      pagesize = 3;
      ap_perm = 1;
      mem_attr = 4;
    } in
    (made, rw domain refl, refl)
attr_mk-pagesize mem_ro dom kind legal = absurd kind

map_entry-translates :
    (e : PrEnt) (t : Tables)
    → OneSection e
    → (t' : Tables) × (map_entry e t ≡ some t')
      × ((a : ℕ)
          → vm_xlate t'.pt a
            ≡ (if section_of a == section_of e.addr then some a else vm_xlate t.pt a))
unfolding map_entry
map_entry-translates e t h =
    let (attr, got, three) = attr_mk-pagesize e.mem_type e.dom h.4 h.3 in
    let (size, small, aligned, legal, kind) = h in
    let (t', ran, moved, taken) =
      map_sec-translates e.addr e.addr attr t small small aligned aligned three in
    let whole : (e.nbytes == one_mb) ≡ true = ground arith in
    (
      t',
      rw (whole, got) ran,
      λ a. moved a ∙ elim (Bool-cases (section_of a == section_of e.addr)) [
        | inl same ↦ rw same (let back : e.addr + a % 1048576 ≡ a = ground arith in ap some back)
        | inr other ↦ rw other refl
      ],
    )

-- After the loop on a list of entries of one section each, every address that an entry covers
-- translates to itself, and every other address as before.
pub map_entries-identity :
    (es : List PrEnt) (t : Tables)
    → All OneSection es
    → (t' : Tables) × (map_entries es t ≡ some t')
      × ((a : ℕ) → vm_xlate t'.pt a ≡ (if covered es a then some a else vm_xlate t.pt a))
unfolding map_entries covered
map_entries-identity [] t h = (t, refl, λ a. refl)
map_entries-identity (e ∷ es) t (h, hs) =
    let (t1, ran, one) = map_entry-translates e t h in
    let (t2, ran', rest) = map_entries-identity es t1 hs in
    (
      t2,
      rw ran ran',
      λ a. rest a ∙ elim (Bool-cases (covered es a)) [ inl c ↦ rw c refl | inr c ↦ rw c (one a) ],
    )
