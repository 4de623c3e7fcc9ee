-- ===== src/PageTable/ProcMap/Ready.antt =====
-- equiv-pt.c, `vm_map_kernel`, and equiv-mmu.h, `procmap_default_mk`: the kernel's map is set up.
use thread_equivalence_check.Base.{
  ℕ, ◌*◌, ◌%◌, ◌^◌, ◌≤◌, ◌<◌, ◌≡◌, ◌≢◌, refl, ◌∙◌, sub32, Bool, false, Option, ◌++◌, ◌&&◌, assert,
  ◌>>=◌, ◌>>◌, none, some, List, [], ◌∷◌, length, true, ◌==◌, ltb, leb, if◌then◌else◌, max, arith,
}
use thread_equivalence_check.Base.Bits.{bit, bit-zero}
use thread_equivalence_check.PageTable.{
  MemType, mem_device, mem_rw, PrEnt, Tables, one_mb, vm_xlate,
}
use thread_equivalence_check.PageTable.Kernel.{IsMappable, map_entries-identity}
use thread_equivalence_check.PageTable.Domains.{access, dom_perm-access}
use thread_equivalence_check.PageTable.ProcMap.{
  ProcMap, Layout, empty_map, pr_ent_mk, push_section, procmap_lookup, procmap_default_mk,
  vm_map_kernel,
}
use thread_equivalence_check.PageTable.ProcMap.Lookup.{lookup-covered, lookup-uncovered}
use thread_equivalence_check.PageTable.ProcMap.Tracked.{
  in_domain, IsProcMap, empty-IsProcMap, procmap_push-IsProcMap,
}

used_domain : (es : List PrEnt) → es ≢ [] → (i : ℕ) × (1 ≤ in_domain es i)
unfolding in_domain
used_domain [] filled = absurd (filled refl)
used_domain (e ∷ es) filled =
    (e.dom, let own : (e.dom == e.dom) ≡ true = ground arith in rw own (omega arith))

-- A map with an entry has a domain in use.
some_domain : (p : ProcMap) → IsProcMap p → p.map ≢ [] → p.dom_ids ≢ 0
some_domain p h filled empty =
    let (i, used) = used_domain p.map filled in
    let none : bit i p.dom_ids ≡ 0 = rw empty (bit-zero i) in omega (arith, h.3 i)

-- The kernel's map with an entry at least is set up without a fault. Then an address that
-- `procmap_lookup` finds translates to itself, one below the last section that it does not find
-- translates as before, and the domains of the entries get the access of a manager and the others none.
pub vm_map_kernel-identity :
    (p : ProcMap) (t : Tables)
    → IsProcMap p
    → p.map ≢ []
    → (t' : Tables) × (d : ℕ) × (vm_map_kernel p t ≡ some (t', d))
      × ((a : ℕ) (e : PrEnt) → procmap_lookup p a ≡ some e → vm_xlate t'.pt a ≡ some a)
      × ((a : ℕ) → a < 0xFFF00000 → procmap_lookup p a ≡ none → vm_xlate t'.pt a ≡ vm_xlate t.pt a)
      × ((i : ℕ) → i < 16 → access i d ≡ in_domain p.map i * 3)
unfolding vm_map_kernel procmap_lookup
vm_map_kernel-identity p t h filled =
    let (sections, few, low, bits) = h in
    let (t', ran, moved) = map_entries-identity p.map t sections in
    let (d, granted, fields) =
      dom_perm-access p.dom_ids 3 (some_domain p h filled) low (omega arith) in
    (
      t',
      d,
      rw (ran, granted) refl,
      (λ a e found. let c = lookup-covered p.map a e sections found in moved a ∙ rw c refl),
      (λ a below found.
          let c = lookup-uncovered p.map a sections below found in moved a ∙ rw c refl),
      λ i b. rw (← bits i) (fields i b),
    )

-- A section of 1 MB.
abbrev pub section_at : ℕ → MemType → ℕ → PrEnt
section_at addr mem_type dom = record {
  addr = addr;
  nbytes = 1048576;
  mem_type = mem_type;
  dom = dom;
}

-- A section is pushed on a map with the entries `xs`.
push_section-IsProcMap :
    (addr : ℕ) (mem_type : MemType) (dom : ℕ) (xs : List PrEnt) (p : ProcMap)
    → ltb addr (2 ^ 32) ≡ true
    → addr % 1048576 ≡ 0
    → IsMappable mem_type
    → dom < 16
    → ltb (length xs) 8 ≡ true
    → IsProcMap p
    → p.map ≡ xs
    → (p' : ProcMap) × (push_section addr mem_type dom p ≡ some p')
      × IsProcMap p'
      × (p'.map ≡ xs ++ (section_at addr mem_type dom ∷ []))
unfolding push_section pr_ent_mk
push_section-IsProcMap addr mem_type dom xs p small aligned kind low room h entries =
    let legal : ltb dom 16 ≡ true = ground arith in
    let word : addr < 2 ^ 32 = ground arith in
    let few : length xs < 8 = ground arith in
    let free : length p.map < 8 = rw entries few in
    let (p', ran, last, held) =
      procmap_push-IsProcMap (section_at addr mem_type dom) p
        (refl, word, aligned, omega arith, kind) low free h in
    (p', rw legal ran, held, rw (last, entries) refl)

-- Addresses that the default map can be made of.
abbrev pub IsLayout : Layout → Type 0
IsLayout at =
    (at.prog_end ≤ 1048576)
    × (at.heap_start ≡ 1048576)
    × (at.heap_end ≡ 2097152)
    × (at.int_stack_addr < 2 ^ 32)
    × (at.int_stack_addr % 1048576 ≡ 0)
    × (at.stack_addr < 2 ^ 32)
    × (at.stack_addr % 1048576 ≡ 0)

-- Both stacks end at a megabyte.
abbrev pub HasStacks : Layout → Type 0
HasStacks at =
    (at.int_stack_addr < 2 ^ 32)
    × (at.int_stack_addr % 1048576 ≡ 0)
    × (at.stack_addr < 2 ^ 32)
    × (at.stack_addr % 1048576 ≡ 0)

-- The program has 1 MB at most, and the heap is the second megabyte.
abbrev pub fits : Layout → Bool
fits at =
    leb at.prog_end 1048576
    && (at.heap_start == 1048576 && sub32 at.heap_end at.heap_start == 1048576)

-- The memory of the kernel and of the user.
abbrev pub default_sections : Layout → ℕ → ℕ → List PrEnt
default_sections at dom dom2 =
    section_at 0x20000000 mem_device dom
    ∷ section_at 0x20100000 mem_device dom
    ∷ section_at 0x20200000 mem_device dom
    ∷ section_at 0x300000 mem_rw dom2
    ∷ section_at 0 mem_rw dom
    ∷ section_at 0x100000 mem_rw dom
    ∷ section_at (sub32 at.int_stack_addr 1048576) mem_rw dom
    ∷ section_at (sub32 at.stack_addr 1048576) mem_rw dom
    ∷ []

bind_to :
    {A B : Type 0} (m : Option A) (f : A → Option B) (a : A) (r : Option B)
    → m ≡ some a
    → f a ≡ r
    → (m >>= f) ≡ r
bind_to m f a r h g = rw h g

assert_if :
    {B : Type 0} (b c : Bool) (rest : Option B) (x : B)
    → rest ≡ (if c then some x else none)
    → (assert b >> rest) ≡ (if b && c then some x else none)
assert_if true c rest x h = h
assert_if false c rest x h = refl

assert_last :
    {B : Type 0} (b : Bool) (rest : Option B) (x : B)
    → rest ≡ some x
    → (assert b >> rest) ≡ (if b then some x else none)
assert_last true rest x h = h
assert_last false rest x h = refl

-- For domains below 16 and stacks that end at a megabyte, the default map is made if the program has
-- 1 MB at most and the heap is the second megabyte, and otherwise the call fails. The map has the
-- sections of the three devices, of the user's data in the second domain, of the code, the heap and
-- the two stacks, in this order, the others in the first domain. It is well-formed, so that its bits
-- are those of the two domains.
pub default_mk-IsProcMap :
    (at : Layout) (dom dom2 : ℕ)
    → HasStacks at
    → dom < 16
    → dom2 < 16
    → (p : ProcMap) × (procmap_default_mk at dom dom2 ≡ (if fits at then some p else none))
      × (p.map ≡ default_sections at dom dom2)
      × IsProcMap p
unfolding procmap_default_mk
default_mk-IsProcMap at dom dom2 (si, ai, ss, sa) low low2 =
    let aligned : (a : ℕ) → a % 1048576 ≡ 0 → sub32 a one_mb % 1048576 ≡ 0 = λ a h. omega arith in
    let word : (a : ℕ) → ltb (sub32 a one_mb) (2 ^ 32) ≡ true = λ a. ground arith in
    let (p1, r1, h1, m1) =
      push_section-IsProcMap 0x20000000 mem_device dom [] empty_map refl refl tt low refl
        empty-IsProcMap refl in
    let (p2, r2, h2, m2) =
      push_section-IsProcMap 0x20100000 mem_device dom _ p1 refl refl tt low refl h1 m1 in
    let (p3, r3, h3, m3) =
      push_section-IsProcMap 0x20200000 mem_device dom _ p2 refl refl tt low refl h2 m2 in
    let (p4, r4, h4, m4) =
      push_section-IsProcMap 0x300000 mem_rw dom2 _ p3 refl refl tt low2 refl h3 m3 in
    let (p5, r5, h5, m5) = push_section-IsProcMap 0 mem_rw dom _ p4 refl refl tt low refl h4 m4 in
    let (p6, r6, h6, m6) =
      push_section-IsProcMap 0x100000 mem_rw dom _ p5 refl refl tt low refl h5 m5 in
    let (p7, r7, h7, m7) =
      push_section-IsProcMap (sub32 at.int_stack_addr one_mb) mem_rw dom _ p6
        (word at.int_stack_addr) (aligned at.int_stack_addr ai) tt low refl h6 m6 in
    let (p8, r8, h8, m8) =
      push_section-IsProcMap (sub32 at.stack_addr one_mb) mem_rw dom _ p7 (word at.stack_addr)
        (aligned at.stack_addr sa) tt low refl h7 m7 in
    (
      p8,
      bind_to _ _ p1 _ r1 (
          bind_to _ _ p2 _ r2 (
            bind_to _ _ p3 _ r3 (
              bind_to _ _ p4 _ r4 (
                assert_if _ _ _ p8 (
                  bind_to _ _ p5 _ r5 (
                    assert_if _ _ _ p8
                      (assert_last _ _ p8 (bind_to _ _ p6 _ r6 (bind_to _ _ p7 _ r7 r8))))))))),
      m8,
      h8,
    )

-- On a layout that fits, the map is made, and exactly the two domains are in use.
pub default_mk-made :
    (at : Layout) (dom dom2 : ℕ)
    → IsLayout at
    → dom < 16
    → dom2 < 16
    → (p : ProcMap) × (procmap_default_mk at dom dom2 ≡ some p)
      × IsProcMap p
      × (length p.map ≡ 8)
      × ((i : ℕ) → in_domain p.map i ≡ max (if i == dom then 1 else 0) (if i == dom2 then 1 else 0))
unfolding in_domain
default_mk-made at dom dom2 (small, first, last, si, ai, ss, sa) low low2 =
    let (p, ran, entries, held) = default_mk-IsProcMap at dom dom2 (si, ai, ss, sa) low low2 in
    let code : leb at.prog_end 1048576 ≡ true = ground arith in
    let fitting : fits at ≡ true = rw (code, first, last) refl in
    (p, ran ∙ rw fitting refl, held, rw entries refl, λ i. rw entries (omega arith))
