-- ===== src/PageTable/Translate.antt =====
-- equiv-pt.c: what `vm_map_sec` does to the translation of addresses, and to the list of free pages.
use thread_equivalence_check.Base.{
  ℕ, zero, suc, ◌+◌, ◌*◌, ◌/◌, ◌%◌, ◌^◌, ◌≤◌, ◌<◌, ◌≡◌, ◌≢◌, refl, ap, ◌∙◌, some, true, false, ◌==◌,
  ltb, if◌then◌else◌, bit_and, bit_or, inl, inr, Bool-cases, arith,
}
use thread_equivalence_check.Base.Bits.{shl, shr, bit_or-fields}
use thread_equivalence_check.Base.Masks.{offset_mask}
use thread_equivalence_check.PageTable.{
  PinT, Tables, section_of, vm_entry, vm_map_sec, vm_xlate, free_page_from, get_first_free_page,
}

-- The entry of a section translates to the physical section with the same offset.
joined :
    (pa a : ℕ)
    → pa < 2 ^ 32
    → pa % 1048576 ≡ 0
    → bit_or (shl (shr pa 20 % 4096) 20) (bit_and a 0xFFFFF) ≡ pa + a % 1048576
joined pa a h aligned =
    let base : shl (shr pa 20 % 4096) 20 ≡ pa / 1048576 * 2 ^ 20 = omega arith in
    rw (base, offset_mask a)
      (bit_or-fields 20 (pa / 1048576) (a % 1048576) (omega arith) ∙ omega (arith, aligned))

-- For aligned addresses and 1 MB pages the call succeeds; then the addresses of the virtual section
-- translate to the same offsets in the physical section, every other address translates as before,
-- and the physical section is taken.
pub map_sec-translates :
    (va pa : ℕ) (attr : PinT) (t : Tables)
    → va < 2 ^ 32
    → pa < 2 ^ 32
    → va % 1048576 ≡ 0
    → pa % 1048576 ≡ 0
    → attr.pagesize ≡ 3
    → (t' : Tables) × (vm_map_sec va pa attr t ≡ some t')
      × ((a : ℕ)
          → vm_xlate t'.pt a
            ≡ (if section_of a == section_of va then some (pa + a % 1048576) else vm_xlate t.pt a))
      × ((i : ℕ) → t'.taken_list i ≡ (if i == section_of pa then 1 else t.taken_list i))
unfolding vm_map_sec vm_xlate vm_entry
map_sec-translates va pa attr t hv hp av ap' size =
    let zv : (va % 1048576 == 0) ≡ true = ground arith in
    let zp : (pa % 1048576 == 0) ≡ true = ground arith in
    let three : (attr.pagesize == 3) ≡ true = ground arith in
    let lp : ltb (section_of pa) 4096 ≡ true = ground arith in
    let lv : ltb (section_of va) 4096 ≡ true = ground arith in
    (
      record {
        pt = λ i. if i == section_of va then vm_entry pa attr else t.pt i;
        taken_list = λ i. if i == section_of pa then 1 else t.taken_list i;
      },
      rw (zv, zp, three, lp, lv) refl,
      (λ a. elim (Bool-cases (section_of a == section_of va)) [
        | inl e ↦ rw e (ap some (joined pa a hp ap'))
        | inr e ↦ rw e refl
      ]),
      λ i. refl,
    )

-- The free page that is found is the first one, and with a free page one is found.
free_page_from-first :
    (k i : ℕ) (taken_list : ℕ → ℕ) (n : ℕ)
    → i ≤ n
    → n < i + k
    → taken_list n ≡ 0
    → ((m : ℕ) → i ≤ m → m < n → taken_list m ≢ 0)
    → free_page_from k i taken_list ≡ some n
unfolding free_page_from
free_page_from-first zero i taken_list n low high free first = absurd (omega arith)
free_page_from-first (suc k) i taken_list n low high free first = elim (Bool-cases (i == n)) [
  | inl e ↦ let e' : i ≡ n = ground arith in rw (e', free) refl
  | inr ne ↦
      let lt : i < n = ground arith in
      let used : (taken_list i == 0) ≡ false = let ne' = first i (omega arith) lt in ground arith in
      rw used (
        free_page_from-first k (i + 1) taken_list n (omega arith) (omega arith) free
          (λ m a b. first m (omega arith) b))
]

-- `get_first_free_page` returns the first physical page that is not taken.
first_free_page-first :
    (taken_list : ℕ → ℕ) (n : ℕ)
    → n < 4096
    → taken_list n ≡ 0
    → ((m : ℕ) → m < n → taken_list m ≢ 0)
    → get_first_free_page taken_list ≡ some n
unfolding get_first_free_page
first_free_page-first taken_list n h free first =
    free_page_from-first 4096 0 taken_list n (omega arith) (omega arith) free (λ m a b. first m b)
