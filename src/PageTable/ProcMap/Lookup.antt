-- ===== src/PageTable/ProcMap/Lookup.antt =====
-- equiv-mmu.h, `procmap_lookup`, against the sections that the entries cover.
use thread_equivalence_check.Base.{
  ℕ, ◌<◌, ◌≡◌, refl, none, some, List, [], ◌∷◌, All, Bool, true, false, ◌==◌, ltb, leb, ◌&&◌, add32,
  inl, inr, Bool-cases, arith,
}
use thread_equivalence_check.PageTable.{PrEnt, section_of}
use thread_equivalence_check.PageTable.Kernel.{OneSection, covered}
use thread_equivalence_check.PageTable.ProcMap.{lookup_from}

abbrev hit : PrEnt → ℕ → Bool
hit e a = leb e.addr a && ltb a (add32 e.addr e.nbytes)

hit-section :
    (e : PrEnt) (a : ℕ) → OneSection e → hit e a ≡ true → (section_of a == section_of e.addr) ≡ true
hit-section e a h found = let (size, small, aligned, legal, kind) = h in ground arith

section-hit :
    (e : PrEnt) (a : ℕ)
    → OneSection e
    → a < 0xFFF00000
    → (section_of a == section_of e.addr) ≡ true
    → hit e a ≡ true
section-hit e a h low same = let (size, small, aligned, legal, kind) = h in ground arith

-- An address that is found lies in a section that an entry covers.
pub lookup-covered :
    (es : List PrEnt) (a : ℕ) (e : PrEnt)
    → All OneSection es
    → lookup_from es a ≡ some e
    → covered es a ≡ true
unfolding lookup_from covered
lookup-covered [] a e h found = absurd cc
lookup-covered (x ∷ es) a e (h, hs) found = elim (Bool-cases (hit x a)) [
  | inl y ↦ let same = hit-section x a h y in ground arith
  | inr n ↦ let later = lookup-covered es a e hs (rw n at found) in rw later refl
]

-- Below the last section of all, an address that is not found lies in no entry's section.
pub lookup-uncovered :
    (es : List PrEnt) (a : ℕ)
    → All OneSection es
    → a < 0xFFF00000
    → lookup_from es a ≡ none
    → covered es a ≡ false
unfolding lookup_from covered
lookup-uncovered [] a h low found = refl
lookup-uncovered (x ∷ es) a (h, hs) low found = elim (Bool-cases (hit x a)) [
  | inl y ↦ let bad : some x ≡ none = rw y at found in absurd cc
  | inr n ↦
      let later = lookup-uncovered es a hs low (rw n at found) in
      elim (Bool-cases (section_of a == section_of x.addr)) [
        | inl same ↦ let y = section-hit x a h low same in absurd cc
        | inr other ↦ rw (later, other) refl
      ]
]
