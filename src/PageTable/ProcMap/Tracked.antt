-- ===== src/PageTable/ProcMap/Tracked.antt =====
-- equiv-mmu.h, `procmap_push`: the map keeps track of the domains in use.
use native.Mathlib.Nat.{pow-le-pow_right}
use thread_equivalence_check.Base.{
  ℕ, ◌^◌, ◌≤◌, ◌<◌, ◌≡◌, refl, some, List, [], ◌∷◌, ◌++◌, length, All, All-append, length-append,
  true, ◌==◌, ltb, if◌then◌else◌, max, bit_or, arith,
}
use thread_equivalence_check.Base.Bits.{bit, bit-or, bit-pow, bit-zero, shl, shl-one, bit_or_bound}
use thread_equivalence_check.PageTable.{PrEnt}
use thread_equivalence_check.PageTable.Kernel.{OneSection}
use thread_equivalence_check.PageTable.ProcMap.{ProcMap, max_ent, procmap_push, empty_map}

-- 1 if an entry of the list is in domain `i`, and 0 if none is.
unfoldable pub in_domain : List PrEnt → ℕ → ℕ
in_domain [] i = 0
in_domain (e ∷ es) i = max (if i == e.dom then 1 else 0) (in_domain es i)

pub in_domain-append :
    (es fs : List PrEnt) (i : ℕ) → in_domain (es ++ fs) i ≡ max (in_domain es i) (in_domain fs i)
unfolding in_domain
in_domain-append [] fs i = omega arith
in_domain-append (e ∷ es) fs i = omega (arith, in_domain-append es fs i)

-- Entries of one section each in domains below 16, at most 8, and the bits of their domains.
abbrev pub IsProcMap : ProcMap → Type 0
IsProcMap p =
    All OneSection p.map
    × (length p.map ≤ max_ent)
    × (p.dom_ids < 2 ^ 16)
    × ((i : ℕ) → bit i p.dom_ids ≡ in_domain p.map i)

pub empty-IsProcMap : IsProcMap empty_map
unfolding in_domain
empty-IsProcMap = (tt, omega arith, omega arith, λ i. bit-zero i)

-- With room in the map, an entry of one section in a domain below 16 is pushed: it comes last, and
-- the map is well-formed again, so that the bits are those of the domains of its entries.
pub procmap_push-IsProcMap :
    (e : PrEnt) (p : ProcMap)
    → OneSection e
    → e.dom < 16
    → length p.map < 8
    → IsProcMap p
    → (p' : ProcMap) × (procmap_push e p ≡ some p') × (p'.map ≡ p.map ++ (e ∷ [])) × IsProcMap p'
unfolding procmap_push in_domain
procmap_push-IsProcMap e p h small room (sections, few, low, bits) =
    let legal : ltb e.dom 16 ≡ true = ground arith in
    let free : ltb (length p.map) 8 ≡ true = ground arith in
    let one : shl 1 e.dom ≡ 2 ^ e.dom = shl-one e.dom (omega arith) in
    let top : 2 ^ e.dom ≤ 2 ^ 15 = pow-le-pow_right {n = 2} (omega arith) {j = 15} (omega arith) in
    (
      record { dom_ids = bit_or p.dom_ids (shl 1 e.dom); map = p.map ++ (e ∷ []) },
      rw (legal, free) refl,
      refl,
      (
        All-append OneSection p.map (e ∷ []) sections (h, tt),
        omega (arith, length-append p.map (e ∷ [])),
        rw one (bit_or_bound 16 p.dom_ids (2 ^ e.dom) low (omega arith)),
        λ i.
            rw
              (
                one,
                bit-or i p.dom_ids (2 ^ e.dom),
                bit-pow i e.dom,
                bits i,
                in_domain-append p.map (e ∷ []) i,
              )
              (omega arith),
      ),
    )
