-- ===== src/Runtime/Faults.antt =====
-- equiv-rw-set.c: which accesses fault when the tracker is armed, and when it is not.
use thread_equivalence_check.Base.{
  ℕ, zero, suc, ◌+◌, ◌-◌, ◌*◌, ◌/◌, ◌%◌, ◌^◌, ◌≤◌, ◌<◌, ◌≡◌, refl, ◌==◌, truthy, false,
  if◌then◌else◌, inl, inr, Bool-cases, arith,
}
use thread_equivalence_check.PageTable.Domains.{access}
use thread_equivalence_check.Runtime.{State, Libpi}
use thread_equivalence_check.Runtime.Tracker.{
  kern_dom, user_dom, dom_client, dom_manager, set_data_faults,
}

-- The documented behaviour of `bits_set`: bits `lb` to `ub` of the word become `v`, which fits.
abbrev pub SetsBits : Libpi → Type 0
SetsBits pi =
    (x lb ub v : ℕ)
    → lb ≤ ub
    → v < 2 ^ (ub + 1 - lb)
    → pi.bits_set x lb ub v ≡ x / 2 ^ (ub + 1) * 2 ^ (ub + 1) + v * 2 ^ lb + x % 2 ^ lb

-- The second field of the word, and the others.
field-set :
    (m v i : ℕ)
    → v < 4
    → access i (m / 16 * 16 + v * 4 + m % 4) ≡ (if i == kern_dom then v else access i m)
unfolding access
field-set m v zero h = omega arith
field-set m v (suc zero) h = omega arith
field-set m v (suc (suc i)) h =
    let rest : (m / 16 * 16 + v * 4 + m % 4) / 4 / 4 ≡ m / 4 / 4 = omega arith in
    let other : (suc (suc i) == kern_dom) ≡ false = ground arith in rw (rest, other) refl

module _ {Q : Type 0} (pi : Libpi) (sets : SetsBits pi) (st : State Q) where
  -- `set_data_faults` makes the accesses to the kernel's domain checked, or unchecked for 0, and
  -- leaves the access to every other domain, the user's among them, as it was.
  pub set_data_faults-access :
      (enable i : ℕ)
      → access i (set_data_faults pi enable st).domain_acl ≡ (
          if i == kern_dom
          then (if truthy enable then dom_client else dom_manager)
          else access i st.domain_acl)
  unfolding set_data_faults
  set_data_faults-access enable i = elim (Bool-cases (truthy enable)) [
    | inl on ↦
        rw (on, sets st.domain_acl user_dom (user_dom + 1) dom_client (omega arith) (omega arith))
          (field-set st.domain_acl dom_client i (omega arith))
    | inr off ↦
        rw (off, sets st.domain_acl user_dom (user_dom + 1) dom_manager (omega arith) (omega arith))
          (field-set st.domain_acl dom_manager i (omega arith))
  ]
