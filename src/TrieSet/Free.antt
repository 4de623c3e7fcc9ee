-- ===== src/TrieSet/Free.antt =====
-- set.c: `set_free` walks every node of a set once and meets no NULL.
use thread_equivalence_check.Base.{
  ◌≡◌, refl, inl, inr, false, Option, some, ◌∙◌, ap, if◌then◌else◌, Bool-cases,
}
use thread_equivalence_check.Base.Loops.{for_loop_inv}
use thread_equivalence_check.TrieSet.{SetT, null, node, is_null, set_free}

pub free_total : (s : SetT) → is_null s ≡ false → set_free s ≡ some tt
unfolding set_free
free_total null h = cc
free_total (node m o c) h =
    let (t, ran, done) =
      for_loop_inv (λ n (t : Unit {0}). t ≡ tt)
        (λ i s. let below = set_free (c i) in if is_null (c i) then some s else below) 32 0 32 tt
        refl
        (λ n t low high e. elim (Bool-cases (is_null (c n))) [
          | inl gone ↦ (t, rw gone refl, e)
          | inr there ↦ (tt, rw (there, free_total (c n) there) refl, refl)
        ])
        refl in
    ran ∙ ap {B = Option (Unit {0})} some done
