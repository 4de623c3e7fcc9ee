-- ===== src/Runtime/Rotation.antt =====
-- equiv-threads.c, `retrieve_tid_from_queue`: the queue is rotated until the thread is at its head.
use mathlib.Core.List.{append-nil, append_assoc}
use thread_equivalence_check.Base.{
  ℕ, zero, suc, ◌+◌, ◌≤◌, ◌≡◌, ◌≢◌, refl, sym, ap, subst, ◌∙◌, some, List, [], ◌∷◌, ◌++◌, All,
  All-append, false, ◌==◌, length, length-append, ==_refl, arith,
}
use thread_equivalence_check.Runtime.{EqTh, RunQueue}
use thread_equivalence_check.Runtime.Threads.{retrieve_fuel, retrieve_tid_from_queue}

module _ (heap : ℕ → EqTh) where
  abbrev pub tid_of : ℕ → ℕ
  tid_of p = (heap p).tid

  -- The thread's id is none of theirs.
  abbrev pub Apart : ℕ → List ℕ → Type 0
  Apart th = All (λ x. tid_of th ≢ tid_of x)

  -- No two of the threads have the same id.
  abbrev pub Distinct : List ℕ → Type 0
  Distinct [] = Unit
  Distinct (x ∷ xs) = Apart x xs × Distinct xs

  pub Apart-pointers : (th : ℕ) (xs : List ℕ) → Apart th xs → All (λ x. th ≢ x) xs
  Apart-pointers th [] h = tt
  Apart-pointers th (x ∷ xs) (h, hs) = ((λ e. h (ap tid_of e)), Apart-pointers th xs hs)

  pub Distinct-snoc : (xs : List ℕ) (th : ℕ) → Distinct xs → Apart th xs → Distinct (xs ++ th ∷ [])
  Distinct-snoc [] th d a = (tt, tt)
  Distinct-snoc (x ∷ xs) th (ax, d) (h, a) =
      (All-append _ xs (th ∷ []) ax ((λ e. h (sym e)), tt), Distinct-snoc xs th d a)

  Apart-at :
      {x : ℕ} (pre : List ℕ) (p : ℕ) (post : List ℕ)
      → Apart x (pre ++ p ∷ post)
      → tid_of x ≢ tid_of p
  Apart-at [] p post (h, hs) = h
  Apart-at (y ∷ pre) p post (h, hs) = Apart-at pre p post hs

  Apart-front :
      (x : ℕ) (pre : List ℕ) (ys : List ℕ)
      → Apart x (pre ++ ys)
      → All (λ y. tid_of y ≢ tid_of x) pre
  Apart-front x [] ys a = tt
  Apart-front x (y ∷ pre) ys (h, hs) = ((λ e. h (sym e)), Apart-front x pre ys hs)

  module _ {Q : Type 0} (rq : RunQueue Q) where
    other : (a b : ℕ) → a ≢ b → (a == b) ≡ false
    other a b h = ground arith

    -- The loop with the first thread passed: `th` has been popped, `mid` stands before `p`.
    rotate :
        (mid : List ℕ) (fuel first th p : ℕ) (tail : List ℕ) (q : Q)
        → rq.items q ≡ mid ++ p ∷ tail
        → length mid + 2 ≤ fuel
        → Apart th (mid ++ p ∷ tail)
        → Distinct (mid ++ p ∷ tail)
        → tid_of th ≢ tid_of p
        → All (λ x. tid_of x ≢ first) mid
        → tid_of p ≢ first
        → (q' : Q) × (retrieve_fuel rq fuel heap (tid_of p) first th q ≡ some (p, q'))
          × (rq.items q' ≡ tail ++ th ∷ mid)
    unfolding retrieve_fuel
    rotate mid zero first th p tail q e enough a d ne fs fp = absurd (omega (arith, enough))
    rotate [] (suc zero) first th p tail q e enough a d ne fs fp = absurd (omega (arith, enough))
    rotate [] (suc (suc fuel)) first th p tail q e enough (ap', a) d ne fs fp =
        let (q', popped, e') = rq.pop_cons q p tail e in
        (
          rq.eq_append q' th,
          rw
              (
                other (tid_of th) (tid_of p) ne,
                popped,
                other (tid_of p) first fp,
                ==_refl (tid_of p),
              )
              refl,
          rq.append_items q' th (rw e' (Apart-pointers th tail a)) ∙ rw e' refl,
        )
    rotate (m ∷ mid) (suc fuel) first th p tail q e enough (am, a) (dm, d) ne (fm, fs) fp =
        let (q', popped, e') = rq.pop_cons q m (mid ++ p ∷ tail) e in
        let e'' : rq.items (rq.eq_append q' th) ≡ mid ++ p ∷ (tail ++ th ∷ []) =
          rq.append_items q' th (rw e' (Apart-pointers th (mid ++ p ∷ tail) a))
          ∙ rw e' (append_assoc mid (p ∷ tail) (th ∷ [])) in
        let (q'', ran, last) =
          rotate mid fuel first m p (tail ++ th ∷ []) (rq.eq_append q' th) e''
            (omega (arith, enough))
            (subst (Apart m) (append_assoc mid (p ∷ tail) (th ∷ []))
              (All-append _ (mid ++ p ∷ tail) (th ∷ []) dm ((λ z. am (sym z)), tt)))
            (subst Distinct (append_assoc mid (p ∷ tail) (th ∷ []))
              (Distinct-snoc (mid ++ p ∷ tail) th d a))
            (Apart-at mid p tail dm) fs fp in
        (
          q'',
          rw (other (tid_of th) (tid_of p) ne, popped, other (tid_of m) first fm) ran,
          last ∙ append_assoc tail (th ∷ []) (m ∷ mid),
        )

    -- With a thread of the id in a queue of threads with different ids, the call ends and returns the
    -- first such thread, without it in the queue, and the threads that stood before it are moved
    -- behind the others in their order.
    pub retrieve_tid-rotates :
        (pre : List ℕ) (p : ℕ) (post : List ℕ) (q : Q)
        → rq.items q ≡ pre ++ p ∷ post
        → Distinct (pre ++ p ∷ post)
        → (q' : Q) × (retrieve_tid_from_queue rq heap (tid_of p) q ≡ some (p, q'))
          × (rq.items q' ≡ post ++ pre)
    unfolding retrieve_tid_from_queue retrieve_fuel
    retrieve_tid-rotates [] p post q e d =
        let (q', popped, e') = rq.pop_cons q p post e in
        (q', rw (popped, e, ==_refl (tid_of p)) refl, e' ∙ sym (append-nil post))
    retrieve_tid-rotates (f ∷ pre) p post q e (a, d) =
        let (q', popped, e') = rq.pop_cons q f (pre ++ p ∷ post) e in
        let enough : length pre + 2 ≤ length (rq.items q) =
          rw e (omega (arith, length-append pre (p ∷ post))) in
        let (q'', ran, last) =
          rotate pre (length (rq.items q)) (tid_of f) f p post q' e' enough a d
            (Apart-at pre p post a) (Apart-front f pre (p ∷ post) a)
            (λ z. Apart-at pre p post a (sym z)) in
        (q'', rw popped ran, last)
