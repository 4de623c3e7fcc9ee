-- ===== src/Runtime/Roster.antt =====
-- equiv-threads.c: how often a thread is in the queue, over the operations on it.
use thread_equivalence_check.Base.{
  ℕ, zero, suc, ◌+◌, ◌≤◌, ◌≡◌, ◌≢◌, refl, ◌∙◌, Option, none, some, List, [], ◌∷◌, ◌++◌, All, Bool,
  true, false, ◌==◌, if◌then◌else◌, OnSome, length, ==_refl, arith,
}
use thread_equivalence_check.Runtime.{EqTh, RunQueue}
use thread_equivalence_check.Runtime.Threads.{retrieve_fuel, retrieve_tid_from_queue}
use thread_equivalence_check.Runtime.Reached.{chain, stop_or}
use thread_equivalence_check.Runtime.Untracked.{choose}

-- How often a thread is in a list.
abbrev pub one : ℕ → ℕ → ℕ
one x y = if x == y then 1 else 0

unfoldable pub occurs : ℕ → List ℕ → ℕ
occurs x [] = 0
occurs x (y ∷ ys) = one x y + occurs x ys

pub one_self : (x : ℕ) → one x x ≡ 1
one_self x = rw (==_refl x) refl

pub occurs-append : (x : ℕ) (ys zs : List ℕ) → occurs x (ys ++ zs) ≡ occurs x ys + occurs x zs
unfolding occurs
occurs-append x [] zs = omega arith
occurs-append x (y ∷ ys) zs = omega (arith, occurs-append x ys zs)

pub absent : (p : ℕ) (xs : List ℕ) → occurs p xs ≡ 0 → All (λ x. p ≢ x) xs
unfolding occurs
absent p [] h = tt
absent p (y ∷ ys) h = (ground arith, absent p ys (omega arith))

pub weaken :
    {A : Type 0} (P R : A → Type 0) (o : Option A)
    → OnSome P o
    → ((a : A) → P a → OnSome R (some a))
    → OnSome R o
weaken P R none h g = tt
weaken P R (some a) h g = g a h

pub pick :
    {A : Type 0} (R : A → Type 0) (b : Bool) (x y : Option A)
    → (b ≡ true → OnSome R x)
    → (b ≡ false → OnSome R y)
    → OnSome R (if b then x else y)
pick R true x y f g = f refl
pick R false x y f g = g refl

module _ {Q : Type 0} (rq : RunQueue Q) where
  -- A thread and the queue have the same threads as the list, each as often.
  abbrev pub Same : (ℕ → ℕ) → ℕ × Q → Type 0
  Same f out = (x : ℕ) → occurs x (out.0 ∷ rq.items out.1) ≡ f x

  pub pop-Same : (q : Q) → OnSome (Same (λ x. occurs x (rq.items q))) (rq.eq_pop q)
  pop-Same q = by_items (rq.items q) refl
    where
      by_items :
          (xs : List ℕ) → rq.items q ≡ xs → OnSome (Same (λ x. occurs x (rq.items q))) (rq.eq_pop q)
      by_items [] e = rw (rq.pop_nil q e) tt
      by_items (p ∷ ps) e =
          let (q', popped, rest) = rq.pop_cons q p ps e in rw (popped, e) (λ x. rw rest refl)

  pub append-occurs :
      (q : Q) (th : ℕ)
      → occurs th (rq.items q) ≡ 0
      → (x : ℕ) → occurs x (rq.items (rq.eq_append q th)) ≡ occurs x (th ∷ rq.items q)
  unfolding occurs
  append-occurs q th h x =
      rw (rq.append_items q th (absent th (rq.items q) h))
        (omega (arith, occurs-append x (rq.items q) (th ∷ [])))

  -- The thread `th` goes to the end of the queue from which `a` was popped.
  module _ (q : Q) (th : ℕ) (once : (x : ℕ) → occurs x (th ∷ rq.items q) ≤ 1) (a : ℕ × Q)
      (k : Same (λ x. occurs x (rq.items q)) a) where
    pub gone : occurs th (rq.items a.1) ≡ 0
    unfolding occurs
    gone = omega (arith, once th, one_self th, k th)

    pub turned :
        (x : ℕ) → occurs x (a.0 ∷ rq.items (rq.eq_append a.1 th)) ≡ occurs x (th ∷ rq.items q)
    unfolding occurs
    turned x = omega (arith, append-occurs a.1 th gone x, k x)

  retrieve-Same :
      (fuel : ℕ) (heap : ℕ → EqTh) (tid first th : ℕ) (q : Q)
      → ((x : ℕ) → occurs x (th ∷ rq.items q) ≤ 1)
      → OnSome (Same (λ x. occurs x (th ∷ rq.items q))) (retrieve_fuel rq fuel heap tid first th q)
  unfolding retrieve_fuel
  retrieve-Same zero heap tid first th q once = tt
  retrieve-Same (suc fuel) heap tid first th q once =
      let S : ℕ × Q → Type 0 = Same (λ x. occurs x (th ∷ rq.items q)) in
      stop_or S ((heap th).tid == tid) (th, q) _ (λ x. refl)
        (chain (Same (λ x. occurs x (rq.items q))) S (rq.eq_pop q) _ (pop-Same q) (λ a k.
          let same = turned q th once a k in
          choose S ((heap a.0).tid == first) none _ tt (
            weaken (Same (λ x. occurs x (a.0 ∷ rq.items (rq.eq_append a.1 th)))) S _
              (retrieve-Same fuel heap tid first a.0 (rq.eq_append a.1 th)
                (λ x. rw (same x) (once x)))
              (λ b j x. j x ∙ same x))))

  pub found-Same :
      (heap : ℕ → EqTh) (tid : ℕ) (q : Q)
      → ((x : ℕ) → occurs x (rq.items q) ≤ 1)
      → OnSome (Same (λ x. occurs x (rq.items q))) (retrieve_tid_from_queue rq heap tid q)
  unfolding retrieve_tid_from_queue
  found-Same heap tid q once =
      let S : ℕ × Q → Type 0 = Same (λ x. occurs x (rq.items q)) in
      chain S S (rq.eq_pop q) _ (pop-Same q) (λ a k.
        weaken (Same (λ x. occurs x (a.0 ∷ rq.items a.1))) S _
          (retrieve-Same (length (rq.items q)) heap tid (heap a.0).tid a.0 a.1
            (λ x. rw (k x) (once x)))
          (λ b j x. j x ∙ k x))
