-- ===== src/Base/Loops.antt =====
-- Counted loops whose body may fault.
use Prim.Native.Nat.{ℕ, zero, suc, ◌+◌, ◌≤◌, ◌<◌}
use mathlib.Core.Path.{◌≡◌, refl, subst}
use mathlib.Core.Option.{Option, some}
use native.Mathlib.Omega.{arith}
use thread_equivalence_check.Base.Tests.{◌>>=◌, >>=-eq-some}

-- `for (j = i; j < i + k; j++) body`, on the state that the body changes.
unfoldable pub for_loop {ℓ} : {S : Type ℓ} → ℕ → ℕ → (ℕ → S → Option S) → S → Option S
for_loop zero i body s = some s
for_loop (suc k) i body s = body i s >>= for_loop k (i + 1) body

-- The invariant rule: each round succeeds and keeps `P`.
pub for_loop_inv {ℓ κ} :
    {S : Type ℓ} (P : ℕ → S → Type κ) (body : ℕ → S → Option S) (k i j : ℕ) (s : S)
    → i + k ≡ j
    → ((n : ℕ) (t : S) → i ≤ n → n < j → P n t → (u : S) × (body n t ≡ some u) × P (n + 1) u)
    → P i s
    → (t : S) × (for_loop k i body s ≡ some t) × P j t
unfolding for_loop
for_loop_inv P body zero i j s e keep h = (s, refl, let e' : i ≡ j = omega arith in rw (← e') h)
for_loop_inv P body (suc k) i j s e keep h =
    let (u, ran, held) = keep i s (omega arith) (omega arith) h in
    rw ran (
      for_loop_inv P body k (i + 1) j u (omega arith) (λ n t a b p. keep n t (omega arith) b p)
        held)

-- A loop that succeeds keeps what each round that succeeds keeps.
pub for_loop_keeps {ℓ κ} :
    {S : Type ℓ} (P : S → Type κ) (body : ℕ → S → Option S) (k i : ℕ) (s t : S)
    → ((n : ℕ) (u v : S) → P u → body n u ≡ some v → P v)
    → P s
    → for_loop k i body s ≡ some t
    → P t
unfolding for_loop
for_loop_keeps P body zero i s t keep h ran = let e : s ≡ t = cc in subst P e h
for_loop_keeps P body (suc k) i s t keep h ran =
    let (u, first, rest) = >>=-eq-some (body i s) (for_loop k (i + 1) body) t ran in
    for_loop_keeps P body k (i + 1) u t keep (keep i s u h first) rest
