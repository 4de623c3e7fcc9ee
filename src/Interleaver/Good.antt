-- ===== src/Interleaver/Good.antt =====
-- interleaver.c, `find_good_hashes`: which hashes it finds.
use native.Mathlib.Numerals.{add-one}
use thread_equivalence_check.Base.{
  ℕ, zero, suc, ◌+◌, ◌<◌, ◌^◌, ◌≡◌, refl, sym, ap, ◌∙◌, some, map, Bool, ◌||◌, ◌==◌, arith,
}
use thread_equivalence_check.Base.Loops.{for_loop_inv}
use thread_equivalence_check.TrieSet.{SetT}
use thread_equivalence_check.TrieSet.Spec.{Denotes, Denotes-agree, insert-Denotes}
use thread_equivalence_check.TrieSet.Count.{values}
use thread_equivalence_check.Memory.{Xxh32}
use thread_equivalence_check.Memory.Hash.{Streams, hash_mem-Denotes}
use thread_equivalence_check.Base.Exists.{any_below, collect, nothing}
use thread_equivalence_check.Interleaver.{FunctionExec, run_in_order, good_round, find_good_hashes}

-- The world after the functions have run in the order of a row, up to its entry `n`.
unfoldable pub sequential :
    {W : Type 0} → (FunctionExec → W → W) → (ℕ → FunctionExec) → (ℕ → ℕ) → ℕ → W → W
sequential call executables row zero w = w
sequential call executables row (suc n) w =
    call (executables (row n)) (sequential call executables row n w)

module _ {H W : Type 0} (x : Xxh32 H) (streams : Streams x) (word : (h : H) → x.digest h < 2 ^ 32)
    (memory : W → ℕ → ℕ) (init : W → W) (call : FunctionExec → W → W)
    (executables : ℕ → FunctionExec) (n_funcs : ℕ) (itl : ℕ → ℕ → ℕ) (shared : SetT)
    (shared_bytes : ℕ → Bool) (ds : Denotes shared shared_bytes) where
  -- The world before round `i`: each run starts from what `init` makes of the last.
  unfoldable pub world_before : ℕ → W → W
  world_before zero w = w
  world_before (suc i) w = sequential call executables (itl i) n_funcs (init (world_before i w))

  -- The hash of the shared bytes, in ascending order.
  abbrev pub hash_of : W → ℕ
  hash_of u = x.digest (x.update x.create (map (memory u) (values shared_bytes)))

  -- The hash after the sequential run in the order of row `i`.
  abbrev pub good_hash : W → ℕ → ℕ
  good_hash w i = hash_of (world_before (i + 1) w)

  sequential_lem :
      (row : ℕ → ℕ) (w : W)
      → run_in_order x memory init call executables n_funcs row w
        ≡ some (sequential call executables row n_funcs w)
  unfolding run_in_order sequential
  sequential_lem row w =
      let (u, ran, e) =
        for_loop_inv (λ j u. u ≡ sequential call executables row j w)
          (λ j u. some (call (executables (row j)) u)) n_funcs 0 n_funcs w (omega arith)
          (λ j u low high e. (_, refl, rw (add-one) (ap (call (executables (row j))) e))) refl in
      ran ∙ ap some e

  good_step :
      (i : ℕ) (u : W) (s : SetT) (g : ℕ → Bool)
      → Denotes s g
      → (s' : SetT) × (good_round x memory init call executables n_funcs itl shared i (u, s)
          ≡ some (sequential call executables (itl i) n_funcs (init u), s'))
        × Denotes s'
            (λ v. g v || (v == hash_of (sequential call executables (itl i) n_funcs (init u))))
  unfolding good_round
  good_step i u s g d =
      let after = sequential call executables (itl i) n_funcs (init u) in
      let (s', r, ran, was, d') = insert-Denotes s g (hash_of after) d (word _) in
      (
        s',
        rw
            (
              sequential_lem (itl i) (init u),
              hash_mem-Denotes x streams (memory after) shared shared_bytes ds,
              ran,
            )
            refl,
        d',
      )

  pub world-suc :
      (i : ℕ) (w : W)
      → world_before (i + 1) w
        ≡ sequential call executables (itl i) n_funcs (init (world_before i w))
  unfolding world_before
  world-suc i w = rw add-one refl

  abbrev Found : W → (ℕ → Bool) → ℕ → W × SetT → Type 0
  Found w f i t =
      (t.0 ≡ world_before i w) × Denotes t.1 (λ v. f v || any_below i (λ k. v == good_hash w k))

  Found-step :
      (w : W) (f : ℕ → Bool) (i : ℕ) (t : W × SetT)
      → Found w f i t
      → (u : W × SetT) × (good_round x memory init call executables n_funcs itl shared i t ≡ some u)
        × Found w f (i + 1) u
  Found-step w f i (u, s) (e, d) =
      let (s', ran, d') = good_step i u s _ d in
      let now : sequential call executables (itl i) n_funcs (init u) ≡ world_before (i + 1) w =
        rw (world-suc i w, e) refl in
      (
        (sequential call executables (itl i) n_funcs (init u), s'),
        ran,
        (now, Denotes-agree s' _ _ d' (λ v lt. rw now (collect (f v) i (λ k. v == good_hash w k)))),
      )

  -- The call ends, and a hash is valid afterwards exactly if it was before or if it is the hash of the
  -- shared bytes after a sequential run of all the functions in the order of one of the rows.
  pub find_good_hashes-Denotes :
      (n_perms : ℕ) (w : W) (valid : SetT) (f : ℕ → Bool)
      → Denotes valid f
      → (w' : W) × (valid' : SetT) × (find_good_hashes x memory init call executables n_funcs itl
            n_perms shared
            (w, valid)
          ≡ some (w', valid'))
        × Denotes valid' (λ v. f v || any_below n_perms (λ i. v == good_hash w i))
  unfolding find_good_hashes world_before
  find_good_hashes-Denotes n_perms w valid f d =
      let (t, ran, (e, d')) =
        for_loop_inv (Found w f) (good_round x memory init call executables n_funcs itl shared)
          n_perms 0 n_perms (w, valid) (omega arith) (λ i t low high held. Found-step w f i t held)
          (refl, Denotes-agree valid f _ d (λ v lt. sym (nothing 0 (f v) _ refl))) in
      (t.0, t.1, ran, d')
