-- ===== src/Memory/Tests.antt =====
-- The shared bytes on small sets. The hash is the sum of the bytes modulo 2 ^ 32.
use thread_equivalence_check.Base.{
  ℕ, ◌+◌, ◌%◌, ◌^◌, ◌≡◌, refl, false, ◌||◌, some, List, [], ◌∷◌, ◌++◌, map, arith,
}
use thread_equivalence_check.TrieSet.{SetT, set_alloc}
use thread_equivalence_check.TrieSet.Spec.{Denotes, alloc-Denotes}
use thread_equivalence_check.TrieSet.Count.{values}
use thread_equivalence_check.Memory.{Xxh32, hash_mem, add_mem}
use thread_equivalence_check.Memory.Hash.{Streams, hash_mem-Denotes}
use thread_equivalence_check.Memory.Ranges.{in_range, add_mem-Denotes}

abbrev pub add_all : ℕ → List ℕ → ℕ
add_all h [] = h
add_all h (b ∷ bs) = add_all (h + b) bs

abbrev pub sum : Xxh32 ℕ
sum = record { create = 0; update = add_all; digest = λ h. h % 2 ^ 32 }

pub sum-Streams : Streams sum
sum-Streams = (λ h. refl, go)
  where
    go : (h : ℕ) (xs ys : List ℕ) → add_all (add_all h xs) ys ≡ add_all h (xs ++ ys)
    go h [] ys = refl
    go h (x ∷ xs) ys = go (h + x) xs ys

abbrev bytes : ℕ → ℕ
bytes v = v + 1

add_mem-Denotes_example :
    (s : SetT) × (add_mem set_alloc 4096 4 ≡ some s) × Denotes s (λ v. false || in_range 4096 4 v)
add_mem-Denotes_example =
    add_mem-Denotes set_alloc (λ v. false) 4096 4 alloc-Denotes (omega arith) (omega arith)

abbrev four :
    (s : SetT) × (add_mem set_alloc 4096 4 ≡ some s) × Denotes s (λ v. false || in_range 4096 4 v)
four = add_mem-Denotes set_alloc (λ v. false) 4096 4 alloc-Denotes (omega arith) (omega arith)

hash_mem-Denotes_example :
    hash_mem sum bytes four.0
    ≡ some (add_all 0 (map bytes (values (λ v. false || in_range 4096 4 v))) % 2 ^ 32)
hash_mem-Denotes_example =
    hash_mem-Denotes sum sum-Streams bytes four.0 (λ v. false || in_range 4096 4 v) four.2
