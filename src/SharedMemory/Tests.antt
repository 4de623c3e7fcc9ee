-- ===== src/SharedMemory/Tests.antt =====
-- A run of `find_shared_memory` with two functions of which one reads what the other writes.
use thread_equivalence_check.Base.{
  ℕ, ◌+◌, ◌%◌, ◌≡◌, refl, ap, Option, some, Bool, false, ◌==◌, if◌then◌else◌, arith,
}
use mathlib.Core.Bool.{◌||◌}
use thread_equivalence_check.TrieSet.{SetT, null, set_alloc}
use thread_equivalence_check.TrieSet.Spec.{Denotes, alloc-Denotes, insert-Denotes}
use thread_equivalence_check.SharedMemory.{find_shared_memory}
use thread_equivalence_check.SharedMemory.Races.{Traces, raced, find_shared_memory-raced}

one_byte : ℕ → SetT
one_byte v = (insert-Denotes set_alloc _ (v % 16) alloc-Denotes (omega arith)).0

one_byte-Denotes : (v : ℕ) → Denotes (one_byte v) (λ u. u == (v % 16))
unfolding one_byte
one_byte-Denotes v = (insert-Denotes set_alloc _ (v % 16) alloc-Denotes (omega arith)).4

-- Function 0 reads byte 4 and writes byte 8; the others read byte 8 and write byte 8. The state
-- counts the runs.
traced : ℕ → SetT → SetT → ℕ → Option ((SetT × SetT) × ℕ)
traced e r w s = some ((one_byte (if e == 0 then 4 else 8), one_byte 8), s + 1)

abbrev reads_of : ℕ → ℕ → Bool
reads_of e v = v == ((if e == 0 then 4 else 8) % 16)

abbrev writes_of : ℕ → ℕ → Bool
writes_of e v = v == (8 % 16)

abbrev AfterRuns : ℕ → ℕ → Type 0
AfterRuns i s = s ≡ i

traced-Traces : Traces traced AfterRuns (λ i. i) 2 reads_of writes_of
unfolding traced
traced-Traces i s h g = (
  one_byte (if i == 0 then 4 else 8),
  one_byte 8,
  s + 1,
  refl,
  one_byte-Denotes (if i == 0 then 4 else 8),
  one_byte-Denotes 8,
  ap (λ k. k + 1) g,
)

find_shared_memory-raced_example :
    (found : SetT) × (s' : ℕ) × (find_shared_memory traced
        (λ i. i)
        2
        ((λ i. null), (λ i. null))
        set_alloc
        0
      ≡ some (found, s'))
    × Denotes found (λ v. false || raced reads_of writes_of 2 v)
    × AfterRuns 2 s'
find_shared_memory-raced_example =
    find_shared_memory-raced traced AfterRuns (λ i. i) 2 reads_of writes_of traced-Traces
      ((λ i. null), (λ i. null)) set_alloc (λ v. false) 0 alloc-Denotes refl
