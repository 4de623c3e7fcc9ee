-- ===== src/TrieSet/Tests.antt =====
-- Runs of set.c on small sets, and the theorems at such sets.
use mathlib.Core.Bool.{◌||◌}
use thread_equivalence_check.Base.{
  ℕ, ◌+◌, ◌≡◌, refl, u32, length, ◌&&◌, Option, some, ◌==◌, truthy, ◌>>=◌, arith,
}
use thread_equivalence_check.Base.Loops.{for_loop}
use thread_equivalence_check.TrieSet.{
  SetT, null, node, max_offset, put, set_mk, set_alloc_offset, set_alloc, mask_has, index_at,
  insert_fuel, set_insert, set_lookup, copy_child, set_copy, union_child, set_union,
  union_inplace_child, set_union_inplace, intersection_child, set_intersection,
  intersection_inplace_child, set_intersection_inplace, set_free, visit_leaf, visit_child,
  set_foreach_recurse, set_foreach, set_cardinality, set_empty,
}
use thread_equivalence_check.TrieSet.Members.{visit_all}
use thread_equivalence_check.TrieSet.Count.{values, foreach-Denotes, cardinality-Denotes}
use thread_equivalence_check.TrieSet.Spec.{
  Denotes, alloc-Denotes, insert-Denotes, operations-Denotes,
}

-- The names that a run computes with.
runs : ℕ
unfolding put set_mk set_alloc_offset set_alloc mask_has index_at insert_fuel set_insert set_lookup
    copy_child set_copy union_child set_union union_inplace_child set_union_inplace
    intersection_child set_intersection intersection_inplace_child set_intersection_inplace set_free
    visit_leaf visit_child set_foreach_recurse set_foreach set_cardinality set_empty for_loop
runs = 0

-- `set_insert` returns 0 for a new value and the mask bit for an old one.
insert_twice : ℕ → Option (ℕ × ℕ)
insert_twice v = do (s, r) ← set_insert set_alloc v; (t, q) ← set_insert s v; some (r, q)

insert_twice_run : insert_twice 0x80000005 ≡ some (0, 32)
unfolding runs insert_twice
insert_twice_run = refl

insert_then_look : ℕ → ℕ → ℕ → Option ℕ
insert_then_look v w u = do (s, _) ← set_insert set_alloc v; (t, _) ← set_insert s w; set_lookup t u

look_hit : insert_then_look 7 0xFFFFFFFF 7 ≡ some 1
unfolding runs insert_then_look
look_hit = refl

look_miss : insert_then_look 7 0xFFFFFFFF 8 ≡ some 0
unfolding runs insert_then_look
look_miss = refl

-- A set with one value, and one with two.
five : SetT
five = (insert-Denotes set_alloc _ 5 alloc-Denotes (omega arith)).0

five-Denotes : Denotes five (λ v. v == 5)
unfolding five
five-Denotes = (insert-Denotes set_alloc _ 5 alloc-Denotes (omega arith)).4

five_six : SetT
five_six = (insert-Denotes five _ 6 five-Denotes (omega arith)).0

five_six-Denotes : Denotes five_six (λ v. (v == 5) || (v == 6))
unfolding five_six
five_six-Denotes = (insert-Denotes five _ 6 five-Denotes (omega arith)).4

insert-Denotes_example :
    (s : SetT) × (r : ℕ) × (set_insert five 6 ≡ some (s, r))
    × (truthy r ≡ (6 == 5))
    × Denotes s (λ u. (u == 5) || (u == 6))
insert-Denotes_example = insert-Denotes five (λ v. v == 5) 6 five-Denotes (omega arith)

operations-Denotes_example :
    (copy : SetT) × (union : SetT) × (union' : SetT) × (common : SetT) × (common' : SetT)
    × ((set_copy (node 0 max_offset (λ i. null)) five ≡ some copy) × Denotes copy (λ v. v == 5))
    × ((set_union (node 0 max_offset (λ i. null)) five five_six ≡ some union)
        × Denotes union (λ v. (v == 5) || ((v == 5) || (v == 6))))
    × ((set_union_inplace five_six five ≡ some union')
        × Denotes union' (λ v. (v == 5) || ((v == 5) || (v == 6))))
    × ((set_intersection (node 0 max_offset (λ i. null)) five five_six ≡ some common)
        × Denotes common (λ v. (v == 5) && ((v == 5) || (v == 6))))
    × ((set_intersection_inplace five_six five ≡ some common')
        × Denotes common' (λ v. (v == 5) && ((v == 5) || (v == 6))))
operations-Denotes_example =
    operations-Denotes five five_six (λ v. v == 5) (λ v. (v == 5) || (v == 6)) five-Denotes
      five_six-Denotes 0 (λ i. null)

foreach-Denotes_example :
    set_foreach (λ v s. s + v) five_six 0
    ≡ some (
      u32 (length (values (λ v. (v == 5) || (v == 6)))),
      visit_all (λ v s. s + v) (values (λ v. (v == 5) || (v == 6))) 0,
    )
foreach-Denotes_example =
    foreach-Denotes five_six (λ v. (v == 5) || (v == 6)) five_six-Denotes (λ v s. s + v) 0

cardinality-Denotes_example : set_cardinality five ≡ some (length (values (λ v. v == 5)))
cardinality-Denotes_example =
    cardinality-Denotes five (λ v. v == 5) five-Denotes 0 (omega arith) refl
