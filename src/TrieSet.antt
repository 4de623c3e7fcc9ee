-- ===== src/TrieSet.antt =====
-- final_proj/code/set.c and set.h: sets of 32-bit values as 32-way tries, five bits to a level.
-- A set is owned by one variable and no two sets share a node, so the pointers are modelled by
-- the tree itself. `none` is a fault: a NULL pointer read or a failed assert. Allocation is
-- taken to succeed: the code panics where it does not.
pub mod Wf
pub mod Lookup
pub mod Store
pub mod Copy
pub mod Union
pub mod Free
pub mod Intersect
pub mod Insert
pub mod Spec
pub mod Members
pub mod Foreach
pub mod Count
pub mod Tests
use thread_equivalence_check.Base.{
  ℕ, zero, suc, Bool, ◌&&◌, Option, none, some, ◌==◌, ltb, if◌then◌else◌, truthy, ◌>>=◌, ◌>>◌,
  assert, add32, sub32, bit_and, bit_or,
}
use thread_equivalence_check.Base.Bits.{shl, shr, complement}
use thread_equivalence_check.Base.Loops.{for_loop}

abbrev pub max_offset : ℕ
max_offset = 30

-- `set_t *`: NULL, or a node with `mask`, `offset` and `children`.
pub data SetT : Type 0 where
  null : SetT
  node : (mask offset : ℕ) (children : ℕ → SetT) → SetT

abbrev pub is_null : SetT → Bool
is_null null = Bool.true
is_null (node m o c) = Bool.false

-- `children[i] = x`.
unfoldable pub put : (ℕ → SetT) → ℕ → SetT → ℕ → SetT
put c i x j = if j == i then x else c j

-- `set_mk` on a node: it overwrites every field.
unfoldable pub set_mk : ℕ → SetT
set_mk offset = node 0 offset (λ i. null)

unfoldable pub set_alloc_offset : ℕ → SetT
set_alloc_offset offset = set_mk offset

unfoldable pub set_alloc : SetT
set_alloc = set_alloc_offset max_offset

unfoldable pub mask_has : ℕ → ℕ → ℕ
mask_has mask b = bit_and mask (shl 1 b)

-- `(v >> offset) & 0x1F`.
unfoldable pub index_at : ℕ → ℕ → ℕ
index_at offset v = bit_and (shr v offset) 0x1F

-- `handler(v, arg)` is a function on the state that it updates through `arg`.
module _ {S : Type 0} (handler : ℕ → S → S) where
  -- One round at a leaf, on the count `n` and the state.
  unfoldable pub visit_leaf : ℕ → ℕ → ℕ → ℕ × S → Option (ℕ × S)
  visit_leaf mask prefix i (n, s) =
      if truthy (mask_has mask i)
      then some (add32 n 1, handler (bit_or (shl prefix 5) i) s)
      else some (n, s)

  -- One round at an inner node: `child` is the recursive call.
  unfoldable pub visit_child : ℕ → (ℕ → ℕ → S → Option (ℕ × S)) → ℕ → ℕ → ℕ × S → Option (ℕ × S)
  visit_child mask child prefix i (n, s) =
      if truthy (mask_has mask i)
      then (do (n', s') ← child i (bit_or (shl prefix 5) i) s; some (add32 n n', s'))
      else some (n, s)

  unfoldable pub set_foreach_recurse : SetT → ℕ → S → Option (ℕ × S)
  set_foreach_recurse null prefix s = none
  set_foreach_recurse (node mask offset children) prefix s =
      let inner =
        for_loop 32 0 (visit_child mask (λ i. set_foreach_recurse (children i)) prefix) (0, s) in
      if ltb 0 offset then inner else for_loop 32 0 (visit_leaf mask prefix) (0, s)

  unfoldable pub set_foreach : SetT → S → Option (ℕ × S)
  set_foreach t s = set_foreach_recurse t 0 s

-- `set_cardinality_el` does nothing.
unfoldable pub set_cardinality : SetT → Option ℕ
set_cardinality t = do (n, _) ← set_foreach (λ v (s : Unit {0}). s) t tt; some n

unfoldable pub set_empty : SetT → Option ℕ
set_empty t = do n ← set_cardinality t; some (if n == 0 then 1 else 0)

unfoldable pub set_free : SetT → Option (Unit {0})
set_free null = none
set_free (node mask offset children) =
    for_loop 32 0
      (λ i s. let below = set_free (children i) in if is_null (children i) then some s else below)
      tt

-- One round of `set_copy`, with the recursive call as `copy`.
unfoldable pub copy_child : ℕ → ℕ → (ℕ → SetT → Option SetT) → ℕ → (ℕ → SetT) → Option (ℕ → SetT)
copy_child mask offset copy i c =
    if truthy (bit_and mask (shl 1 i))
    then (do x ← copy i (set_alloc_offset (sub32 offset 5)); some (put c i x))
    else some c

unfoldable pub set_copy : SetT → SetT → Option SetT
set_copy null src = none
set_copy (node m o dst) null = none
set_copy (node m o dst) (node mask offset src) =
    let copied = for_loop 32 0 (copy_child mask offset (λ i x. set_copy x (src i))) dst in
    if ltb 0 offset then (do c ← copied; some (node mask offset c)) else some (node mask offset dst)

-- `set_insert` returns the set and `present`. The recursion goes on into a node that may have
-- just been allocated, so it runs on fuel: one round for each level.
unfoldable pub insert_fuel : ℕ → SetT → ℕ → Option (SetT × ℕ)
insert_fuel zero s v = none
insert_fuel (suc fuel) null v = none
insert_fuel (suc fuel) (node mask offset children) v =
    let index = index_at offset v in
    let present = bit_and mask (shl 1 index) in
    let mask' = bit_or mask (shl 1 index) in
    let child = if truthy present then children index else set_alloc_offset (sub32 offset 5) in
    let deeper = insert_fuel fuel child v in
    if ltb 0 offset
    then (do (x, r) ← deeper; some (node mask' offset (put children index x), r))
    else some (node mask' offset children, present)

abbrev pub levels : ℕ
levels = 7

unfoldable pub set_insert : SetT → ℕ → Option (SetT × ℕ)
set_insert s v = insert_fuel levels s v

unfoldable pub set_lookup : SetT → ℕ → Option ℕ
set_lookup null v = none
set_lookup (node mask offset children) v =
    let index = index_at offset v in
    let present = bit_and mask (shl 1 index) in
    let deeper = set_lookup (children index) v in
    if present == 0 then some 0 else if offset == 0 then some (shr present index) else deeper

-- What one round of `set_union` stores into `z->children[i]`, with the recursive call as `both`.
unfoldable pub union_child :
    ℕ
    → ℕ
    → ℕ
    → (ℕ → SetT → Option SetT)
    → (ℕ → SetT)
    → (ℕ → SetT)
    → ℕ
    → (ℕ → SetT)
    → Option (ℕ → SetT)
union_child xm ym offset both xc yc i c =
    let fresh = set_alloc_offset (sub32 offset 5) in
    if truthy (mask_has (bit_and xm ym) i)
    then (do z ← both i fresh; some (put c i z))
    else if truthy (mask_has (bit_or xm ym) i)
    then (if truthy (mask_has xm i)
        then (do z ← set_copy fresh (xc i); some (put c i z))
        else if truthy (mask_has ym i)
        then (do z ← set_copy fresh (yc i); some (put c i z))
        else some (put c i fresh))
    else some c

unfoldable pub set_union : SetT → SetT → SetT → Option SetT
set_union null x y = none
set_union (node zm zo zc) null y = none
set_union (node zm zo zc) (node xm xo xc) null = none
set_union (node zm zo zc) (node xm xo xc) (node ym yo yc) =
    let children =
      for_loop 32 0 (union_child xm ym zo (λ i z. set_union z (xc i) (yc i)) xc yc) zc in
    assert (zo == xo && xo == yo)
    >> (if zo == 0
        then some (node (bit_or xm ym) zo zc)
        else (do c ← children; some (node (bit_or xm ym) zo c)))

-- One round of `set_union_inplace`; `ym` is the mask of `y` before it was changed.
unfoldable pub union_inplace_child :
    ℕ → ℕ → ℕ → (ℕ → SetT → Option SetT) → (ℕ → SetT) → ℕ → (ℕ → SetT) → Option (ℕ → SetT)
union_inplace_child ym xm xo both xc i c =
    if truthy (mask_has (bit_and ym xm) i)
    then (do z ← both i (c i); some (put c i z))
    else if truthy (mask_has xm i)
    then (do z ← set_copy (set_alloc_offset (sub32 xo 5)) (xc i); some (put c i z))
    else some c

unfoldable pub set_union_inplace : SetT → SetT → Option SetT
set_union_inplace y null = none
set_union_inplace null (node xm xo xc) = none
set_union_inplace (node ym yo yc) (node xm xo xc) =
    let children =
      for_loop 32 0 (union_inplace_child ym xm xo (λ i y. set_union_inplace y (xc i)) xc) yc in
    assert (yo == xo)
    >> (if yo == 0
        then some (node (bit_or ym xm) yo yc)
        else (do c ← children; some (node (bit_or ym xm) yo c)))

unfoldable pub intersection_child :
    ℕ → ℕ → (ℕ → SetT → Option SetT) → ℕ → (ℕ → SetT) → Option (ℕ → SetT)
intersection_child both_present xo both i c =
    if truthy (mask_has both_present i)
    then (do z ← both i (set_alloc_offset (sub32 xo 5)); some (put c i z))
    else some c

unfoldable pub set_intersection : SetT → SetT → SetT → Option SetT
set_intersection null x y = none
set_intersection (node zm zo zc) null y = none
set_intersection (node zm zo zc) (node xm xo xc) null = none
set_intersection (node zm zo zc) (node xm xo xc) (node ym yo yc) =
    let children =
      for_loop 32 0
        (intersection_child (bit_and ym xm) xo (λ i z. set_intersection z (xc i) (yc i))) zc in
    assert (zo == xo && xo == yo)
    >> (if zo == 0
        then some (node (bit_and ym xm) zo zc)
        else (do c ← children; some (node (bit_and ym xm) zo c)))

unfoldable pub intersection_inplace_child :
    ℕ → ℕ → ℕ → (ℕ → SetT → Option SetT) → (ℕ → SetT) → ℕ → (ℕ → SetT) → Option (ℕ → SetT)
intersection_inplace_child ym xm yo both xc i c =
    if truthy (mask_has (bit_and ym (complement xm)) i)
    then (do set_free (c i); some (put c i null))
    else if truthy (mask_has (bit_and xm (complement ym)) i)
    then (do z ← set_copy (set_alloc_offset (sub32 yo 5)) (xc i); some (put c i z))
    else if truthy (mask_has (bit_and ym xm) i)
    then (do z ← both i (c i); some (put c i z))
    else some c

unfoldable pub set_intersection_inplace : SetT → SetT → Option SetT
set_intersection_inplace y null = none
set_intersection_inplace null (node xm xo xc) = none
set_intersection_inplace (node ym yo yc) (node xm xo xc) =
    let children =
      for_loop 32 0
        (intersection_inplace_child ym xm yo (λ i y. set_intersection_inplace y (xc i)) xc) yc in
    assert (yo == xo)
    >> (if yo == 0
        then some (node (bit_and ym xm) yo yc)
        else (do c ← children; some (node (bit_and ym xm) yo c)))
