-- ===== src/Schedule.antt =====
-- final_proj/code/interleaver.c, `tids_valid` and `next_tid`: the thread ids of a schedule as an
-- odometer whose digits run from 1 to `num_funcs`, the first one fastest.
pub mod Value
pub mod Next
pub mod Tests
use thread_equivalence_check.Base.{
  ℕ, zero, suc, Bool, true, false, Option, none, some, List, [], ◌∷◌, ◌==◌, ltb, if◌then◌else◌,
  add32, length, ◌^◌,
}

-- `tids_valid(tids, ncs + 1)`: no thread follows itself.
unfoldable pub tids_valid : List ℕ → ℕ
tids_valid [] = 1
tids_valid (t ∷ []) = 1
tids_valid (t ∷ u ∷ ts) = if t == u then 0 else tids_valid (u ∷ ts)

-- The rounds of the inner loop on the entries that are left; the increment of `tids[0]` is a carry
-- into the first round.
unfoldable pub carry_over : ℕ → ℕ → List ℕ → List ℕ × ℕ
carry_over num_funcs carry [] = ([], carry)
carry_over num_funcs carry (t ∷ ts) =
    let t' = if carry == 0 then t else add32 t 1 in
    let wraps = ltb num_funcs t' in
    let rest = carry_over num_funcs (if wraps then 1 else 0) ts in
    ((if wraps then 1 else t') ∷ rest.0, rest.1)

-- The do loop on fuel; `none` means that the fuel ran out. The result is the array and the value
-- that the function returns.
unfoldable pub next_fuel : ℕ → ℕ → List ℕ → Option (List ℕ × ℕ)
next_fuel zero num_funcs tids = none
next_fuel (suc fuel) num_funcs tids =
    let (tids', carry) = carry_over num_funcs 1 tids in
    let again = next_fuel fuel num_funcs tids' in
    if carry == 0
    then (if tids_valid tids' == 0 then again else some (tids', 1))
    else some (tids', 0)

-- `next_tid` on the `ncs + 1` entries of `tids`; there are no more arrays than the fuel.
unfoldable pub next_tid : List ℕ → ℕ → Option (List ℕ × ℕ)
next_tid tids num_funcs = next_fuel (num_funcs ^ length tids) num_funcs tids
