-- ===== src/Runtime/Recorded.antt =====
-- equiv-rw-set.c: what the tracker has recorded at the end of a run.
use mathlib.Core.Bool.{or_comm}
use thread_equivalence_check.Base.{
  ℕ, ◌<◌, ◌^◌, ◌≡◌, refl, sym, subst, ap, ◌∙◌, Option, none, some, List, [], ◌∷◌, Bool, true, false,
  ◌||◌, ◌&&◌, ◌==◌, truthy, not, assert, bit_or, OnSome, >>=-eq-some, some-inj,
}
use thread_equivalence_check.Base.Bits.{shl}
use thread_equivalence_check.TrieSet.{SetT, set_alloc, set_free, set_union_inplace}
use thread_equivalence_check.TrieSet.Spec.{
  Denotes, Denotes-agree, alloc-Denotes, union_inplace-Denotes,
}
use thread_equivalence_check.Touched.{get_touched_bytes}
use thread_equivalence_check.Touched.Arm.{ReadsBits, arm_width, IsPlain}
use thread_equivalence_check.Touched.Decode.{get_touched_bytes-arm_width}
use thread_equivalence_check.Memory.Ranges.{in_range}
use thread_equivalence_check.Runtime.{Regs, RwTracker, RunQueue, State, Libpi}
use thread_equivalence_check.Runtime.Tracker.{user_dom, rw_tracker_disarm, set_data_faults}
use thread_equivalence_check.Runtime.Handlers.{
  Event, data_abort, prefetch_abort, syscall, Ending, handle, touch_installed, track, union_into,
  rw_tracker_data_abort_handler,
}
use thread_equivalence_check.Runtime.Untracked.{installed-Has, fault-Has, syscall-Has}

-- The kind of an access: `true` is a write.
abbrev is_kind : Bool → Bool → Bool
is_kind true w = w
is_kind false w = not w

abbrev covers : ℕ → Option ℕ → ℕ → Bool
covers addr none v = false
covers addr (some width) v = in_range addr width v

module _ (pi : Libpi) where
  -- The bytes that the access of a data abort reads or writes; other exceptions access nothing.
  abbrev pub accesses : Bool → Event → ℕ → Bool
  accesses kind (data_abort r addr dfsr instruction) v =
      is_kind kind (truthy (pi.bit_isset dfsr 11)) && covers addr (arm_width instruction) v
  accesses kind (prefetch_abort r) v = false
  accesses kind (syscall r) v = false

  abbrev pub all_accesses : Bool → List Event → ℕ → Bool
  all_accesses kind [] v = false
  all_accesses kind (e ∷ es) v = accesses kind e v || all_accesses kind es v

-- The two sets of the tracker hold these bytes.
abbrev pub Sets : (ℕ → Bool) → (ℕ → Bool) → RwTracker → Type 0
Sets f g tracker =
    ((s : SetT) × (tracker.read ≡ some s) × Denotes s f)
    × ((s : SetT) × (tracker.write ≡ some s) × Denotes s g)

pub unchanged :
    (f g : ℕ → Bool) (t : RwTracker) → Sets f g t → Sets (λ v. f v || false) (λ v. g v || false) t
unchanged f g t ((r, er, dr), (s, es, ds)) = (
  (r, er, Denotes-agree r _ _ dr (λ v lt. or_comm false (f v))),
  (s, es, Denotes-agree s _ _ ds (λ v lt. or_comm false (g v))),
)

-- A data abort is of an access that the architecture's manual has, at an address that is a word, by
-- an instruction whose bits 20 to 24 tell a swap or a word exclusive from a halfword or double word.
abbrev pub IsAccess : Event → Type 0
IsAccess (data_abort r addr dfsr instruction) =
    (addr < 2 ^ 32) × ((width : ℕ) × (arm_width instruction ≡ some width)) × IsPlain instruction
IsAccess (prefetch_abort r) = Unit
IsAccess (syscall r) = Unit

module _ (f g h : ℕ → Bool) (touched : SetT) (dh : Denotes touched h) where
  joined :
      (s : SetT) (k : ℕ → Bool)
      → Denotes s k
      → (s' : SetT) × (set_union_inplace s touched ≡ some s') × Denotes s' (λ v. k v || h v)
  joined s k d =
      let (s', ran, d') = union_inplace-Denotes touched s h k dh d in
      (s', ran, Denotes-agree s' _ _ d' (λ v lt. or_comm (h v) (k v)))

  same : (s : SetT) (k : ℕ → Bool) → Denotes s k → Denotes s (λ v. k v || false)
  same s k d = Denotes-agree s _ _ d (λ v lt. or_comm false (k v))

  track-Sets :
      (w : Bool) (tracker : RwTracker)
      → Sets f g tracker
      → (t : RwTracker) × (track w touched tracker ≡ some t)
        × Sets (λ v. f v || (is_kind false w && h v)) (λ v. g v || (is_kind true w && h v)) t
  unfolding track union_into
  track-Sets true tracker ((r, er, dr), (s, es, ds)) =
      let (s', ran, d') = joined s g ds in
      (
        record tracker { write = some s' },
        rw (er, es, ran) refl,
        ((r, er, same r f dr), (s', refl, d')),
      )
  track-Sets false tracker ((r, er, dr), (s, es, ds)) =
      let (r', ran, d') = joined r f dr in
      (
        record tracker { read = some r' },
        rw (es, er, ran) refl,
        ((r', refl, d'), (s, es, same s g ds)),
      )

pub found : {A : Type 0} (P : A → Type 0) (o : Option A) (a : A) → OnSome P o → o ≡ some a → P a
found P o a h e = rw e at h

-- What `get_touched_bytes` leaves in a new set.
touched-Denotes :
    (pi : Libpi) (reads : ReadsBits pi.bits_get pi.bit_isset) (r : Regs) (addr dfsr instruction : ℕ)
    (touched : SetT)
    → IsAccess (data_abort r addr dfsr instruction)
    → get_touched_bytes pi.bits_get pi.bit_isset instruction addr set_alloc ≡ some touched
    → Denotes touched (covers addr (arm_width instruction))
touched-Denotes pi reads r addr dfsr instruction touched (small, (width, is), plain) ran =
    let (s, got, d) =
      get_touched_bytes-arm_width pi.bits_get pi.bit_isset reads instruction addr width (λ v. false)
        set_alloc small alloc-Denotes is plain in
    let e : s ≡ touched = cc in rw is (subst (λ t. Denotes t (in_range addr width)) e d)

module _ {Q : Type 0} (rq : RunQueue Q) (pi : Libpi)
    (reads : ReadsBits pi.bits_get pi.bit_isset) where
  abbrev tracker_in : Option (State Q) → Option RwTracker
  tracker_in none = none
  tracker_in (some st) = some st.current_tracker

  -- After an exception, with what it accessed.
  abbrev pub After : (ℕ → Bool) → (ℕ → Bool) → Event → State Q → Type 0
  After f g e st =
      Sets (λ v. f v || accesses pi false e v) (λ v. g v || accesses pi true e v) st.current_tracker

  -- The tracker after a data abort is the one that `track` makes of the touched bytes.
  pub abort-tracked :
      (r : Regs) (addr dfsr instruction : ℕ) (st st' : State Q)
      → rw_tracker_data_abort_handler pi r addr dfsr instruction st ≡ some st'
      → (touched : SetT) × (get_touched_bytes pi.bits_get pi.bit_isset instruction addr set_alloc
          ≡ some touched)
        × (track (truthy (pi.bit_isset dfsr 11)) touched st.current_tracker
            ≡ some st'.current_tracker)
  unfolding rw_tracker_data_abort_handler rw_tracker_disarm set_data_faults
  abort-tracked r addr dfsr instruction st st' h =
      let w : Bool = truthy (pi.bit_isset dfsr 11) in
      let (u1, _, h1) =
        >>=-eq-some (assert (bit_or (shl (pi.bit_isset dfsr 10) 4) (pi.bits_get dfsr 0 3) == 13)) _
          _ h in
      let (u2, _, h2) = >>=-eq-some (assert (not (pi.bits_get dfsr 4 7 == user_dom))) _ _ h1 in
      let (touched, ran, h3) =
        >>=-eq-some (get_touched_bytes pi.bits_get pi.bit_isset instruction addr set_alloc) _ _
          h2 in
      let (st1, ran1, h4) = >>=-eq-some (touch_installed touched (r 15) st) _ _ h3 in
      let kept = found _ _ st1 (installed-Has st.current_tracker touched (r 15) st refl) ran1 in
      let (t, ran2, h5) = >>=-eq-some (track w touched st1.current_tracker) _ _ h4 in
      let (u3, _, h6) = >>=-eq-some (set_free touched) _ _ h5 in
      (touched, ran, ap (track w touched) (sym kept) ∙ ran2 ∙ ap tracker_in h6)

  abort-Sets :
      (f g : ℕ → Bool) (r : Regs) (addr dfsr instruction : ℕ) (st st' : State Q)
      → IsAccess (data_abort r addr dfsr instruction)
      → Sets f g st.current_tracker
      → rw_tracker_data_abort_handler pi r addr dfsr instruction st ≡ some st'
      → After f g (data_abort r addr dfsr instruction) st'
  abort-Sets f g r addr dfsr instruction st st' small sets h =
      let w : Bool = truthy (pi.bit_isset dfsr 11) in
      let (touched, ran, tracked) = abort-tracked r addr dfsr instruction st st' h in
      let (t', ran', sets') =
        track-Sets f g (covers addr (arm_width instruction)) touched
          (touched-Denotes pi reads r addr dfsr instruction touched small ran) w st.current_tracker
          sets in
      subst
        (λ (x : RwTracker).
          Sets (λ v. f v || accesses pi false (data_abort r addr dfsr instruction) v)
            (λ v. g v || accesses pi true (data_abort r addr dfsr instruction) v) x)
        (some-inj (sym ran' ∙ tracked)) sets'

  pub handle-Sets :
      (f g : ℕ → Bool) (stop : ℕ) (e : Event) (st st' : State Q) (ending : Ending)
      → IsAccess e
      → Sets f g st.current_tracker
      → handle rq pi stop e st ≡ some (st', ending)
      → After f g e st'
  unfolding handle
  handle-Sets f g stop (data_abort r addr dfsr instruction) st st' ending small sets h =
      let (s, ran, h1) =
        >>=-eq-some (rw_tracker_data_abort_handler pi r addr dfsr instruction st) _ _ h in
      let is : s ≡ st' = cc in
      subst (After f g (data_abort r addr dfsr instruction)) is
        (abort-Sets f g r addr dfsr instruction st s small sets ran)
  handle-Sets f g stop (prefetch_abort r) st st' ending small sets h =
      let kept = found _ _ (st', ending) (fault-Has st.current_tracker rq pi stop r st refl) h in
      rw kept (unchanged f g st.current_tracker sets)
  handle-Sets f g stop (syscall r) st st' ending small sets h =
      let kept = found _ _ (st', ending) (syscall-Has st.current_tracker rq pi r st refl) h in
      rw kept (unchanged f g st.current_tracker sets)
