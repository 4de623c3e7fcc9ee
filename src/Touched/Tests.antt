-- ===== src/Touched/Tests.antt =====
-- A halfword load with an immediate offset.
use thread_equivalence_check.Base.{ℕ, ◌+◌, ◌-◌, ◌/◌, ◌%◌, ◌^◌, ◌≡◌, refl, false, ◌||◌, some, arith}
use thread_equivalence_check.TrieSet.{SetT, set_alloc}
use thread_equivalence_check.TrieSet.Spec.{Denotes, alloc-Denotes}
use thread_equivalence_check.Memory.Ranges.{in_range}
use thread_equivalence_check.Touched.{get_touched_bytes}
use thread_equivalence_check.Touched.Width.{decoded_width}
use thread_equivalence_check.Touched.Arm.{ReadsBits, arm_width, extra_bytes}
use thread_equivalence_check.Touched.Decode.{get_touched_bytes-arm_width}

-- The functions of libpi.
abbrev pub field : ℕ → ℕ → ℕ → ℕ
field n low high = n / 2 ^ low % 2 ^ (high + 1 - low)

abbrev pub is_set : ℕ → ℕ → ℕ
is_set n i = n / 2 ^ i % 2

reads : ReadsBits field is_set
reads = record { get = λ x lb ub. refl; isset = λ x i. refl }

-- `ldrh r0, [r1, #2]`
abbrev load_half : ℕ
load_half = 3788570802

half_width : arm_width load_half ≡ some 2
unfolding arm_width extra_bytes
half_width = refl

-- `ldrh r0, [r1, r2]` accesses 2 bytes, and is taken for LDREX.
abbrev load_half_register : ℕ
load_half_register = 0xE19100B2

half_register_width : arm_width load_half_register ≡ some 2
unfolding arm_width extra_bytes
half_register_width = refl

taken_for_exclusive : decoded_width field is_set load_half_register ≡ some 4
taken_for_exclusive = refl

get_touched_bytes-arm_width_example :
    (s : SetT) × (get_touched_bytes field is_set load_half 4096 set_alloc ≡ some s)
    × Denotes s (λ v. false || in_range 4096 2 v)
get_touched_bytes-arm_width_example =
    get_touched_bytes-arm_width field is_set reads load_half 4096 2 (λ v. false) set_alloc
      (omega arith) alloc-Denotes half_width (λ in_group. refl)
