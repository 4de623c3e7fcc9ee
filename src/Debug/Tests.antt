-- ===== src/Debug/Tests.antt =====
-- Bit functions that do what is documented, and a machine whose breakpoint is used.
use native.Mathlib.Nat.{pow-succ', pow-zero, div-div-eq-div-mul}
use thread_equivalence_check.Base.{
  ℕ, zero, suc, ◌+◌, ◌-◌, ◌*◌, ◌/◌, ◌%◌, ◌^◌, ◌<◌, ◌≡◌, refl, true, some, List, ◌==◌, leb, ltb,
  ◌&&◌, if◌then◌else◌, arith,
}
use thread_equivalence_check.Base.Bits.{bit, bit-lt, bit-zero}
use thread_equivalence_check.TrieSet.{set_alloc}
use thread_equivalence_check.Runtime.{State, Libpi}
use thread_equivalence_check.Runtime.Threads.{mismatch_pc_set, mismatch_on, mismatch_off}
use thread_equivalence_check.Runtime.Tests.{state_at}
use thread_equivalence_check.Debug.{
  BitSupport, Stepper, cp14_is_enabled, set_mismatch, turn_mismatch_on, turn_mismatch_off,
}
use thread_equivalence_check.Debug.Matches.{Armed, Stands, Matches, stepper, mismatch-Matches}
use thread_equivalence_check.Debug.Mismatch.{
  SetsEachBit, IsMismatching, IsTurnedOff, mismatch-on_off,
}

-- The number with the `n` low bits given, and the others of `x`.
pub with_low : ℕ → (ℕ → ℕ) → ℕ → ℕ
with_low zero g x = x
with_low (suc n) g x = with_low n (λ j. g (suc j)) (x / 2) * 2 + g 0 % 2

bit-with_low :
    (n : ℕ) (g : ℕ → ℕ) (x j : ℕ) → bit j (with_low n g x) ≡ (if ltb j n then g j % 2 else bit j x)
unfolding with_low bit
bit-with_low zero g x j = ground arith
bit-with_low (suc n) g x zero = ground arith
bit-with_low (suc n) g x (suc j) = ground (arith, bit-with_low n (λ i. g (suc i)) (x / 2) j)

abbrev one_bit : ℕ → ℕ → ℕ → ℕ
one_bit i v x = with_low (suc i) (λ j. if j == i then v else bit j x) x

abbrev field : ℕ → ℕ → ℕ → ℕ → ℕ
field lb ub v x = with_low (suc ub) (λ j. if leb lb j then bit (j - lb) v else bit j x) x

abbrev pub bits : Libpi
bits = record {
  bits_get = λ n low high. n / 2 ^ low % 2 ^ (high + 1 - low);
  bit_isset = λ n i. n / 2 ^ i % 2;
  bits_set = λ n low high v. field low high v n;
}

abbrev pub other_bits : BitSupport
other_bits = record {
  bit_set = λ x i. one_bit i 1 x;
  bit_clr = λ x i. one_bit i 0 x;
  bits_clr = λ x lb ub. field lb ub 0 x;
}

bit-one_bit : (i v x j : ℕ) → v < 2 → bit j (one_bit i v x) ≡ (if j == i then v else bit j x)
bit-one_bit i v x j h =
    ground (arith, bit-with_low (suc i) (λ k. if k == i then v else bit k x) x j, bit-lt j x)

bit-field :
    (lb ub v x j : ℕ)
    → bit j (field lb ub v x) ≡ (if leb lb j && leb j ub then bit (j - lb) v else bit j x)
bit-field lb ub v x j = ground (
  arith,
  bit-with_low (suc ub) (λ k. if leb lb k then bit (k - lb) v else bit k x) x j,
  bit-lt j x,
  bit-lt (j - lb) v,
)

bit-div : (i x : ℕ) → bit i x ≡ x / 2 ^ i % 2
unfolding bit
bit-div zero x = omega (arith, pow-zero 2)
bit-div (suc i) x = rw (pow-succ' 2 i, bit-div i (x / 2), div-div-eq-div-mul x 2 (2 ^ i)) refl

pub each_bit : SetsEachBit bits other_bits
each_bit = record {
  isset = λ x i. ground (arith, bit-div i x, bit-lt i x);
  set_one = λ x i j. bit-one_bit i 1 x j (omega arith);
  clear_one = λ x i j. bit-one_bit i 0 x j (omega arith);
  set_field = λ x lb ub v j. bit-field lb ub v x j;
  clear_field = λ x lb ub j. ground (arith, bit-field lb ub 0 x j, bit-zero (j - lb));
}

abbrev pub off_state : Stepper
off_state = record {
  single_step_on_p = 0;
  hw = record { status = 0; bcr0 = 0; bvr0 = 64; wcr0 = 0 };
}

mismatch-on_off_example :
    (on : Stepper) × (off : Stepper) × (turn_mismatch_on bits other_bits off_state ≡ some on)
    × (turn_mismatch_off bits other_bits on ≡ some off)
    × (cp14_is_enabled bits other_bits on.hw ≡ true)
    × IsMismatching on.hw.bcr0
    × (on.hw.bvr0 ≡ 0)
    × IsTurnedOff on.hw.bcr0 off.hw.bcr0
    × (off.single_step_on_p ≡ 0)
mismatch-on_off_example = mismatch-on_off bits other_bits each_bit off_state refl (bit-zero 14)

abbrev stepping : Stepper
stepping = record {
  single_step_on_p = 1;
  hw = record { status = 0x8000; bcr0 = 0x4001e7; bvr0 = 64; wcr0 = 0 };
}

abbrev run_time : State (List ℕ)
run_time = record (state_at 0 set_alloc) { single_step_on_p = 1; breakpoint = 64 }

stands : Stands bits other_bits run_time stepping
unfolding Armed cp14_is_enabled bit
stands = (
  refl,
  refl,
  refl,
  (refl, (refl, (refl, refl), (refl, refl, refl, refl), (refl, refl), refl, (refl, refl))),
)

mismatch-Matches_example :
    Matches bits other_bits
      (mismatch_pc_set 8 run_time)
      (stepper (set_mismatch bits other_bits 8 stepping))
    × Matches bits other_bits (mismatch_on run_time) (turn_mismatch_on bits other_bits stepping)
    × Matches bits other_bits (mismatch_off run_time) (turn_mismatch_off bits other_bits stepping)
mismatch-Matches_example = mismatch-Matches bits other_bits each_bit 8 run_time stepping stands
