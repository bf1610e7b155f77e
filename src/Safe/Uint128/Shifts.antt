-- ===== src/Safe/Uint128/Shifts.antt =====
-- The shifts of src/safenumber/safenumber.cpp on 128 bits are products and quotients by a power of
-- two.
use uvm.Base.{ℕ, ◌+◌, ◌-◌, ◌*◌, ◌/◌, ◌%◌, ◌^◌, ◌≤◌, ◌<◌, ◌≡◌, ap, ◌∙◌, arith, inl, inr, sym}
use uvm.Base.{◌⊎◌}
use native.Mathlib.Nat.{div-eq_of_lt, pow-le-pow_right, div-div-eq-div-mul}
use uvm.Base.Halves.{pow_split, pow_from, shift_cases, scaled_up, scaled_down}
use uvm.Base.Bits.{pow_pos}
use uvm.Safe.Uint128.{SimpleUint128, IsUint128, value, shift_left, shift_right}

module _ (a : SimpleUint128) (k : ℕ) (h : IsUint128 a) where
  abbrev IsShiftedLeft : Type 0
  IsShiftedLeft = IsUint128 (shift_left a k) × (value (shift_left a k) ≡ value a * 2 ^ k % 2 ^ 128)

  abbrev IsShiftedRight : Type 0
  IsShiftedRight = IsUint128 (shift_right a k) × (value (shift_right a k) ≡ value a / 2 ^ k)

  left_past : 128 ≤ k → IsShiftedLeft
  unfolding shift_left
  left_past p =
      let e : value a * 2 ^ k ≡ value a * 2 ^ (k - 128) * 2 ^ 128 =
        ap (λ n. value a * n) (pow_from k 128 p) ∙ grind arith in
      ground (arith, e)

  left_high : 64 < k → k < 128 → IsShiftedLeft
  unfolding shift_left
  left_high p q =
      let e : value a * 2 ^ k ≡ a.big * 2 ^ (k - 64) * 2 ^ 128 + a.low * 2 ^ (k - 64) * 2 ^ 64 =
        ap (λ n. value a * n) (pow_from k 64 (omega arith)) ∙ grind arith in
      ground (arith, e)

  left_low : 0 < k → k < 64 → IsShiftedLeft
  unfolding shift_left
  left_low p q =
      let e =
        scaled_up (2 ^ k) (2 ^ (64 - k)) (2 ^ 64) a.big a.low (pow_split 64 k (omega arith))
          (pow_pos k) (pow_pos (64 - k)) in
      ground (arith, e)

  right_past : 128 ≤ k → IsShiftedRight
  unfolding shift_right
  right_past p =
      let lt : value a < 2 ^ 128 = omega arith in
      let grows : 2 ^ 128 ≤ 2 ^ k = pow-le-pow_right {n = 2} (omega arith) p in
      let e : value a / 2 ^ k ≡ 0 = div-eq_of_lt (omega arith) in ground (arith, e)

  right_high : 64 < k → k < 128 → IsShiftedRight
  unfolding shift_right
  right_high p q =
      let e : value a / 2 ^ k ≡ value a / 2 ^ 64 / 2 ^ (k - 64) =
        ap (λ n. value a / n) (pow_from k 64 (omega arith) ∙ grind arith)
        ∙ sym (div-div-eq-div-mul (value a) (2 ^ 64) (2 ^ (k - 64))) in
      ground (arith, e)

  right_low : 0 < k → k < 64 → IsShiftedRight
  unfolding shift_right
  right_low p q =
      let e =
        scaled_down (2 ^ k) (2 ^ (64 - k)) (2 ^ 64) a.big a.low (pow_split 64 k (omega arith))
          (pow_pos k) (pow_pos (64 - k)) h.1 in
      ground (arith, e)

  left_at : (k ≡ 0) ⊎ (k ≡ 64) → IsShiftedLeft
  unfolding shift_left
  left_at (inl p) =
      let e : value a * 2 ^ k ≡ value a = ap (λ n. value a * 2 ^ n) p ∙ omega arith in
      ground (arith, e)
  left_at (inr p) =
      let e : value a * 2 ^ k ≡ value a * 2 ^ 64 = ap (λ n. value a * 2 ^ n) p in ground (arith, e)

  right_at : (k ≡ 0) ⊎ (k ≡ 64) → IsShiftedRight
  unfolding shift_right
  right_at (inl p) =
      let e : value a / 2 ^ k ≡ value a = ap (λ n. value a / 2 ^ n) p ∙ omega arith in
      ground (arith, e)
  right_at (inr p) =
      let e : value a / 2 ^ k ≡ value a / 2 ^ 64 = ap (λ n. value a / 2 ^ n) p in ground (arith, e)

-- A shift to the left multiplies by a power of two and keeps the low 128 bits.
pub shift_left_lem :
    (a : SimpleUint128) (k : ℕ)
    → IsUint128 a
    → IsUint128 (shift_left a k) × (value (shift_left a k) ≡ value a * 2 ^ k % 2 ^ 128)
shift_left_lem a k h =
    shift_cases 64 k (left_past a k h) (left_high a k h) (left_low a k h) (left_at a k h)

-- A shift to the right divides by a power of two.
pub shift_right_lem :
    (a : SimpleUint128) (k : ℕ)
    → IsUint128 a
    → IsUint128 (shift_right a k) × (value (shift_right a k) ≡ value a / 2 ^ k)
shift_right_lem a k h =
    shift_cases 64 k (right_past a k h) (right_high a k h) (right_low a k h) (right_at a k h)
