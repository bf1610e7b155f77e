-- ===== src/Safe/Uint256/Shifts.antt =====
-- The shifts of src/safenumber/safenumber.cpp on 256 bits are products and quotients by a power of
-- two.
use uvm.Base.{ℕ, ◌+◌, ◌-◌, ◌*◌, ◌/◌, ◌%◌, ◌^◌, ◌≤◌, ◌<◌, ◌≡◌, ap, ◌∙◌, arith, inl, inr, sym, ◌⊎◌}
use native.Mathlib.Nat.{div-eq_of_lt, pow-le-pow_right, div-div-eq-div-mul}
use uvm.Base.Halves.{pow_split, pow_from, shift_cases, scaled_up, scaled_down}
use uvm.Base.Bits.{pow_pos}
use uvm.Safe.Uint128
use uvm.Safe.Uint128.{uint128_0}
use uvm.Safe.Uint128.Sums
use uvm.Safe.Uint128.Shifts
use uvm.Safe.Uint256.{SimpleUint256, IsUint256, value, shift_left, shift_right}

module _ (a : SimpleUint256) (k : ℕ) (h : IsUint256 a) where
  abbrev big : ℕ
  big = Uint128.value a.big

  abbrev low : ℕ
  low = Uint128.value a.low

  abbrev IsShiftedLeft : Type 0
  IsShiftedLeft = IsUint256 (shift_left a k) × (value (shift_left a k) ≡ value a * 2 ^ k % 2 ^ 256)

  abbrev IsShiftedRight : Type 0
  IsShiftedRight = IsUint256 (shift_right a k) × (value (shift_right a k) ≡ value a / 2 ^ k)

  left_past : 256 ≤ k → IsShiftedLeft
  unfolding shift_left
  left_past p =
      let e : value a * 2 ^ k ≡ value a * 2 ^ (k - 256) * 2 ^ 256 =
        ap (λ n. value a * n) (pow_from k 256 p) ∙ grind arith in
      ground (arith, e)

  left_high : 128 < k → k < 256 → IsShiftedLeft
  unfolding shift_left
  left_high p q =
      let e : value a * 2 ^ k ≡ big * 2 ^ (k - 128) * 2 ^ 256 + low * 2 ^ (k - 128) * 2 ^ 128 =
        ap (λ n. value a * n) (pow_from k 128 (omega arith)) ∙ expand big low (2 ^ (k - 128)) in
      let l = Uint128.Shifts.shift_left_lem a.low (k - 128) h.1 in ground (arith, e, l)
    where
      expand : (x y z : ℕ) → (x * 2 ^ 128 + y) * (z * 2 ^ 128) ≡ x * z * 2 ^ 256 + y * z * 2 ^ 128
      expand x y z = grind arith

  left_low : 0 < k → k < 128 → IsShiftedLeft
  unfolding shift_left
  left_low p q =
      let l = Uint128.Shifts.shift_left_lem a.big k h.0 in
      let r = Uint128.Shifts.shift_right_lem a.low (128 - k) h.1 in
      let l' = Uint128.Shifts.shift_left_lem a.low k h.1 in
      let s = Uint128.Sums.add_lem _ _ l.0 r.0 in
      let e =
        scaled_up (2 ^ k) (2 ^ (128 - k)) (2 ^ 128) big low (pow_split 128 k (omega arith))
          (pow_pos k) (pow_pos (128 - k)) in
      ground (arith, l, r, l', s, e)

  right_past : 256 ≤ k → IsShiftedRight
  unfolding shift_right
  right_past p =
      let lt : value a < 2 ^ 256 = omega arith in
      let grows : 2 ^ 256 ≤ 2 ^ k = pow-le-pow_right {n = 2} (omega arith) p in
      let e : value a / 2 ^ k ≡ 0 = div-eq_of_lt (omega arith) in ground (arith, e)

  right_high : 128 < k → k < 256 → IsShiftedRight
  unfolding shift_right
  right_high p q =
      let e : value a / 2 ^ k ≡ value a / 2 ^ 128 / 2 ^ (k - 128) =
        ap (λ n. value a / n) (pow_from k 128 (omega arith) ∙ grind arith)
        ∙ sym (div-div-eq-div-mul (value a) (2 ^ 128) (2 ^ (k - 128))) in
      let top : value a / 2 ^ 128 ≡ big = omega arith in
      let r = Uint128.Shifts.shift_right_lem a.big (k - 128) h.0 in
      ground (arith, e, r, ap (λ n. n / 2 ^ (k - 128)) top)

  right_low : 0 < k → k < 128 → IsShiftedRight
  unfolding shift_right
  right_low p q =
      let r = Uint128.Shifts.shift_right_lem a.big k h.0 in
      let l = Uint128.Shifts.shift_left_lem a.big (128 - k) h.0 in
      let r' = Uint128.Shifts.shift_right_lem a.low k h.1 in
      let s = Uint128.Sums.add_lem _ _ l.0 r'.0 in
      let bound : low < 2 ^ 128 = omega arith in
      let e =
        scaled_down (2 ^ k) (2 ^ (128 - k)) (2 ^ 128) big low (pow_split 128 k (omega arith))
          (pow_pos k) (pow_pos (128 - k)) bound in
      ground (arith, l, r, r', s, e)

  left_at : (k ≡ 0) ⊎ (k ≡ 128) → IsShiftedLeft
  unfolding shift_left
  left_at (inl p) =
      let e : value a * 2 ^ k ≡ value a = ap (λ n. value a * 2 ^ n) p ∙ omega arith in
      ground (arith, e)
  left_at (inr p) =
      let e : value a * 2 ^ k ≡ value a * 2 ^ 128 = ap (λ n. value a * 2 ^ n) p in ground (arith, e)

  right_at : (k ≡ 0) ⊎ (k ≡ 128) → IsShiftedRight
  unfolding shift_right
  right_at (inl p) =
      let e : value a / 2 ^ k ≡ value a = ap (λ n. value a / 2 ^ n) p ∙ omega arith in
      ground (arith, e)
  right_at (inr p) =
      let e : value a / 2 ^ k ≡ value a / 2 ^ 128 = ap (λ n. value a / 2 ^ n) p in ground (arith, e)

-- A shift to the left multiplies by a power of two and keeps the low 256 bits.
pub shift_left_lem :
    (a : SimpleUint256) (k : ℕ)
    → IsUint256 a
    → IsUint256 (shift_left a k) × (value (shift_left a k) ≡ value a * 2 ^ k % 2 ^ 256)
shift_left_lem a k h =
    shift_cases 128 k (left_past a k h) (left_high a k h) (left_low a k h) (left_at a k h)

-- A shift to the right divides by a power of two.
pub shift_right_lem :
    (a : SimpleUint256) (k : ℕ)
    → IsUint256 a
    → IsUint256 (shift_right a k) × (value (shift_right a k) ≡ value a / 2 ^ k)
shift_right_lem a k h =
    shift_cases 128 k (right_past a k h) (right_high a k h) (right_low a k h) (right_at a k h)
