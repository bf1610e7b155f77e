-- ===== src/Safe/Uint256/Steps.antt =====
-- The loop of `simple_uint256_divmod` of src/safenumber/safenumber.cpp, for divisors below 2 ^ 127:
-- its difference then borrows nothing.
use uvm.Base.{ℕ, zero, suc, ◌+◌, ◌*◌, ◌/◌, ◌%◌, ◌^◌, ◌≤◌, ◌<◌, ◌≡◌, refl, ap₂, subst, ◌∙◌, arith}
use uvm.Base.{true, false, leb, leb→le, Bool-cases, inl, inr}
use native.Mathlib.Nat.{div-le_self}
use uvm.Base.Bits.{bit_and-mask, le_mul}
use uvm.Safe.Uint128
use uvm.Safe.Uint128.{SimpleUint128, uint128_1}
use uvm.Safe.Uint128.Quotient.{quotient_suc, quotient_double, half_lem}
use uvm.Safe.Uint256.{SimpleUint256, Uint256DivResult, IsUint256, value}
use uvm.Safe.Uint256.{uint256_0, uint256_1, shift_left, shift_right, add, minus, ge, bit_and}
use uvm.Safe.Uint256.Sums.{order_lem, add_lem, value-minus}
use uvm.Safe.Uint256.Shifts.{shift_left_lem, shift_right_lem}
use uvm.Safe.Uint256.Divmod.{add_low_bit, subtract_divisor, div_step, div_loop}

pub one_lem : IsUint256 uint256_1 × (value uint256_1 ≡ 1)
one_lem = (((omega arith, omega arith), (omega arith, omega arith)), refl)

pub zero_lem : IsUint256 uint256_0 × (value uint256_0 ≡ 0)
zero_lem = (((omega arith, omega arith), (omega arith, omega arith)), refl)

-- The digits of `v` above the n lowest are divided: the quotient and the remainder so far.
abbrev pub IsDivided : ℕ → ℕ → Uint256DivResult → Type 0
IsDivided v b r =
    IsUint256 r.div_result
    × IsUint256 r.mod_result
    × (v ≡ value r.div_result * b + value r.mod_result)
    × (value r.mod_result < b)

add_low_bit_lem :
    (s m : SimpleUint256)
    → IsUint256 s
    → IsUint256 m
    → value m + 1 < 2 ^ 256
    → IsUint256 (add_low_bit s m) × (value (add_low_bit s m) ≡ value m + value s % 2)
unfolding add_low_bit bit_and Uint128.bit_and
add_low_bit_lem s m p q room =
    let (ok, e) = add_lem m uint256_1 q one_lem.0 in
    ground (
      arith,
      bit_and-mask 0 s.big.big,
      bit_and-mask 0 s.big.low,
      bit_and-mask 0 s.low.big,
      bit_and-mask 1 s.low.low,
    )

subtract_divisor_lem :
    (b d m : SimpleUint256)
    → IsUint256 b
    → IsUint256 d
    → IsUint256 m
    → value d + 1 < 2 ^ 256
    → value b < 2 ^ 127
    → value m < value b + value b
    → IsDivided (value d * value b + value m) (value b) (subtract_divisor b d m)
unfolding subtract_divisor
subtract_divisor_lem b d m p q r room small h =
    let (ok, e) = add_lem d uint256_1 q one_lem.0 in
    let (ok', e') = value-minus m b r p in
    let order = order_lem m b r p in
    elim (Bool-cases (leb (value b) (value m))) [
      | inl t ↦
          let at : ge m b ≡ true = order.2 ∙ t in
          let le = leb→le (value b) (value m) t in
          let d' : value (add d uint256_1) ≡ value d + 1 = omega arith in
          let m' : value (minus m b) + value b ≡ value m = ground (arith, e', le) in
          rw (at, subtract_divisor)
            (ok, ok', quotient_suc (value d) (value b) (value m) _ _ d' m', omega arith)
      | inr t ↦
          let at : ge m b ≡ false = order.2 ∙ t in
          rw (at, subtract_divisor) (q, r, refl, ground (arith, t))
    ]

div_step_lem :
    (a b : SimpleUint256) (n : ℕ) (r : Uint256DivResult)
    → IsUint256 a
    → IsUint256 b
    → 0 < value b
    → value b < 2 ^ 127
    → IsDivided (value a / 2 ^ suc n) (value b) r
    → IsDivided (value a / 2 ^ n) (value b) (div_step a b n r)
unfolding div_step
div_step_lem a b n r p q pos small h =
    let (ok_d, d) = shift_left_lem r.div_result 1 h.0 in
    let (ok_m, m) = shift_left_lem r.mod_result 1 h.1 in
    let (ok_s, s) = shift_right_lem a n p in
    let v = value a / 2 ^ n in
    let bound : v ≤ value a = div-le_self (value a) (2 ^ n) in
    let half : v / 2 ≡ value r.div_result * value b + value r.mod_result =
      half_lem (value a) n ∙ h.2 in
    let grows : value r.div_result ≤ value r.div_result * value b =
      le_mul (value r.div_result) (value b) pos in
    let d' : value (shift_left r.div_result 1) ≡ value r.div_result * 2 = omega arith in
    let m' : value (shift_left r.mod_result 1) ≡ value r.mod_result * 2 = omega arith in
    let (ok, e) =
      add_low_bit_lem (shift_right a n) (shift_left r.mod_result 1) ok_s ok_m (omega arith) in
    let whole =
      quotient_double (value r.div_result) (value b) (value r.mod_result) v _ _ half d'
        (e ∙ ap₂ (λ x y. x + y % 2) m' s) in
    subst (λ k. IsDivided k (value b) (div_step a b n r)) whole
      (subtract_divisor_lem b _ _ q ok_d ok (omega arith) small (omega arith))

pub div_loop_lem :
    (a b : SimpleUint256) (n : ℕ) (r : Uint256DivResult)
    → IsUint256 a
    → IsUint256 b
    → 0 < value b
    → value b < 2 ^ 127
    → IsDivided (value a / 2 ^ n) (value b) r
    → IsDivided (value a) (value b) (div_loop a b n r)
unfolding div_loop
div_loop_lem a b zero r p q pos small h =
    let e : value a / 2 ^ 0 ≡ value a = omega arith in subst (λ n. IsDivided n (value b) r) e h
div_loop_lem a b (suc n) r p q pos small h =
    div_loop_lem a b n (div_step a b n r) p q pos small (div_step_lem a b n r p q pos small h)
