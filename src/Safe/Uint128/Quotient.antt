-- ===== src/Safe/Uint128/Quotient.antt =====
-- `simple_uint128_divmod` of src/safenumber/safenumber.cpp against the quotient and the remainder of
-- the numbers.
use uvm.Base.{Bool}
use uvm.Base.{
  ℕ, zero, suc, ◌+◌, ◌*◌, ◌/◌, ◌%◌, ◌^◌, ◌≤◌, ◌<◌, ◌≡◌, refl, ap, ap₂, sym, subst, ◌∙◌, arith, inl,
  inr,
}
use uvm.Base.{true, false, leb, Bool-cases, leb→le, if◌then◌else◌, ltb, ◌==◌, ◌&&◌, ◌||◌}
use native.Mathlib.Nat.{div-div-eq-div-mul, pow-suc, div-le_self, div-eq_of_lt}
use uvm.Base.Bits.{split-/, split-%, bit_and-mask, le_mul}
use uvm.Safe.Word.{done, domain_error}
use uvm.Safe.Uint128.{
  SimpleUint128, Uint128DivResult, IsUint128, value, word, create, uint128_0, uint128_1,
}
use uvm.Safe.Uint128.{shift_left, shift_right, add, minus, ge, bit_and}
use uvm.Safe.Uint128.Sums.{of_value, order_lem, add_lem, minus_lem}
use uvm.Safe.Uint128.Shifts.{shift_left_lem, shift_right_lem}
use uvm.Safe.Uint128.Width.{bits_lem}
use uvm.Safe.Uint128.Divmod.{
  make_uint128_div_result, add_low_bit, subtract_divisor, div_step, div_loop, divmod, bits,
}

-- The digits of `v` above the n lowest are divided: the quotient and the remainder so far.
abbrev IsDivided : ℕ → ℕ → Uint128DivResult → Type 0
IsDivided v b r =
    IsUint128 r.div_result
    × IsUint128 r.mod_result
    × (v ≡ value r.div_result * b + value r.mod_result)
    × (value r.mod_result < b)

add_low_bit_lem :
    (s m : SimpleUint128)
    → IsUint128 s
    → IsUint128 m
    → value m + 1 < 2 ^ 128
    → IsUint128 (add_low_bit s m) × (value (add_low_bit s m) ≡ value m + value s % 2)
unfolding add_low_bit bit_and
add_low_bit_lem s m p q room =
    let (ok, e) = add_lem m uint128_1 q (omega arith, omega arith) in
    ground (arith, bit_and-mask 0 s.big, bit_and-mask 1 s.low)

pub quotient_suc : (d b m d' m' : ℕ) → d' ≡ d + 1 → m' + b ≡ m → d * b + m ≡ d' * b + m'
quotient_suc d b m d' m' e f =
    let g : (d + 1) * b ≡ d * b + b = grind arith in omega (arith, g, ap (λ n. n * b) e)

subtract_divisor_lem :
    (b d m : SimpleUint128)
    → IsUint128 b
    → IsUint128 d
    → IsUint128 m
    → value d + 1 < 2 ^ 128
    → value m < value b + value b
    → IsDivided (value d * value b + value m) (value b) (subtract_divisor b d m)
unfolding subtract_divisor
subtract_divisor_lem b d m p q r room h =
    let (ok, e) = add_lem d uint128_1 q (omega arith, omega arith) in
    let (ok', e') = minus_lem m b r p in
    let order = order_lem m b r p in
    elim (Bool-cases (leb (value b) (value m))) [
      | inl t ↦
          let at : ge m b ≡ true = order.3 ∙ t in
          let le = leb→le (value b) (value m) t in
          let d' : value (add d uint128_1) ≡ value d + 1 = omega arith in
          let m' : value (minus m b) + value b ≡ value m = omega arith in
          rw (at, subtract_divisor)
            (ok, ok', quotient_suc (value d) (value b) (value m) _ _ d' m', omega arith)
      | inr t ↦
          let at : ge m b ≡ false = order.3 ∙ t in
          rw (at, subtract_divisor) (q, r, refl, ground (arith, t))
    ]

pub quotient_double :
    (d b m v d' m' : ℕ) → v / 2 ≡ d * b + m → d' ≡ d * 2 → m' ≡ m * 2 + v % 2 → d' * b + m' ≡ v
quotient_double d b m v d' m' half e f =
    let double : d * 2 * b ≡ 2 * (d * b) = grind arith in omega (arith, ap (λ k. k * b) e, double)

pub half_lem : (v n : ℕ) → v / 2 ^ n / 2 ≡ v / 2 ^ suc n
half_lem v n = div-div-eq-div-mul v (2 ^ n) 2 ∙ ap (λ k. v / k) (sym (pow-suc 2 n))

div_step_lem :
    (a b : SimpleUint128) (n : ℕ) (r : Uint128DivResult)
    → IsUint128 a
    → IsUint128 b
    → 0 < value b
    → IsDivided (value a / 2 ^ suc n) (value b) r
    → IsDivided (value a / 2 ^ n) (value b) (div_step a b n r)
unfolding div_step
div_step_lem a b n r p q pos h =
    let (ok_d, d) = shift_left_lem r.div_result 1 h.0 in
    let (ok_m, m) = shift_left_lem r.mod_result 1 h.1 in
    let (ok_s, s) = shift_right_lem a n p in
    let v = value a / 2 ^ n in
    let bound : v ≤ value a = div-le_self (value a) (2 ^ n) in
    let half : v / 2 ≡ value r.div_result * value b + value r.mod_result =
      half_lem (value a) n ∙ h.2 in
    let small : value r.div_result ≤ value r.div_result * value b =
      le_mul (value r.div_result) (value b) pos in
    let d' : value (shift_left r.div_result 1) ≡ value r.div_result * 2 = omega arith in
    let m' : value (shift_left r.mod_result 1) ≡ value r.mod_result * 2 = omega arith in
    let (ok, e) =
      add_low_bit_lem (shift_right a n) (shift_left r.mod_result 1) ok_s ok_m (omega arith) in
    let whole =
      quotient_double (value r.div_result) (value b) (value r.mod_result) v _ _ half d'
        (e ∙ ap₂ (λ x y. x + y % 2) m' s) in
    subst (λ k. IsDivided k (value b) (div_step a b n r)) whole
      (subtract_divisor_lem b _ _ q ok_d ok (omega arith) (omega arith))

div_loop_lem :
    (a b : SimpleUint128) (n : ℕ) (r : Uint128DivResult)
    → IsUint128 a
    → IsUint128 b
    → 0 < value b
    → IsDivided (value a / 2 ^ n) (value b) r
    → IsDivided (value a) (value b) (div_loop a b n r)
unfolding div_loop
div_loop_lem a b zero r p q pos h =
    let e : value a / 2 ^ 0 ≡ value a = omega arith in subst (λ n. IsDivided n (value b) r) e h
div_loop_lem a b (suc n) r p q pos h =
    div_loop_lem a b n (div_step a b n r) p q pos (div_step_lem a b n r p q pos h)

-- The last guard of `divmod`.
abbrev is_less : SimpleUint128 → SimpleUint128 → Bool
is_less a b =
    (a.big == 0) && (a.low == 0) || (ltb a.big b.big || (a.big == b.big) && ltb a.low b.low)

-- Division by a positive number ends with a quotient and a remainder.
divmod_total :
    (a b : SimpleUint128)
    → IsUint128 a
    → IsUint128 b
    → 0 < value b
    → (r : Uint128DivResult) × (divmod a b ≡ done r) × IsDivided (value a) (value b) r
unfolding divmod
divmod_total a b p q pos = elim (Bool-cases ((b.big == 0) && (b.low == 1))) [
  | inl t ↦
      let b1 : value b ≡ 1 = ground (arith, t) in
      (
        make_uint128_div_result a uint128_0,
        rw (b_pos, t, divmod) refl,
        (p, (omega arith, omega arith), rw b1 (omega arith), omega arith),
      )
  | inr f ↦ elim (Bool-cases ((a.big == b.big) && (a.low == b.low))) [
    | inl t ↦ (
      make_uint128_div_result uint128_1 uint128_0,
      rw (b_pos, f, t, divmod) refl,
      ((omega arith, omega arith), (omega arith, omega arith), ground (arith, t), omega arith),
    )
    | inr f' ↦ elim (Bool-cases (is_less a b)) [
      | inl t ↦ (
        make_uint128_div_result uint128_0 a,
        rw (b_pos, f, f', t, divmod) refl,
        ((omega arith, omega arith), p, omega arith, ground (arith, t, pos)),
      )
      | inr f'' ↦
          let start = make_uint128_div_result uint128_0 uint128_0 in
          let (width, le) = bits_lem a p in
          let none_left = div-eq_of_lt width.0 in
          (
            div_loop a b (bits a) start,
            rw (b_pos, f, f', f'', divmod) refl,
            div_loop_lem a b (bits a) start p q pos
                ((omega arith, omega arith), (omega arith, omega arith), omega arith, pos),
          )
    ]
  ]
]
  where
    b_pos : (b.big == 0) && (b.low == 0) ≡ false
    b_pos = ground arith

-- A division of 128-bit numbers ends with the quotient and the remainder of their values, or, by
-- zero, with the exception.
pub divmod_lem :
    (a b : SimpleUint128)
    → IsUint128 a
    → IsUint128 b
    → divmod a b ≡ (
        if value b == 0
        then domain_error
        else done (record {
          div_result = word (value a / value b);
          mod_result = word (value a % value b);
        }))
unfolding divmod
divmod_lem a b p q = elim (Bool-cases (value b == 0)) [
  | inl t ↦
      let zero : (b.big == 0) && (b.low == 0) ≡ true = ground (arith, t) in
      rw (t, zero, divmod) refl
  | inr f ↦
      let pos : 0 < value b = ground (arith, f) in
      let (r, e, (ok, ok', eq, lt)) = divmod_total a b p q pos in
      let d : value r.div_result ≡ value a / value b =
        sym (ap (λ n. n / value b) eq ∙ split-/ _ _ (value b) lt) in
      let m : value r.mod_result ≡ value a % value b =
        sym (ap (λ n. n % value b) eq ∙ split-% _ _ (value b) lt) in
      rw f (
        e
        ∙ ap₂ (λ x y. done (make_uint128_div_result x y)) (of_value _ _ ok d) (of_value _ _ ok' m))
]

pub divmod_pos :
    (a b : SimpleUint128)
    → IsUint128 a
    → IsUint128 b
    → 0 < value b
    → divmod a b
      ≡ done
          (record { div_result = word (value a / value b); mod_result = word (value a % value b) })
divmod_pos a b p q pos =
    let nonzero : value b == 0 ≡ false = ground arith in divmod_lem a b p q ∙ rw nonzero refl

-- Division by a number of one half.
pub divmod_small :
    (a : SimpleUint128) (b : ℕ)
    → IsUint128 a
    → 0 < b
    → b < 2 ^ 64
    → divmod a (create 0 b)
      ≡ done (record { div_result = word (value a / b); mod_result = word (value a % b) })
divmod_small a b p pos h =
    let e : value (create 0 b) ≡ b = omega arith in
    divmod_pos a (create 0 b) p (omega arith, h) (omega arith)
    ∙ ap (λ n. done (make_uint128_div_result (word (value a / n)) (word (value a % n)))) e
