-- ===== src/Safe/Uint256/Quotient.antt =====
-- `simple_uint256_divmod` of src/safenumber/safenumber.cpp against the quotient and the remainder of
-- the numbers, where its difference borrows nothing and its count of bits does not wrap.
use uvm.Base.{ℕ, ◌+◌, ◌*◌, ◌/◌, ◌%◌, ◌^◌, ◌≤◌, ◌<◌, ◌≡◌, refl, ap, ap₂, sym, ◌∙◌, arith}
use uvm.Base.{ltb, ◌==◌, false, Bool-cases, inl, inr, if◌then◌else◌, ◌&&◌, ◌||◌}
use native.Mathlib.Nat.{div-eq_of_lt}
use uvm.Base.Bits.{split-/, split-%}
use uvm.Safe.Word.{Outcome, done}
use uvm.Safe.Uint128
use uvm.Safe.Uint128.{SimpleUint128, uint128_0, uint128_1}
use uvm.Safe.Uint128.Sums
use uvm.Safe.Uint256.{SimpleUint256, Uint256DivResult, IsUint256, value, word, create, is_zero}
use uvm.Safe.Uint256.{uint256_0, uint256_1}
use uvm.Safe.Uint256.Sums.{of_value}
use uvm.Safe.Uint256.Width.{bits_below, bits_top}
use uvm.Safe.Uint256.Steps.{one_lem, zero_lem, IsDivided, div_loop_lem}
use uvm.Safe.Uint256.Divmod.{make_uint256_div_result, div_loop, divmod, bits}

zero_test : (x : SimpleUint128) → Uint128.is_zero x ≡ (Uint128.value x == 0)
zero_test x = ground arith

less_halves :
    (x u y v : ℕ)
    → u < 2 ^ 128
    → v < 2 ^ 128
    → 0 < y * 2 ^ 128 + v
    → (x == 0) && (u == 0) || (ltb x y || (x == y) && ltb u v)
      ≡ ltb (x * 2 ^ 128 + u) (y * 2 ^ 128 + v)
less_halves x u y v p q pos = ground arith

-- The guards of `divmod` after the first, at the values.
abbrev first_cases : SimpleUint256 → SimpleUint256 → Outcome Uint256DivResult
first_cases a b =
    if value b == 1
    then done (make_uint256_div_result a uint256_0)
    else if value a == value b
    then done (make_uint256_div_result uint256_1 uint256_0)
    else if ltb (value a) (value b)
    then done (make_uint256_div_result uint256_0 a)
    else done (div_loop a b (bits a) (make_uint256_div_result uint256_0 uint256_0))

-- A division by a positive number tests for the divisor 1, for equal numbers and for a smaller
-- dividend before it comes to its loop.
divmod_cases :
    (a b : SimpleUint256) → IsUint256 a → IsUint256 b → 0 < value b → divmod a b ≡ first_cases a b
unfolding divmod
divmod_cases a b p q pos =
    let big = Uint128.Sums.order_lem a.big b.big p.0 q.0 in
    let low = Uint128.Sums.order_lem a.low b.low p.1 q.1 in
    let one = Uint128.Sums.order_lem b.low uint128_1 q.1 (omega arith, omega arith) in
    let nonzero : is_zero b ≡ false = ground arith in
    let is_one : Uint128.is_zero b.big && Uint128.eq b.low uint128_1 ≡ (value b == 1) =
      ground (arith, one.2) in
    let same : Uint128.eq a.big b.big && Uint128.eq a.low b.low ≡ (value a == value b) =
      ground (arith, big.2, low.2) in
    let less : Uint128.is_zero a.big && Uint128.is_zero a.low
          || (Uint128.lt a.big b.big || Uint128.eq a.big b.big && Uint128.lt a.low b.low)
        ≡ ltb (value a) (value b) =
      rw (zero_test a.big, zero_test a.low, big.1, big.2, low.1)
        (less_halves (Uint128.value a.big) (Uint128.value a.low) (Uint128.value b.big)
          (Uint128.value b.low) (omega arith) (omega arith) (omega arith)) in
    rw (nonzero, is_one, same, less, divmod) refl

divmod_total :
    (a b : SimpleUint256)
    → IsUint256 a
    → IsUint256 b
    → 0 < value b
    → value b < 2 ^ 127
    → value a < 2 ^ 255
    → (r : Uint256DivResult) × (first_cases a b ≡ done r) × IsDivided (value a) (value b) r
divmod_total a b p q pos small room = elim (Bool-cases (value b == 1)) [
  | inl t ↦
      let b1 : value b ≡ 1 = ground (arith, t) in
      (
        make_uint256_div_result a uint256_0,
        rw t refl,
        (p, zero_lem.0, rw b1 (omega arith), omega arith),
      )
  | inr f ↦ elim (Bool-cases (value a == value b)) [
    | inl t ↦ (
      make_uint256_div_result uint256_1 uint256_0,
      rw (f, t) refl,
      (one_lem.0, zero_lem.0, ground (arith, t), omega arith),
    )
    | inr f' ↦ elim (Bool-cases (ltb (value a) (value b))) [
      | inl t ↦ (
        make_uint256_div_result uint256_0 a,
        rw (f, f', t) refl,
        (zero_lem.0, p, omega arith, ground (arith, t)),
      )
      | inr f'' ↦
          let start = make_uint256_div_result uint256_0 uint256_0 in
          let none_left = div-eq_of_lt (bits_below a p room) in
          (
            div_loop a b (bits a) start,
            rw (f, f', f'') refl,
            div_loop_lem a b (bits a) start p q pos small
                (zero_lem.0, zero_lem.0, omega arith, pos),
          )
    ]
  ]
]

-- Where the dividend is below 2 ^ 255 and the divisor below 2 ^ 127, a division of 256-bit numbers
-- ends with the quotient and the remainder of their values.
pub divmod-word :
    (a b : SimpleUint256)
    → IsUint256 a
    → IsUint256 b
    → 0 < value b
    → value b < 2 ^ 127
    → value a < 2 ^ 255
    → divmod a b
      ≡ done
          (record { div_result = word (value a / value b); mod_result = word (value a % value b) })
divmod-word a b p q pos small room =
    let (r, e, (ok, ok', eq, lt)) = divmod_total a b p q pos small room in
    let d : value r.div_result ≡ value a / value b =
      sym (ap (λ n. n / value b) eq ∙ split-/ _ _ (value b) lt) in
    let m : value r.mod_result ≡ value a % value b =
      sym (ap (λ n. n % value b) eq ∙ split-% _ _ (value b) lt) in
    divmod_cases a b p q pos
    ∙ e
    ∙ ap₂ (λ x y. done (make_uint256_div_result x y)) (of_value _ _ ok d) (of_value _ _ ok' m)

-- For a dividend of 256 binary digits the count wraps to 0: where the divisor is above 1 and below
-- the dividend, the quotient and the remainder are both 0.
pub divmod_wraps :
    (a b : SimpleUint256)
    → IsUint256 a
    → IsUint256 b
    → 2 ≤ value b
    → value b < value a
    → 2 ^ 255 ≤ value a
    → divmod a b ≡ done (record { div_result = uint256_0; mod_result = uint256_0 })
unfolding div_loop
divmod_wraps a b p q pos less top =
    let f : value b == 1 ≡ false = ground arith in
    let f' : value a == value b ≡ false = ground arith in
    let f'' : ltb (value a) (value b) ≡ false = ground arith in
    divmod_cases a b p q (omega arith) ∙ rw (f, f', f'', bits_top a p top) refl

-- Division by a number of 64 bits.
pub divmod_small :
    (a : SimpleUint256) (b : ℕ)
    → IsUint256 a
    → 0 < b
    → b < 2 ^ 64
    → value a < 2 ^ 255
    → divmod a (create uint128_0 (Uint128.create 0 b))
      ≡ done (record { div_result = word (value a / b); mod_result = word (value a % b) })
divmod_small a b p pos h room =
    let e : value (create uint128_0 (Uint128.create 0 b)) ≡ b = omega arith in
    let ok : IsUint256 (create uint128_0 (Uint128.create 0 b)) =
      ((omega arith, omega arith), (omega arith, h)) in
    divmod-word a _ p ok (omega arith) (omega arith) room
    ∙ ap (λ n. done (make_uint256_div_result (word (value a / n)) (word (value a % n)))) e
