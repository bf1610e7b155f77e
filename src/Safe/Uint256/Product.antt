-- ===== src/Safe/Uint256/Product.antt =====
-- `simple_uint256_multi` of src/safenumber/safenumber.cpp against the product of the numbers.
use uvm.Base.{ℕ, zero, suc, ◌+◌, ◌-◌, ◌*◌, ◌/◌, ◌%◌, ◌^◌, ◌<◌, ◌≤◌, ◌≡◌, refl, ap, ap₂, ◌∙◌, arith}
use uvm.Base.Bits.{bit_and-mask, bit_or-disjoint, bit_or-zero}
use Prim.Native.Nat
use uvm.Safe.Uint128
use uvm.Safe.Uint128.{SimpleUint128, IsUint128, bit_and, bit_or, shift_left, add}
use uvm.Safe.Uint128.Multi
use uvm.Safe.Uint128.Sums
use uvm.Safe.Uint128.Shifts
use uvm.Safe.Uint256.{SimpleUint256, IsUint256, value}
use uvm.Safe.Uint256.Multi.{
  Columns, lower, upper, digit, products, add_rows, move_carry, combine, multi,
}

-- x is the 128-bit form of n, which is below m.
abbrev IsNumber : SimpleUint128 → ℕ → ℕ → Type 0
IsNumber x n m = IsUint128 x × (Uint128.value x ≡ n) × (n < m)

lower_number :
    {x : SimpleUint128} {n m : ℕ} → IsNumber x n m → IsNumber (lower x) (n % 2 ^ 64) (2 ^ 64)
unfolding bit_and
lower_number {x} {n} {m} (ok, e, lt) =
    let big = bit_and-mask 0 x.big in
    let low = bit_and-mask 64 x.low in
    ((omega (arith, big), omega (arith, low)), omega (arith, big, low), omega arith)

upper_number :
    {x : SimpleUint128} {n m : ℕ} → IsNumber x n m → IsNumber (upper x) (n / 2 ^ 64) (2 ^ 64)
upper_number {x} {n} {m} (ok, e, lt) =
    let (ok', e') = Uint128.Shifts.shift_right_lem x 64 ok in (ok', omega arith, omega arith)

add_number :
    {x y : SimpleUint128} {n m k l : ℕ}
    → IsNumber x n m
    → IsNumber y k l
    → m + l ≤ 2 ^ 128
    → IsNumber (add x y) (n + k) (m + l)
add_number {x} {y} (ok, e, lt) (ok', e', lt') room =
    let (ok'', e'') = Uint128.Sums.add_lem x y ok ok' in (ok'', omega arith, omega arith)

weaken : {x : SimpleUint128} {n m k : ℕ} → IsNumber x n m → m ≤ k → IsNumber x n k
weaken (ok, e, lt) h = (ok, e, omega arith)

module _ (p : ℕ → ℕ → SimpleUint128) (h : (i y : ℕ) → IsUint128 (p i y)) where
  abbrev at : ℕ → ℕ → ℕ
  at i y = Uint128.value (p i y)

  number : (i y : ℕ) → IsNumber (p i y) (at i y) (2 ^ 128)
  number i y = (h i y, refl, omega (arith, h i y))

  low : (i y : ℕ) → IsNumber (lower (p i y)) (at i y % 2 ^ 64) (2 ^ 64)
  low i y = lower_number (number i y)

  high : (i y : ℕ) → IsNumber (upper (p i y)) (at i y / 2 ^ 64) (2 ^ 64)
  high i y = upper_number (number i y)

  third :
      IsNumber (add_rows p).third32 (at 0 2 % 2 ^ 64 + at 0 3 / 2 ^ 64 + at 1 3 % 2 ^ 64) (2 ^ 67)
  unfolding add_rows
  third =
      weaken (add_number (add_number (low 0 2) (high 0 3) (omega arith)) (low 1 3) (omega arith))
        (omega arith)

  second :
      IsNumber
        (add_rows p).second32
        (at 0 1 % 2 ^ 64 + at 0 2 / 2 ^ 64 + (at 1 2 % 2 ^ 64 + at 1 3 / 2 ^ 64) + at 2 3 % 2 ^ 64)
        (2 ^ 67)
  unfolding add_rows
  second =
      let row1 = add_number (low 0 1) (high 0 2) (omega arith) in
      let row2 = add_number (low 1 2) (high 1 3) (omega arith) in
      weaken (add_number (add_number row1 row2 (omega arith)) (low 2 3) (omega arith)) (omega arith)

  first :
      IsNumber
        (add_rows p).first32
        (at 0 0 % 2 ^ 64
          + at 0 1 / 2 ^ 64
          + (at 1 1 % 2 ^ 64 + at 1 2 / 2 ^ 64)
          + (at 2 2 % 2 ^ 64 + at 2 3 / 2 ^ 64)
          + at 3 3 % 2 ^ 64)
        (2 ^ 67)
  unfolding add_rows
  first =
      let row1 = add_number (low 0 0) (high 0 1) (omega arith) in
      let row2 = add_number (low 1 1) (high 1 2) (omega arith) in
      let row3 = add_number (low 2 2) (high 2 3) (omega arith) in
      weaken
        (add_number (add_number (add_number row1 row2 (omega arith)) row3 (omega arith)) (low 3 3)
          (omega arith))
        (omega arith)

  -- The products that weigh less than 2 ^ 256.
  abbrev diagonals : ℕ
  diagonals =
      at 0 3
      + (at 0 2 + at 1 3) * 2 ^ 64
      + (at 0 1 + at 1 2 + at 2 3) * 2 ^ 128
      + (at 0 0 + at 1 1 + at 2 2 + at 3 3) * 2 ^ 192

abbrev total : Columns → ℕ
total c =
    Uint128.value c.fourth32
    + Uint128.value c.third32 * 2 ^ 64
    + Uint128.value c.second32 * 2 ^ 128
    + Uint128.value c.first32 * 2 ^ 192

abbrev IsBelow : SimpleUint128 → ℕ → Type 0
IsBelow x m = IsUint128 x × (Uint128.value x < m)

abbrev IsColumns : ℕ → Columns → Type 0
IsColumns m c =
    IsBelow c.fourth32 m × IsBelow c.third32 m × IsBelow c.second32 m × IsBelow c.first32 m

number_of : {x : SimpleUint128} {m : ℕ} → IsBelow x m → IsNumber x (Uint128.value x) m
number_of (ok, lt) = (ok, refl, lt)

below : {x : SimpleUint128} {n m : ℕ} → IsNumber x n m → IsBelow x m
below (ok, e, lt) = (ok, omega arith)

add_rows_lem :
    (p : ℕ → ℕ → SimpleUint128) (h : (i y : ℕ) → IsUint128 (p i y))
    → IsColumns (2 ^ 67) (add_rows p) × (total (add_rows p) % 2 ^ 256 ≡ diagonals p h % 2 ^ 256)
unfolding add_rows
add_rows_lem p h =
    let fourth : IsNumber (lower (p 0 3)) (at p h 0 3 % 2 ^ 64) (2 ^ 67) =
      weaken (low p h 0 3) (omega arith) in
    (
      (below fourth, below (third p h), below (second p h), below (first p h)),
      omega (arith, fourth.1, (third p h).1, (second p h).1, (first p h).1),
    )

move_carry_lem :
    (c : Columns)
    → IsColumns (2 ^ 67) c
    → IsColumns (2 ^ 64) (move_carry c) × (total (move_carry c) ≡ total c % 2 ^ 256)
unfolding move_carry
move_carry_lem c (h4, h3, h2, h1) =
    let fourth = number_of h4 in
    let third' = add_number (number_of h3) (upper_number fourth) (omega arith) in
    let second' = add_number (number_of h2) (upper_number third') (omega arith) in
    let first' = add_number (number_of h1) (upper_number second') (omega arith) in
    let d4 = lower_number fourth in
    let d3 = lower_number third' in
    let d2 = lower_number second' in
    let d1 = lower_number first' in
    ((below d4, below d3, below d2, below d1), omega (arith, d4.1, d3.1, d2.1, d1.1))

joined :
    (x y : SimpleUint128)
    → IsBelow x (2 ^ 64)
    → IsBelow y (2 ^ 64)
    → IsUint128 (bit_or (shift_left x 64) y)
      × (Uint128.value (bit_or (shift_left x 64) y) ≡ Uint128.value x * 2 ^ 64 + Uint128.value y)
unfolding bit_or shift_left
joined x y p q =
    let y0 : y.big ≡ 0 = omega arith in
    let big = ap (Nat.bit_or x.low) y0 ∙ bit_or-zero x.low in
    let low = bit_or-disjoint 64 0 y.low q.0.1 in
    ((omega (arith, big), omega (arith, low)), omega (arith, big, low))

combine_lem :
    (c : Columns) → IsColumns (2 ^ 64) c → IsUint256 (combine c) × (value (combine c) ≡ total c)
unfolding combine
combine_lem c (h4, h3, h2, h1) =
    let (ok_big, big) = joined c.first32 c.second32 h1 h2 in
    let (ok_low, low) = joined c.third32 c.fourth32 h3 h4 in
    ((ok_big, ok_low), omega (arith, big, low))

whole : (x : SimpleUint128) → IsUint128 x → IsNumber x (Uint128.value x) (2 ^ 128)
whole x h = (h, refl, omega arith)

digit_lem : (a : SimpleUint256) → IsUint256 a → (i : ℕ) → IsBelow (digit a i) (2 ^ 64)
digit_lem a h zero = below (upper_number (whole a.big h.0))
digit_lem a h (suc zero) = below (lower_number (whole a.big h.0))
digit_lem a h (suc (suc zero)) = below (upper_number (whole a.low h.1))
digit_lem a h (suc (suc (suc i))) = below (lower_number (whole a.low h.1))

abbrev digit_value : SimpleUint256 → ℕ → ℕ
digit_value a i = Uint128.value (digit a i)

value-digits :
    (a : SimpleUint256)
    → IsUint256 a
    → value a
      ≡ digit_value a 0 * 2 ^ 192
        + digit_value a 1 * 2 ^ 128
        + digit_value a 2 * 2 ^ 64
        + digit_value a 3
value-digits a h = omega (
  arith,
  (upper_number (whole a.big h.0)).1,
  (lower_number (whole a.big h.0)).1,
  (upper_number (whole a.low h.1)).1,
  (lower_number (whole a.low h.1)).1,
)

products_lem :
    (a b : SimpleUint256)
    → IsUint256 a
    → IsUint256 b
    → (i y : ℕ)
    → IsUint128 (products a b i y)
      × (Uint128.value (products a b i y) ≡ digit_value a (3 - i) * digit_value b y)
unfolding products
products_lem a b p q i y =
    let (ok, x) = digit_lem a p (3 - i) in
    let (ok', x') = digit_lem b q y in
    let (ok'', e) = Uint128.Multi.multi_lem (digit a (3 - i)) (digit b y) ok ok' in
    (ok'', e ∙ small _ _ x x')
  where
    small : (n m : ℕ) → n < 2 ^ 64 → m < 2 ^ 64 → n * m % 2 ^ 128 ≡ n * m
    small n m p q = let bound : n * m < 2 ^ 64 * 2 ^ 64 = grind arith in omega arith

product_of_digits :
    (a b c d e f g h : ℕ)
    → (a * 2 ^ 192 + b * 2 ^ 128 + c * 2 ^ 64 + d) * (e * 2 ^ 192 + f * 2 ^ 128 + g * 2 ^ 64 + h)
      ≡ d * h
        + (d * g + c * h) * 2 ^ 64
        + (d * f + c * g + b * h) * 2 ^ 128
        + (d * e + c * f + b * g + a * h) * 2 ^ 192
        + (a * g + b * f + c * e + (a * f + b * e) * 2 ^ 64 + a * e * 2 ^ 128) * 2 ^ 256
product_of_digits a b c d e f g h = grind arith

diagonals_lem :
    (a b : SimpleUint256) (p : IsUint256 a) (q : IsUint256 b)
    → diagonals (products a b) (λ i y. (products_lem a b p q i y).0) % 2 ^ 256
      ≡ value a * value b % 2 ^ 256
diagonals_lem a b p q =
    let at_digits = λ (i y : ℕ). (products_lem a b p q i y).1 in
    let parts = ap₂ ◌*◌ (value-digits a p) (value-digits b q) in
    omega (
      arith,
      parts,
      product_of_digits (digit_value a 0) (digit_value a 1) (digit_value a 2) (digit_value a 3)
          (digit_value b 0) (digit_value b 1) (digit_value b 2) (digit_value b 3),
      at_digits 0 0,
      at_digits 0 1,
      at_digits 0 2,
      at_digits 0 3,
      at_digits 1 1,
      at_digits 1 2,
      at_digits 1 3,
      at_digits 2 2,
      at_digits 2 3,
      at_digits 3 3,
    )

-- The product of two 256-bit numbers is the low 256 bits of the product of their values.
pub value-multi :
    (a b : SimpleUint256)
    → IsUint256 a
    → IsUint256 b
    → IsUint256 (multi a b) × (value (multi a b) ≡ value a * value b % 2 ^ 256)
unfolding multi
value-multi a b p q =
    let ok = λ (i y : ℕ). (products_lem a b p q i y).0 in
    let (small, sum) = add_rows_lem (products a b) ok in
    let (digits, carried) = move_carry_lem (add_rows (products a b)) small in
    let (ok', e) = combine_lem (move_carry (add_rows (products a b))) digits in
    (ok', e ∙ carried ∙ sum ∙ diagonals_lem a b p q)
