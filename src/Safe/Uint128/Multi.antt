-- ===== src/Safe/Uint128/Multi.antt =====
-- `simple_uint128_multi` and `simple_uint128_pow` of src/safenumber/safenumber.cpp: schoolbook
-- multiplication on digits of 32 bits, in the stages of the code.
use Prim.Native.Nat.{bit_and, bit_or}
use uvm.Base.{ℕ, zero, suc, ◌+◌, ◌-◌, ◌*◌, ◌%◌, ◌^◌, ◌<◌, ◌≡◌, ap, sym, ◌∙◌, arith}
use native.Mathlib.Nat.{pow-suc, pow-zero}
use uvm.Base.Bits.{bit_and-mask, bit_or-disjoint, %-*-%}
use uvm.Safe.Word.{add64, mul64, shl64, shr64}
use uvm.Safe.Uint128.{SimpleUint128, IsUint128, value, create, uint128_1}

-- `top` and `bottom`: the four digits, the highest first.
abbrev digit : SimpleUint128 → ℕ → ℕ
digit a zero = shr64 a.big 32
digit a (suc zero) = bit_and a.big 0xffff_ffff
digit a (suc (suc zero)) = shr64 a.low 32
digit a (suc (suc (suc i))) = bit_and a.low 0xffff_ffff

-- `products[i][y]`
unfoldable pub products : SimpleUint128 → SimpleUint128 → ℕ → ℕ → ℕ
products a b i y = mul64 (digit a (3 - i)) (digit b y)

pub record Columns : Type 0 where
  pub fourth32 : ℕ
  pub third32 : ℕ
  pub second32 : ℕ
  pub first32 : ℕ

abbrev mask32 : ℕ → ℕ
mask32 n = bit_and n 0xffff_ffff

-- the four rows, added up by columns
unfoldable pub add_rows : (ℕ → ℕ → ℕ) → Columns
add_rows p =
    let third32 = add64 (mask32 (p 0 2)) (shr64 (p 0 3) 32) in
    let second32 = add64 (mask32 (p 0 1)) (shr64 (p 0 2) 32) in
    let first32 = add64 (mask32 (p 0 0)) (shr64 (p 0 1) 32) in
    let third32' = add64 third32 (mask32 (p 1 3)) in
    let second32' = add64 second32 (add64 (mask32 (p 1 2)) (shr64 (p 1 3) 32)) in
    let first32' = add64 first32 (add64 (mask32 (p 1 1)) (shr64 (p 1 2) 32)) in
    let second32'' = add64 second32' (mask32 (p 2 3)) in
    let first32'' = add64 first32' (add64 (mask32 (p 2 2)) (shr64 (p 2 3) 32)) in
    record {
      fourth32 = mask32 (p 0 3);
      third32 = third32';
      second32 = second32'';
      first32 = add64 first32'' (mask32 (p 3 3));
    }

-- `move carry to next digit`, then `remove carry from current digit`
unfoldable pub move_carry : Columns → Columns
move_carry c =
    let third32 = add64 c.third32 (shr64 c.fourth32 32) in
    let second32 = add64 c.second32 (shr64 third32 32) in
    let first32 = add64 c.first32 (shr64 second32 32) in
    record {
      fourth32 = mask32 c.fourth32;
      third32 = mask32 third32;
      second32 = mask32 second32;
      first32 = mask32 first32;
    }

unfoldable pub combine : Columns → SimpleUint128
combine c = create (bit_or (shl64 c.first32 32) c.second32) (bit_or (shl64 c.third32 32) c.fourth32)

unfoldable pub multi : SimpleUint128 → SimpleUint128 → SimpleUint128
multi a b = combine (move_carry (add_rows (products a b)))

-- the overload whose second number is a uint64_t
unfoldable pub multi_word : SimpleUint128 → ℕ → SimpleUint128
multi_word a b = multi a (create 0 b)

-- `result` after p rounds of the loop
unfoldable pub pow : SimpleUint128 → ℕ → SimpleUint128
pow a zero = uint128_1
pow a (suc p) = multi (pow a p) a

-- A column holds a sum of digits, with no carry out of its 64 bits.
abbrev IsSmall : Columns → Type 0
IsSmall c =
    (c.fourth32 < 2 ^ 35) × (c.third32 < 2 ^ 35) × (c.second32 < 2 ^ 35) × (c.first32 < 2 ^ 35)

abbrev IsDigits : Columns → Type 0
IsDigits c =
    (c.fourth32 < 2 ^ 32) × (c.third32 < 2 ^ 32) × (c.second32 < 2 ^ 32) × (c.first32 < 2 ^ 32)

abbrev total : Columns → ℕ
total c = c.fourth32 + c.third32 * 2 ^ 32 + c.second32 * 2 ^ 64 + c.first32 * 2 ^ 96

mask32_lem : (n : ℕ) → mask32 n ≡ n % 2 ^ 32
mask32_lem n = bit_and-mask 32 n

ruleset masks = (arith, mask32_lem)

-- The products that weigh less than 2 ^ 128.
abbrev diagonals : (ℕ → ℕ → ℕ) → ℕ
diagonals p =
    p 0 3
    + (p 0 2 + p 1 3) * 2 ^ 32
    + (p 0 1 + p 1 2 + p 2 3) * 2 ^ 64
    + (p 0 0 + p 1 1 + p 2 2 + p 3 3) * 2 ^ 96

add_rows_lem :
    (p : ℕ → ℕ → ℕ)
    → ((i y : ℕ) → p i y < 2 ^ 64)
    → IsSmall (add_rows p) × (total (add_rows p) % 2 ^ 128 ≡ diagonals p % 2 ^ 128)
unfolding add_rows
add_rows_lem p h = omega (
  arith,
  h 0 0,
  h 0 1,
  h 0 2,
  h 0 3,
  h 1 1,
  h 1 2,
  h 1 3,
  h 2 2,
  h 2 3,
  h 3 3,
  mask32_lem (p 0 0),
  mask32_lem (p 0 1),
  mask32_lem (p 0 2),
  mask32_lem (p 0 3),
  mask32_lem (p 1 1),
  mask32_lem (p 1 2),
  mask32_lem (p 1 3),
  mask32_lem (p 2 2),
  mask32_lem (p 2 3),
  mask32_lem (p 3 3),
)

move_carry_lem :
    (c : Columns) → IsSmall c → IsDigits (move_carry c) × (total (move_carry c) ≡ total c % 2 ^ 128)
unfolding move_carry
move_carry_lem c h = omega (arith, masks)

combine_lem : (c : Columns) → IsDigits c → IsUint128 (combine c) × (value (combine c) ≡ total c)
unfolding combine
combine_lem c h =
    let first : shl64 c.first32 32 ≡ c.first32 * 2 ^ 32 = omega arith in
    let third : shl64 c.third32 32 ≡ c.third32 * 2 ^ 32 = omega arith in
    omega (
      arith,
      ap (λ n. bit_or n c.second32) first,
      ap (λ n. bit_or n c.fourth32) third,
      bit_or-disjoint 32 c.first32 c.second32 h.2,
      bit_or-disjoint 32 c.third32 c.fourth32 h.0,
    )

digit_bound : (a : SimpleUint128) → IsUint128 a → (i : ℕ) → digit a i < 2 ^ 32
digit_bound a h zero = omega arith
digit_bound a h (suc zero) = omega (arith, mask32_lem a.big)
digit_bound a h (suc (suc zero)) = omega arith
digit_bound a h (suc (suc (suc i))) = omega (arith, mask32_lem a.low)

-- A product of two digits has no carry out of its 64 bits.
digit-mul64 : (a b : ℕ) → a < 2 ^ 32 → b < 2 ^ 32 → mul64 a b ≡ a * b
digit-mul64 a b p q = let bound : a * b < 2 ^ 32 * 2 ^ 32 = grind arith in omega arith

products_lem :
    (a b : SimpleUint128)
    → IsUint128 a
    → IsUint128 b
    → (i y : ℕ) → products a b i y ≡ digit a (3 - i) * digit b y
unfolding products
products_lem a b p q i y = digit-mul64 _ _ (digit_bound a p (3 - i)) (digit_bound b q y)

products_bound :
    (a b : SimpleUint128) → IsUint128 a → IsUint128 b → (i y : ℕ) → products a b i y < 2 ^ 64
unfolding products
products_bound a b p q i y = omega arith

value-digits :
    (a : SimpleUint128)
    → value a ≡ digit a 0 * 2 ^ 96 + digit a 1 * 2 ^ 64 + digit a 2 * 2 ^ 32 + digit a 3
value-digits a = omega (arith, mask32_lem a.big, mask32_lem a.low)

product_of_digits :
    (a b c d e f g h : ℕ)
    → (a * 2 ^ 96 + b * 2 ^ 64 + c * 2 ^ 32 + d) * (e * 2 ^ 96 + f * 2 ^ 64 + g * 2 ^ 32 + h)
      ≡ d * h
        + (d * g + c * h) * 2 ^ 32
        + (d * f + c * g + b * h) * 2 ^ 64
        + (d * e + c * f + b * g + a * h) * 2 ^ 96
        + (a * g + b * f + c * e + (a * f + b * e) * 2 ^ 32 + a * e * 2 ^ 64) * 2 ^ 128
product_of_digits a b c d e f g h = grind arith

diagonals_lem :
    (a b : SimpleUint128)
    → IsUint128 a
    → IsUint128 b
    → diagonals (products a b) % 2 ^ 128 ≡ value a * value b % 2 ^ 128
diagonals_lem a b p q =
    let at = products_lem a b p q in
    rw (value-digits a, value-digits b, product_of_digits)
      (omega
        (arith, at 0 0, at 0 1, at 0 2, at 0 3, at 1 1, at 1 2, at 1 3, at 2 2, at 2 3, at 3 3))

-- The product of two 128-bit numbers is the low 128 bits of the product of their values.
pub multi_lem :
    (a b : SimpleUint128)
    → IsUint128 a
    → IsUint128 b
    → IsUint128 (multi a b) × (value (multi a b) ≡ value a * value b % 2 ^ 128)
unfolding multi
multi_lem a b p q =
    let (small, sum) = add_rows_lem (products a b) (products_bound a b p q) in
    let (digits, carried) = move_carry_lem (add_rows (products a b)) small in
    let (ok, e) = combine_lem (move_carry (add_rows (products a b))) digits in
    (ok, e ∙ carried ∙ sum ∙ diagonals_lem a b p q)

power_step : (v w r p : ℕ) → w ≡ v ^ p % 2 ^ 128 → r ≡ w * v % 2 ^ 128 → r ≡ v ^ suc p % 2 ^ 128
power_step v w r p e f =
    f
    ∙ ap (λ n. n * v % 2 ^ 128) e
    ∙ %-*-% (v ^ p) v (2 ^ 128) (omega arith)
    ∙ ap (λ n. n % 2 ^ 128) (sym (pow-suc v p))

-- A power of a 128-bit number is the low 128 bits of the power of its value.
pub pow_lem :
    (a : SimpleUint128) (p : ℕ)
    → IsUint128 a
    → IsUint128 (pow a p) × (value (pow a p) ≡ value a ^ p % 2 ^ 128)
unfolding pow
pow_lem a zero h =
    ((omega arith, omega arith), sym (ap (λ n. n % 2 ^ 128) (pow-zero (value a)) ∙ omega arith))
pow_lem a (suc p) h =
    let (ok, e) = pow_lem a p h in
    let (ok', e') = multi_lem (pow a p) a ok h in (ok', power_step (value a) _ _ p e e')
