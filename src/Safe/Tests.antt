-- ===== src/Safe/Tests.antt =====
-- The theorems on the wide integers and the decimals of src/safenumber/safenumber.cpp at concrete
-- numbers, and runs of the code at some more.
use uvm.Base.{
  ℕ, ◌+◌, ◌-◌, ◌*◌, ◌/◌, ◌%◌, ◌^◌, ◌≤◌, ◌≡◌, refl, arith, true, false, not, inr, length, [], ◌∷◌,
}
use uvm.Cbor.Value.{Bytes}
use uvm.Base.Int.{negsuc, ◌+ℤ◌, ◌-ℤ◌, ltb_ℤ}
use uvm.Safe.Word.{done}
use uvm.Safe.Digits.{read_digits}
use uvm.Safe.Uint128
use uvm.Safe.Uint128.{SimpleUint128, IsUint128}
use uvm.Safe.Uint256
use uvm.Safe.Uint256.{SimpleUint256, IsUint256}
use uvm.Safe.Number
use uvm.Safe.Number.{SafeNumber, valid_number}
use uvm.Safe.Number.Truncation.{IsCompressed, IsTruncated}
use uvm.Safe.Number.Exact.{signed_units, IsDecimal}
use uvm.Safe.Number.Arithmetic.{differ}

-- 2 ^ 100 + 7 and 2 ^ 70 + 3, whose product has more than 128 bits
abbrev wide : SimpleUint128
wide = Uint128.word (2 ^ 100 + 7)

abbrev other : SimpleUint128
other = Uint128.word (2 ^ 70 + 3)

wide-IsUint128 : IsUint128 wide
wide-IsUint128 = (omega arith, omega arith)

other-IsUint128 : IsUint128 other
other-IsUint128 = (omega arith, omega arith)

multi128_example :
    IsUint128 (Uint128.Multi.multi wide other)
    × (Uint128.value (Uint128.Multi.multi wide other)
        ≡ Uint128.value wide * Uint128.value other % 2 ^ 128)
multi128_example = Uint128.Multi.multi_lem wide other wide-IsUint128 other-IsUint128

divmod128_example :
    Uint128.Divmod.divmod wide other
    ≡ done (record {
      div_result = Uint128.word (Uint128.value wide / Uint128.value other);
      mod_result = Uint128.word (Uint128.value wide % Uint128.value other);
    })
divmod128_example = Uint128.Quotient.divmod_lem wide other wide-IsUint128 other-IsUint128

to_string128_example :
    (s : Bytes) × (Uint128.Printing.to_string wide 10 40 ≡ done s)
    × (read_digits 10 0 s ≡ Uint128.value wide)
    × (40 ≤ length s)
to_string128_example =
    Uint128.Printing.to_string_lem wide 10 40 (omega arith) (omega arith) wide-IsUint128

-- 2 ^ 200 + 9, 2 ^ 90 + 5 and 2 ^ 255 + 1
abbrev wide256 : SimpleUint256
wide256 = Uint256.word (2 ^ 200 + 9)

abbrev other256 : SimpleUint256
other256 = Uint256.word (2 ^ 90 + 5)

abbrev top256 : SimpleUint256
top256 = Uint256.word (2 ^ 255 + 1)

wide256-IsUint256 : IsUint256 wide256
wide256-IsUint256 = ((omega arith, omega arith), (omega arith, omega arith))

other256-IsUint256 : IsUint256 other256
other256-IsUint256 = ((omega arith, omega arith), (omega arith, omega arith))

top256-IsUint256 : IsUint256 top256
top256-IsUint256 = ((omega arith, omega arith), (omega arith, omega arith))

multi256_example :
    IsUint256 (Uint256.Multi.multi wide256 other256)
    × (Uint256.value (Uint256.Multi.multi wide256 other256)
        ≡ Uint256.value wide256 * Uint256.value other256 % 2 ^ 256)
multi256_example = Uint256.Product.value-multi wide256 other256 wide256-IsUint256 other256-IsUint256

divmod256_example :
    Uint256.Divmod.divmod wide256 other256
    ≡ done (record {
      div_result = Uint256.word (Uint256.value wide256 / Uint256.value other256);
      mod_result = Uint256.word (Uint256.value wide256 % Uint256.value other256);
    })
divmod256_example =
    Uint256.Quotient.divmod-word wide256 other256 wide256-IsUint256 other256-IsUint256 (omega arith)
      (omega arith) (omega arith)

divmod_wraps_example :
    Uint256.Divmod.divmod top256 other256
    ≡ done (record { div_result = Uint256.uint256_0; mod_result = Uint256.uint256_0 })
divmod_wraps_example =
    Uint256.Quotient.divmod_wraps top256 other256 top256-IsUint256 other256-IsUint256 (omega arith)
      (omega arith) (omega arith)

-- 12.5, -3.25 and 2 ^ 62
abbrev some_number : SafeNumber
some_number = valid_number true (Uint128.create 0 125) 1

abbrev debt : SafeNumber
debt = valid_number false (Uint128.create 0 325) 2

abbrev too_large : SafeNumber
too_large = valid_number true (Uint128.create 0 (2 ^ 62)) 0

some_number-IsDecimal : IsDecimal some_number
some_number-IsDecimal = (refl, (omega arith, omega arith), omega arith)

debt-IsDecimal : IsDecimal debt
debt-IsDecimal = (refl, (omega arith, omega arith), omega arith)

some_number-IsCompressed : IsCompressed some_number
some_number-IsCompressed = (refl, (omega arith, omega arith), omega arith, inr (inr (omega arith)))

debt-IsCompressed : IsCompressed debt
debt-IsCompressed = (refl, (omega arith, omega arith), omega arith, inr (inr (omega arith)))

abbrev long_number : SafeNumber
long_number = valid_number true (Uint128.create 1 0) 18

compress_number_example :
    (n : SafeNumber) × (p : ℕ) × (Number.compress_number long_number ≡ done n)
    × IsTruncated long_number n p
compress_number_example =
    Number.Truncation.compress_number_lem long_number refl (omega arith, omega arith)

add_exact_example :
    (n : SafeNumber) × (Number.Arithmetic.add some_number debt ≡ done n)
    × IsDecimal n
    × (n.e ≤ 2)
    × (signed_units 2 n ≡ signed_units 2 some_number +ℤ signed_units 2 debt)
add_exact_example =
    Number.Sum.add_exact some_number debt 2 some_number-IsDecimal debt-IsDecimal (omega arith)
      (omega arith) (omega arith)

minus_exact_example :
    (n : SafeNumber) × (Number.Arithmetic.minus some_number debt ≡ done n)
    × IsDecimal n
    × (n.e ≤ 2)
    × (signed_units 2 n ≡ signed_units 2 some_number -ℤ signed_units 2 debt)
minus_exact_example =
    Number.Difference.minus_exact some_number debt 2 some_number-IsDecimal debt-IsDecimal
      (omega arith) (omega arith) (omega arith)

gt_example :
    Number.Comparison.gt some_number debt
    ≡ done (ltb_ℤ (signed_units 2 debt) (signed_units 2 some_number))
gt_example =
    Number.Order.gt_lem some_number debt some_number-IsDecimal debt-IsDecimal (inr (omega arith))

eq_example :
    (Number.Comparison.eq some_number debt ≡ true
      → signed_units 2 some_number ≡ signed_units 2 debt)
    × (signed_units 2 some_number ≡ signed_units 2 debt
        → Number.Comparison.eq some_number debt ≡ true)
eq_example =
    Number.Equality.eq_lem some_number debt some_number-IsCompressed debt-IsCompressed (omega arith)
      (omega arith)

multiply_example :
    (n : SafeNumber) × (Number.Arithmetic.multiply some_number debt ≡ done n)
    × Number.Product.IsProduct n (not (differ true false)) (125 * 325) (1 + 2)
multiply_example =
    Number.Product.multiply_lem some_number debt some_number-IsDecimal debt-IsDecimal (omega arith)

to_int64_wraps_example : Number.Arithmetic.to_int64 too_large ≡ done (negsuc (2 ^ 63 - 2 ^ 62 - 1))
to_int64_wraps_example =
    Number.Whole.to_int64_wraps too_large (refl, (omega arith, omega arith), omega arith) refl refl
      (omega arith) (omega arith)

div_example :
    Number.Division.IsQuotient 32 (Number.Arithmetic.div some_number debt) some_number debt
    × Number.Division.IsQuotient 16 (Number.Arithmetic.div_old some_number debt) some_number debt
div_example =
    Number.Division.div_lem some_number debt some_number-IsDecimal debt-IsDecimal (omega arith)
      (omega arith) (omega arith)

-- "-012.50"
create_of_string_example :
    (n : SafeNumber) × (p : ℕ) × (Number.Text.create_of_string (
        Number.Reading.signed_text false
          (Number.Reading.number_text (48 ∷ 49 ∷ 50 ∷ []) (53 ∷ 48 ∷ [])))
      ≡ done n)
    × IsTruncated (valid_number false (Uint128.word 1250) 2) n p
create_of_string_example =
    Number.Reading.create_of_string-number_text false (48 ∷ 49 ∷ 50 ∷ []) (53 ∷ 48 ∷ [])
      (refl, refl, omega arith, omega arith)
