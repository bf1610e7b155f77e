-- ===== src/Safe/Uint256/Divmod.antt =====
-- `simple_uint256_bits` and `simple_uint256_divmod` of src/safenumber/safenumber.cpp.
use uvm.Base.{ℕ, zero, suc, ◌+◌, ◌%◌, ◌^◌, if◌then◌else◌, ◌&&◌, ◌||◌, not}
use uvm.Safe.Word.{Outcome, done, domain_error}
use uvm.Safe.Uint128
use uvm.Safe.Uint128.{SimpleUint128, uint128_1}
use uvm.Safe.Uint256.{SimpleUint256, Uint256DivResult, uint256_0, uint256_1, is_zero}
use uvm.Safe.Uint256.{shift_left, shift_right, add, minus, ge, bit_and}

-- The loop of `bits`: `out++` wraps as a uint8_t.
unfoldable pub count_bits : ℕ → SimpleUint128 → ℕ → ℕ
count_bits zero up out = out
count_bits (suc fuel) up out =
    let rest = count_bits fuel (Uint128.shift_right up 1) ((out + 1) % 2 ^ 8) in
    if Uint128.is_zero up then out else rest

unfoldable pub bits : SimpleUint256 → ℕ
bits a = if not (Uint128.is_zero a.big) then count_bits 128 a.big 128 else count_bits 128 a.low 0

abbrev pub make_uint256_div_result : SimpleUint256 → SimpleUint256 → Uint256DivResult
make_uint256_div_result d m = record { div_result = d; mod_result = m }

-- The next bit of the dividend enters the remainder.
unfoldable pub add_low_bit : SimpleUint256 → SimpleUint256 → SimpleUint256
add_low_bit tmp1 mod_result =
    if not (is_zero (bit_and tmp1 uint256_1)) then add mod_result uint256_1 else mod_result

unfoldable pub subtract_divisor : SimpleUint256 → SimpleUint256 → SimpleUint256 → Uint256DivResult
subtract_divisor b div_result mod_result =
    if ge mod_result b
    then make_uint256_div_result (add div_result uint256_1) (minus mod_result b)
    else make_uint256_div_result div_result mod_result

-- One round of the loop of `divmod`, with x = n + 1.
unfoldable pub div_step : SimpleUint256 → SimpleUint256 → ℕ → Uint256DivResult → Uint256DivResult
div_step a b n r =
    subtract_divisor b (shift_left r.div_result 1)
      (add_low_bit (shift_right a n) (shift_left r.mod_result 1))

unfoldable pub div_loop : SimpleUint256 → SimpleUint256 → ℕ → Uint256DivResult → Uint256DivResult
div_loop a b zero r = r
div_loop a b (suc n) r = div_loop a b n (div_step a b n r)

unfoldable pub divmod : SimpleUint256 → SimpleUint256 → Outcome Uint256DivResult
divmod a b =
    if is_zero b
    then domain_error
    else if Uint128.is_zero b.big && Uint128.eq b.low uint128_1
    then done (make_uint256_div_result a uint256_0)
    else if Uint128.eq a.big b.big && Uint128.eq a.low b.low
    then done (make_uint256_div_result uint256_1 uint256_0)
    else if Uint128.is_zero a.big && Uint128.is_zero a.low
        || (Uint128.lt a.big b.big || Uint128.eq a.big b.big && Uint128.lt a.low b.low)
    then done (make_uint256_div_result uint256_0 a)
    else done (div_loop a b (bits a) (make_uint256_div_result uint256_0 uint256_0))
