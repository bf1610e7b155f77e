-- ===== src/Safe/Uint128/Divmod.antt =====
-- `simple_uint128_bits` and `simple_uint128_divmod` of src/safenumber/safenumber.cpp.
use uvm.Base.{ℕ, zero, suc, ◌+◌, ◌/◌, ◌%◌, ◌^◌}
use uvm.Base.{if◌then◌else◌, ltb, ◌==◌, ◌&&◌, ◌||◌, not}
use uvm.Safe.Word.{Outcome, done, domain_error}
use uvm.Safe.Uint128.{SimpleUint128, Uint128DivResult, uint128_0, uint128_1}
use uvm.Safe.Uint128.{shift_left, shift_right, add, minus, ge, bit_and}

-- The loop of `bits`: `out++` wraps as a uint8_t.
unfoldable pub count_bits : ℕ → ℕ → ℕ → ℕ
count_bits zero up out = out
count_bits (suc fuel) up out =
    let rest = count_bits fuel (up / 2) ((out + 1) % 2 ^ 8) in if up == 0 then out else rest

unfoldable pub bits : SimpleUint128 → ℕ
bits a = if a.big == 0 then count_bits 64 a.low 0 else count_bits 64 a.big 64

abbrev pub make_uint128_div_result : SimpleUint128 → SimpleUint128 → Uint128DivResult
make_uint128_div_result d m = record { div_result = d; mod_result = m }

-- The next bit of the dividend enters the remainder.
unfoldable pub add_low_bit : SimpleUint128 → SimpleUint128 → SimpleUint128
add_low_bit tmp1 mod_result =
    let tmp2 = bit_and tmp1 uint128_1 in
    if not (tmp2.big == 0) || not (tmp2.low == 0) then add mod_result uint128_1 else mod_result

unfoldable pub subtract_divisor : SimpleUint128 → SimpleUint128 → SimpleUint128 → Uint128DivResult
subtract_divisor b div_result mod_result =
    if ge mod_result b
    then make_uint128_div_result (add div_result uint128_1) (minus mod_result b)
    else make_uint128_div_result div_result mod_result

-- One round of the loop of `divmod`, with x = n + 1.
unfoldable pub div_step : SimpleUint128 → SimpleUint128 → ℕ → Uint128DivResult → Uint128DivResult
div_step a b n r =
    subtract_divisor b (shift_left r.div_result 1)
      (add_low_bit (shift_right a n) (shift_left r.mod_result 1))

unfoldable pub div_loop : SimpleUint128 → SimpleUint128 → ℕ → Uint128DivResult → Uint128DivResult
div_loop a b zero r = r
div_loop a b (suc n) r = div_loop a b n (div_step a b n r)

unfoldable pub divmod : SimpleUint128 → SimpleUint128 → Outcome Uint128DivResult
divmod a b =
    if (b.big == 0) && (b.low == 0)
    then domain_error
    else if (b.big == 0) && (b.low == 1)
    then done (make_uint128_div_result a uint128_0)
    else if (a.big == b.big) && (a.low == b.low)
    then done (make_uint128_div_result uint128_1 uint128_0)
    else if (a.big == 0) && (a.low == 0) || (ltb a.big b.big || (a.big == b.big) && ltb a.low b.low)
    then done (make_uint128_div_result uint128_0 a)
    else done (div_loop a b (bits a) (make_uint128_div_result uint128_0 uint128_0))
