-- ===== src/Safe/Number/Arithmetic.antt =====
-- `safe_number_add`, `_neg`, `_minus`, `_multiply`, `_div`, `_idiv`, `_mod`, `_abs` and `_to_int64` of
-- src/safenumber/safenumber.cpp, and `safe_number_create` of an int64_t.
use uvm.Base.{
  ℕ, zero, suc, ◌+◌, ◌-◌, ◌%◌, ◌^◌, Bool, true, false, not, ◌&&◌, ◌||◌, if◌then◌else◌, ltb, leb,
}
use uvm.Base.Int.{ℤ, pos, negsuc, ◌-ℤ◌}
use uvm.Safe.Word.{Outcome, done, no_fuel, ◌>>=◌}
use uvm.Safe.Uint128
use uvm.Safe.Uint128.{SimpleUint128, uint128_0, add_word}
use uvm.Safe.Uint128.Multi.{multi_word}
use uvm.Safe.Uint256
use uvm.Safe.Uint256.{SimpleUint256, uint256_10}
use uvm.Safe.Number.{SafeNumber, uint64_pow, safe_number_zero, create_invalid, largest_x, create}

-- `a != b` of two bools
abbrev pub differ : Bool → Bool → Bool
differ true b = not b
differ false b = b

unfoldable pub is_zero : SafeNumber → Bool
is_zero a = a.valid && Uint128.is_zero a.x

abbrev pub max : ℕ → ℕ → ℕ
max a b = if ltb a b then b else a

-- The signed sum of `safe_number_add`, as `result_sign` and `result_x`.
unfoldable pub signed_sum : Bool → SimpleUint128 → Bool → SimpleUint128 → Bool × SimpleUint128
signed_sum s ax t bx =
    if differ s t
    then if Uint128.gt ax bx
      then (s, Uint128.minus ax bx)
      else if Uint128.eq ax bx
      then (true, uint128_0)
      else (t, Uint128.minus bx ax)
    else (s, Uint128.add ax bx)

unfoldable pub aligned_sum : SafeNumber → SafeNumber → Outcome SafeNumber
aligned_sum a b =
    let max_e = max a.e b.e in
    let ax = multi_word a.x (uint64_pow 10 (max_e - a.e)) in
    let bx = multi_word b.x (uint64_pow 10 (max_e - b.e)) in
    let (result_sign, result_x) = signed_sum a.sign ax b.sign bx in
    create result_sign result_x max_e

unfoldable pub add : SafeNumber → SafeNumber → Outcome SafeNumber
add a b =
    if not a.valid || not b.valid
    then done a
    else if is_zero b
    then done a
    else if is_zero a
    then done b
    else aligned_sum a b

unfoldable pub neg : SafeNumber → Outcome SafeNumber
neg a = if not a.valid then done a else if is_zero a then done a else create (not a.sign) a.x a.e

unfoldable pub minus : SafeNumber → SafeNumber → Outcome SafeNumber
minus a b = neg b >>= λ b'. add a b'

unfoldable pub abs : SafeNumber → Outcome SafeNumber
abs a = if a.sign then done a else neg a

-- The loop of `safe_number_multiply`: a product past 128 bits loses digits and places.
unfoldable pub fit_product : SimpleUint256 → ℕ → Outcome (SimpleUint256 × ℕ)
fit_product abx zero = done (abx, zero)
fit_product abx (suc result_e) =
    let rest = Uint256.Divmod.divmod abx uint256_10 >>= λ r. fit_product r.div_result result_e in
    if Uint128.is_zero abx.big then done (abx, suc result_e) else rest

unfoldable pub multiply : SafeNumber → SafeNumber → Outcome SafeNumber
multiply a b =
    let product =
      Uint256.Multi.multi (Uint256.create uint128_0 a.x) (Uint256.create uint128_0 b.x) in
    let fitted = fit_product product (a.e + b.e) >>= λ (abx, result_e).
    create (not (differ a.sign b.sign)) abx.low result_e in
    if not a.valid || not b.valid
    then done a
    else if is_zero a || is_zero b
    then done safe_number_zero
    else fitted

-- The loop of `safe_number_div`, whose body runs at least once: re + 1 rounds are done, and `re` is
-- below `places` where another follows, which is 32, and 16 in `safe_number_div_old`.
unfoldable pub div_digits :
    ℕ → ℕ → SimpleUint256 → SimpleUint256 → SimpleUint128 → ℕ → Outcome (SimpleUint128 × ℕ)
div_digits places zero big_a big_b rx re = no_fuel
div_digits places (suc fuel) big_a big_b rx re = Uint256.Divmod.divmod big_a big_b >>= λ r.
    let rx' = Uint128.add (multi_word rx 10) r.div_result.low in
    let big_a' = Uint256.Multi.multi r.mod_result uint256_10 in
    let rest = div_digits places fuel big_a' big_b rx' (re + 1) in
    if ltb re places && Uint128.lt rx' largest_x && not (Uint256.is_zero big_a')
    then rest
    else done (rx', re)

-- The end of `safe_number_div`: `re += extra_e` where that is not negative.
unfoldable pub place_quotient : Bool → ℕ → ℕ → SimpleUint128 → ℕ → Outcome SafeNumber
place_quotient sign a_e b_e rx re =
    if leb b_e (re + a_e)
    then create sign rx (re + a_e - b_e)
    else create sign (multi_word rx (uint64_pow 10 (b_e - a_e - re))) 0

-- The body that `safe_number_div` and `safe_number_div_old` share.
unfoldable pub div_to : ℕ → SafeNumber → SafeNumber → Outcome SafeNumber
div_to places a b =
    let quotient =
      div_digits places (places + 1) (Uint256.create uint128_0 a.x) (Uint256.create uint128_0 b.x)
        uint128_0 0
      >>= λ (rx, re). place_quotient (not (differ a.sign b.sign)) a.e b.e rx re in
    if not a.valid || not b.valid
    then done a
    else if is_zero a
    then done safe_number_zero
    else if is_zero b
    then done create_invalid
    else quotient

unfoldable pub div : SafeNumber → SafeNumber → Outcome SafeNumber
div a b = div_to 32 a b

unfoldable pub div_old : SafeNumber → SafeNumber → Outcome SafeNumber
div_old a b = div_to 16 a b

-- `(static_cast<int64_t>(low) << 1) >> 1`: the low 63 bits, with the highest of them as the sign.
unfoldable pub drop_top_bit : ℕ → ℤ
drop_top_bit low =
    if ltb (low % 2 ^ 63) (2 ^ 62) then pos (low % 2 ^ 63) else negsuc (2 ^ 63 - low % 2 ^ 63 - 1)

abbrev pub with_sign : Bool → ℤ → ℤ
with_sign sign n = if sign then n else pos 0 -ℤ n

unfoldable pub to_int64 : SafeNumber → Outcome ℤ
to_int64 a =
    let whole = Uint128.Divmod.divmod a.x (Uint128.create 0 (uint64_pow 10 a.e)) >>= λ r.
    done (with_sign a.sign (drop_top_bit r.div_result.low)) in
    if not a.valid
    then done (pos 0)
    else if is_zero a
    then done (pos 0)
    else if ltb 0 a.e
    then whole
    else done (with_sign a.sign (drop_top_bit a.x.low))

unfoldable pub to_int64_floor : SafeNumber → Outcome ℤ
to_int64_floor a =
    let whole = Uint128.Divmod.divmod a.x (Uint128.create 0 (uint64_pow 10 a.e)) >>= λ r.
    let tmp = drop_top_bit r.div_result.low in
    if Uint128.is_zero r.mod_result
    then done (with_sign a.sign tmp)
    else done (if a.sign then tmp else pos 0 -ℤ tmp -ℤ pos 1) in
    if not a.valid
    then done (pos 0)
    else if is_zero a
    then done (pos 0)
    else if ltb 0 a.e
    then whole
    else done (with_sign a.sign (drop_top_bit a.x.low))

-- `safe_number_create` of an int64_t
unfoldable pub create_int64 : ℤ → Outcome SafeNumber
create_int64 (pos n) = create true (Uint128.create 0 n) 0
create_int64 (negsuc n) = create false (Uint128.create 0 (suc n)) 0

unfoldable pub idiv : SafeNumber → SafeNumber → Outcome SafeNumber
idiv a b = div a b >>= λ div_result. to_int64 div_result >>= λ div_result_int.
    if div_result.sign then create_int64 div_result_int else create_int64 (div_result_int -ℤ pos 1)

unfoldable pub mod_of : SafeNumber → SafeNumber → Outcome SafeNumber
mod_of a b = idiv a b >>= λ div_result. multiply b div_result >>= λ product. minus a product
