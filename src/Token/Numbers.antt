-- ===== src/Token/Numbers.antt =====
-- The numbers of the token contract: `is_integral` of src/native_contract/native_token_contract.cpp,
-- `std::stoll` as it is used there, and sums of `int64_t` with their wrap-around.
use uvm.Base.{ℕ, zero, suc, ◌+◌, ◌-◌, ◌*◌, ◌%◌, ◌^◌, Bool, true, false, ◌&&◌, ◌||◌, not}
use uvm.Base.{◌≡◌, arith, List, [], ◌∷◌, Option, none, some, if◌then◌else◌, ltb, leb, ◌==◌}
use uvm.Base.Int.{ℤ, pos, negsuc, ltb_ℤ, ◌≤ℤ◌}
use uvm.Cbor.Value.{Bytes, signed64}
use uvm.Token.Host.{Error, Result, ok, err, bad_argument, invalid_argument, out_of_range}

-- The int64_t of an integer, modulo 2 ^ 64.
unfoldable pub wrap64 : ℤ → ℤ
wrap64 (pos n) = signed64 (n % 2 ^ 64)
wrap64 (negsuc n) = signed64 (2 ^ 64 - 1 - n % 2 ^ 64)

-- The text up to its first zero byte, as `c_str` hands it to a C function.
unfoldable pub c_str : Bytes → Bytes
c_str [] = []
c_str (c ∷ cs) = if c == 0 then [] else c ∷ c_str cs

abbrev is_space : ℕ → Bool
is_space c = (leb 9 c && leb c 13) || c == 32

abbrev is_digit : ℕ → Bool
is_digit c = leb b'0' c && leb c b'9'

unfoldable skip_space : Bytes → Bytes
skip_space [] = []
skip_space (c ∷ cs) = if is_space c then skip_space cs else c ∷ cs

unfoldable read_digits : Bytes → ℕ → ℕ
read_digits [] n = n
read_digits (c ∷ cs) n = if is_digit c then read_digits cs (n * 10 + (c - b'0')) else n

unfoldable leading_number : Bytes → Option ℕ
unfolding read_digits
leading_number [] = none
leading_number (c ∷ cs) = if is_digit c then some (read_digits cs (c - b'0')) else none

abbrev to_positive : Option ℕ → Result ℤ
to_positive none = err invalid_argument
to_positive (some n) = if ltb n (2 ^ 63) then ok (pos n) else err out_of_range

abbrev to_negative : Option ℕ → Result ℤ
to_negative none = err invalid_argument
to_negative (some zero) = ok (pos 0)
to_negative (some (suc n)) = if ltb n (2 ^ 63) then ok (negsuc n) else err out_of_range

unfoldable signed_number : Bytes → Result ℤ
unfolding leading_number
signed_number [] = err invalid_argument
signed_number (c ∷ cs) =
    if c == b'-'
    then to_negative (leading_number cs)
    else if c == b'+'
    then to_positive (leading_number cs)
    else to_positive (leading_number (c ∷ cs))

-- `std::stoll`: white space, a sign and digits; what follows them is left.
unfoldable pub stoll : Bytes → Result ℤ
unfolding signed_number skip_space c_str
stoll s = signed_number (skip_space (c_str s))

unfoldable contains_byte : ℕ → Bytes → Bool
contains_byte b [] = false
contains_byte b (c ∷ cs) = if c == b then true else contains_byte b cs

abbrev is_empty {ℓ} : {A : Type ℓ} → List A → Bool
is_empty [] = true
is_empty (x ∷ xs) = false

to_positive-le_max : (o : Option ℕ) (n : ℤ) → to_positive o ≡ ok n → n ≤ℤ pos (2 ^ 63 - 1)
to_positive-le_max none n e = cc
to_positive-le_max (some k) n e = ground arith

to_negative-le_max : (o : Option ℕ) (n : ℤ) → to_negative o ≡ ok n → n ≤ℤ pos (2 ^ 63 - 1)
to_negative-le_max none n e = cc
to_negative-le_max (some zero) n e = ground arith
to_negative-le_max (some (suc k)) n e = ground arith

signed_number-le_max : (s : Bytes) (n : ℤ) → signed_number s ≡ ok n → n ≤ℤ pos (2 ^ 63 - 1)
unfolding signed_number
signed_number-le_max [] n e = cc
signed_number-le_max (c ∷ cs) n e = ground (
  arith,
  to_positive-le_max (leading_number cs) n,
  to_negative-le_max (leading_number cs) n,
  to_positive-le_max (leading_number (c ∷ cs)) n,
)

-- `std::stoll` gives an int64_t.
pub stoll-le_max : (s : Bytes) (n : ℤ) → stoll s ≡ ok n → n ≤ℤ pos (2 ^ 63 - 1)
unfolding stoll
stoll-le_max s n e = signed_number-le_max (skip_space (c_str s)) n e

-- The text that `std::strtod` leaves, by its C rules.
module _ (strtod_rest : Bytes → Bytes) where
  -- `is_numeric` and `is_integral`
  unfoldable pub is_numeric : Bytes → Bool
  unfolding c_str
  is_numeric number = is_empty (strtod_rest (c_str number))

  unfoldable pub is_integral : Bytes → Bool
  unfolding is_numeric contains_byte
  is_integral number = is_numeric number && not (contains_byte b'.' (c_str number))

  -- The checks on a number that an argument gives; each `throw_error` has the same start of its text
  -- but the test `<= 0` of `init_token`, whose error is given.
  unfoldable pub positive_number : Error → Bytes → Result ℤ
  unfolding is_integral stoll
  positive_number not_positive s =
      if is_integral s
      then (elim (stoll s) [
        | ok n ↦ if ltb_ℤ (pos 0) n then ok n else err not_positive
        | err e ↦ err e
      ])
      else err bad_argument

  pub positive_number-ok :
      (e : Error) (s : Bytes) (n : ℤ) → positive_number e s ≡ ok n → ltb_ℤ (pos 0) n ≡ true
  unfolding positive_number
  positive_number-ok e s n h = ground arith

  pub positive_number-le_max :
      (e : Error) (s : Bytes) (n : ℤ) → positive_number e s ≡ ok n → n ≤ℤ pos (2 ^ 63 - 1)
  unfolding positive_number
  positive_number-le_max e s n h = ground (arith, stoll-le_max s n)
