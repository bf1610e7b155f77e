-- ===== src/Safe/Uint256.antt =====
-- SimpleUint256 of include/safenumber/safenumber.h and the `simple_uint256_` functions of
-- src/safenumber/safenumber.cpp, each under the rest of its name.
pub mod Sums
pub mod Multi
pub mod Product
pub mod Shifts
pub mod Divmod
pub mod Width
pub mod Steps
pub mod Quotient
pub mod Printing
use uvm.Base.{ℕ, ◌+◌, ◌-◌, ◌*◌, ◌/◌, ◌%◌, ◌^◌, ◌<◌, Bool, ◌&&◌, ◌||◌, if◌then◌else◌, ltb, leb, ◌==◌}
use uvm.Safe.Uint128
use uvm.Safe.Uint128.{SimpleUint128, IsUint128, uint128_0, uint128_1, uint128_10, uint64_bigest}

pub record SimpleUint256 : Type 0 where
  pub big : SimpleUint128
  pub low : SimpleUint128

pub record Uint256DivResult : Type 0 where
  pub div_result : SimpleUint256
  pub mod_result : SimpleUint256

-- Both halves are 128-bit numbers, and the number they stand for.
abbrev pub IsUint256 : SimpleUint256 → Type 0
IsUint256 a = IsUint128 a.big × IsUint128 a.low

abbrev pub value : SimpleUint256 → ℕ
value a = Uint128.value a.big * 2 ^ 128 + Uint128.value a.low

-- The number below 2 ^ 256 that n leaves, by its halves.
abbrev pub word : ℕ → SimpleUint256
word n = record { big = Uint128.word (n / 2 ^ 128); low = Uint128.word (n % 2 ^ 128) }

abbrev pub create : SimpleUint128 → SimpleUint128 → SimpleUint256
create big low = record { big = big; low = low }

abbrev pub is_zero : SimpleUint256 → Bool
is_zero a = Uint128.is_zero a.big && Uint128.is_zero a.low

abbrev pub uint256_0 : SimpleUint256
uint256_0 = create uint128_0 uint128_0

abbrev pub uint256_1 : SimpleUint256
uint256_1 = create uint128_0 uint128_1

abbrev pub uint256_10 : SimpleUint256
uint256_10 = create uint128_0 uint128_10

unfoldable pub gt : SimpleUint256 → SimpleUint256 → Bool
gt a b = if Uint128.eq a.big b.big then Uint128.gt a.low b.low else Uint128.gt a.big b.big

unfoldable pub eq : SimpleUint256 → SimpleUint256 → Bool
eq a b = Uint128.eq a.big b.big && Uint128.eq a.low b.low

unfoldable pub ge : SimpleUint256 → SimpleUint256 → Bool
ge a b = gt a b || eq a b

unfoldable pub add : SimpleUint256 → SimpleUint256 → SimpleUint256
add a b =
    let abig_plus_bbig = Uint128.add a.big b.big in
    let alow_plus_blow = Uint128.add a.low b.low in
    create (Uint128.add_word abig_plus_bbig (if Uint128.lt alow_plus_blow a.low then 1 else 0))
      alow_plus_blow

-- The borrow is the int -1, which the uint64_t parameter of the overload takes as 2 ^ 64 - 1.
unfoldable pub minus : SimpleUint256 → SimpleUint256 → SimpleUint256
minus a b =
    let abig_minus_bbig = Uint128.minus a.big b.big in
    let alow_minus_blow = Uint128.minus a.low b.low in
    create
      (Uint128.add_word abig_minus_bbig
        (if Uint128.gt alow_minus_blow a.low then 2 ^ 64 - 1 else 0))
      alow_minus_blow

unfoldable pub bit_and : SimpleUint256 → SimpleUint256 → SimpleUint256
bit_and a b = create (Uint128.bit_and a.big b.big) (Uint128.bit_and a.low b.low)

unfoldable pub bit_reverse : SimpleUint256 → SimpleUint256
bit_reverse a = create (Uint128.bit_reverse a.big) (Uint128.bit_reverse a.low)

unfoldable pub neg : SimpleUint256 → SimpleUint256
neg a = add (create (Uint128.bit_reverse a.big) (Uint128.bit_reverse a.low)) uint256_1

unfoldable pub shift_left : SimpleUint256 → ℕ → SimpleUint256
shift_left a shift =
    if leb 256 shift
    then uint256_0
    else if shift == 128
    then create a.low uint128_0
    else if shift == 0
    then a
    else if ltb shift 128
    then create
        (Uint128.add (Uint128.shift_left a.big shift) (Uint128.shift_right a.low (128 - shift)))
        (Uint128.shift_left a.low shift)
    else create (Uint128.shift_left a.low (shift - 128)) uint128_0

unfoldable pub shift_right : SimpleUint256 → ℕ → SimpleUint256
shift_right a shift =
    if leb 256 shift
    then uint256_0
    else if shift == 128
    then create uint128_0 a.big
    else if shift == 0
    then a
    else if ltb shift 128
    then create (Uint128.shift_right a.big shift)
        (Uint128.add (Uint128.shift_left a.big (128 - shift)) (Uint128.shift_right a.low shift))
    else create uint128_0 (Uint128.shift_right a.big (shift - 128))
