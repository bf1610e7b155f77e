-- ===== src/Safe/Uint128.antt =====
-- SimpleUint128 of include/safenumber/safenumber.h and the `simple_uint128_` functions of
-- src/safenumber/safenumber.cpp, each under the rest of its name. A half is a uint64_t.
pub mod Sums
pub mod Multi
pub mod Shifts
pub mod Divmod
pub mod Width
pub mod Quotient
pub mod Printing
use Prim.Native.Nat
use uvm.Base.{ℕ, ◌+◌, ◌-◌, ◌*◌, ◌/◌, ◌%◌, ◌^◌, ◌<◌, Bool, ◌&&◌, ◌||◌}
use uvm.Base.{if◌then◌else◌, ltb, leb, ◌==◌}
use uvm.Safe.Word.{add64, sub64, not64, shl64, shr64}

pub record SimpleUint128 : Type 0 where
  pub big : ℕ
  pub low : ℕ

pub record Uint128DivResult : Type 0 where
  pub div_result : SimpleUint128
  pub mod_result : SimpleUint128

-- Both halves are uint64_t, and the number they stand for.
abbrev pub IsUint128 : SimpleUint128 → Type 0
IsUint128 a = (a.big < 2 ^ 64) × (a.low < 2 ^ 64)

abbrev pub value : SimpleUint128 → ℕ
value a = a.big * 2 ^ 64 + a.low

-- The number below 2 ^ 128 that n leaves, by its halves.
abbrev pub word : ℕ → SimpleUint128
word n = record { big = n / 2 ^ 64; low = n % 2 ^ 64 }

abbrev pub create : ℕ → ℕ → SimpleUint128
create big low = record { big = big; low = low }

abbrev pub is_zero : SimpleUint128 → Bool
is_zero a = (a.big == 0) && (a.low == 0)

abbrev pub uint128_0 : SimpleUint128
uint128_0 = create 0 0

abbrev pub uint128_1 : SimpleUint128
uint128_1 = create 0 1

abbrev pub uint128_10 : SimpleUint128
uint128_10 = create 0 10

abbrev pub uint64_bigest : ℕ
uint64_bigest = 0xffff_ffff_ffff_ffff

unfoldable pub gt : SimpleUint128 → SimpleUint128 → Bool
gt a b = if a.big == b.big then ltb b.low a.low else ltb b.big a.big

unfoldable pub lt : SimpleUint128 → SimpleUint128 → Bool
lt a b = gt b a

unfoldable pub eq : SimpleUint128 → SimpleUint128 → Bool
eq a b = (a.big == b.big) && (a.low == b.low)

unfoldable pub ge : SimpleUint128 → SimpleUint128 → Bool
ge a b = gt a b || eq a b

unfoldable pub add : SimpleUint128 → SimpleUint128 → SimpleUint128
add a b =
    create (add64 (add64 a.big b.big) (if ltb (add64 a.low b.low) a.low then 1 else 0))
      (add64 a.low b.low)

-- the overload whose second number is a uint64_t
unfoldable pub add_word : SimpleUint128 → ℕ → SimpleUint128
add_word a b = add a (create 0 b)

unfoldable pub minus : SimpleUint128 → SimpleUint128 → SimpleUint128
minus a b =
    create (sub64 (sub64 a.big b.big) (if ltb a.low (sub64 a.low b.low) then 1 else 0))
      (sub64 a.low b.low)

unfoldable pub bit_reverse : SimpleUint128 → SimpleUint128
bit_reverse a = create (not64 a.big) (not64 a.low)

unfoldable pub neg : SimpleUint128 → SimpleUint128
neg a = add (create (not64 a.big) (not64 a.low)) uint128_1

unfoldable pub bit_and : SimpleUint128 → SimpleUint128 → SimpleUint128
bit_and a b = create (Nat.bit_and a.big b.big) (Nat.bit_and a.low b.low)

unfoldable pub bit_or : SimpleUint128 → SimpleUint128 → SimpleUint128
bit_or a b = create (Nat.bit_or a.big b.big) (Nat.bit_or a.low b.low)

unfoldable pub shift_left : SimpleUint128 → ℕ → SimpleUint128
shift_left a shift =
    if leb 128 shift
    then uint128_0
    else if shift == 64
    then create a.low 0
    else if shift == 0
    then a
    else if ltb shift 64
    then create (add64 (shl64 a.big shift) (shr64 a.low (64 - shift))) (shl64 a.low shift)
    else create (shl64 a.low (shift - 64)) 0

unfoldable pub shift_right : SimpleUint128 → ℕ → SimpleUint128
shift_right a shift =
    if leb 128 shift
    then uint128_0
    else if shift == 64
    then create 0 a.big
    else if shift == 0
    then a
    else if ltb shift 64
    then create (shr64 a.big shift) (add64 (shl64 a.big (64 - shift)) (shr64 a.low shift))
    else create 0 (shr64 a.big (shift - 64))
