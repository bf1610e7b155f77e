-- ===== src/Safe/Number.antt =====
-- SafeNumber of include/safenumber/safenumber.h, and `compress_number`, `safe_number_create`, the
-- sums and the comparisons of src/safenumber/safenumber.cpp, each under the rest of its name.
pub mod Compress
pub mod Truncation
pub mod Arithmetic
pub mod Exact
pub mod Sum
pub mod Difference
pub mod Comparison
pub mod Order
pub mod Equality
pub mod Product
pub mod Whole
pub mod LongDivision
pub mod Division
pub mod Quota
pub mod Rests
pub mod Text
pub mod Reading
use uvm.Base.{
  ℕ, zero, suc, ◌+◌, ◌-◌, ◌*◌, ◌^◌, ◌<◌, Bool, true, false, not, ◌&&◌, ◌||◌, if◌then◌else◌, ltb,
  ◌==◌,
}
use uvm.Safe.Word.{Outcome, done, ◌>>=◌}
use uvm.Safe.Uint128
use uvm.Safe.Uint128.{SimpleUint128, uint128_0, uint128_1, uint128_10}
use uvm.Safe.Uint128.Multi.{multi, multi_word}
use uvm.Safe.Uint128.Divmod.{divmod}

pub record SafeNumber : Type 0 where
  pub valid : Bool
  pub sign : Bool
  pub x : SimpleUint128
  pub e : ℕ

-- Only powers of ten are asked for, up to 10 ^ 16 on numbers with e ≤ 16: these are the table's
-- entries, or doubles that hold them exactly.
abbrev pub uint64_pow : ℕ → ℕ → ℕ
uint64_pow a p = a ^ p

abbrev pub valid_number : Bool → SimpleUint128 → ℕ → SafeNumber
valid_number sign x e = record { valid = true; sign = sign; x = x; e = e }

abbrev pub safe_number_zero : SafeNumber
safe_number_zero = valid_number true uint128_0 0

abbrev pub create_invalid : SafeNumber
create_invalid = record { valid = false; sign = true; x = uint128_0; e = 0 }

abbrev pub largest_x : SimpleUint128
largest_x = multi (Uint128.create 0 (uint64_pow 10 16)) (Uint128.create 0 (uint64_pow 10 16))

-- The loops of `compress_number`. While x is above the largest, a digit and a place are dropped.
unfoldable pub shorten : SimpleUint128 → ℕ → Outcome (SimpleUint128 × ℕ)
shorten x zero = done (x, zero)
shorten x (suc e) =
    let rest = divmod x uint128_10 >>= λ r. shorten r.div_result e in
    if Uint128.gt x largest_x then rest else done (x, suc e)

-- `tmp_x_large_count` comes down to 16, and a digit is dropped each time.
unfoldable pub drop_digits : SimpleUint128 → ℕ → Outcome SimpleUint128
drop_digits x zero = done x
drop_digits x (suc count) =
    let rest = divmod x uint128_10 >>= λ r. drop_digits r.div_result count in
    if ltb 16 (suc count) then rest else done x

-- `tmp_x_large_count` comes back up to e, in n rounds.
unfoldable pub restore_digits : SimpleUint128 → ℕ → SimpleUint128
restore_digits x zero = x
restore_digits x (suc n) = restore_digits (multi x uint128_10) n

-- Zeros at the end are dropped with their places.
unfoldable pub strip : SimpleUint128 → ℕ → Outcome (SimpleUint128 × ℕ)
strip x zero = done (x, zero)
strip x (suc e) = divmod x uint128_10 >>= λ r.
    let rest = strip r.div_result e in
    if not (Uint128.is_zero x) && Uint128.eq (multi r.div_result uint128_10) x
    then rest
    else done (x, suc e)

-- The end of `compress_number`: what has more than 16 places still is 0.
abbrev pub settle_number : Bool → SimpleUint128 → ℕ → SafeNumber
settle_number sign x e = if ltb 16 e then valid_number true uint128_0 0 else valid_number sign x e

unfoldable pub compress_number : SafeNumber → Outcome SafeNumber
compress_number a =
    let compressed = shorten a.x a.e >>= λ (x, e). drop_digits x e >>= λ x'.
    strip (restore_digits x' (e - 16)) e >>= λ (x'', e'). done (settle_number a.sign x'' e') in
    if a.valid then compressed else done a

unfoldable pub create : Bool → SimpleUint128 → ℕ → Outcome SafeNumber
create sign x e = compress_number (valid_number sign x e)
