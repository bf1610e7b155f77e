-- ===== src/Safe/Uint256/Multi.antt =====
-- `simple_uint256_multi` of src/safenumber/safenumber.cpp: schoolbook multiplication on digits of 64
-- bits, each held in a SimpleUint128, in the stages of the code.
use uvm.Base.{ℕ, zero, suc, ◌-◌}
use uvm.Safe.Uint128
use uvm.Safe.Uint128.{SimpleUint128, uint64_bigest, bit_and, bit_or, shift_left, shift_right, add}
use uvm.Safe.Uint128.Multi
use uvm.Safe.Uint256.{SimpleUint256, create}

abbrev pub mask : SimpleUint128
mask = Uint128.create 0 uint64_bigest

-- The two halves of a product or a column.
abbrev pub lower : SimpleUint128 → SimpleUint128
lower n = bit_and n mask

abbrev pub upper : SimpleUint128 → SimpleUint128
upper n = shift_right n 64

-- `top` and `bottom`: the four digits, the highest first.
abbrev pub digit : SimpleUint256 → ℕ → SimpleUint128
digit a zero = upper a.big
digit a (suc zero) = lower a.big
digit a (suc (suc zero)) = upper a.low
digit a (suc (suc (suc i))) = lower a.low

-- `products[i][y]`
unfoldable pub products : SimpleUint256 → SimpleUint256 → ℕ → ℕ → SimpleUint128
products a b i y = Uint128.Multi.multi (digit a (3 - i)) (digit b y)

pub record Columns : Type 0 where
  pub fourth32 : SimpleUint128
  pub third32 : SimpleUint128
  pub second32 : SimpleUint128
  pub first32 : SimpleUint128

-- the four rows, added up by columns
unfoldable pub add_rows : (ℕ → ℕ → SimpleUint128) → Columns
add_rows p =
    let third32 = add (lower (p 0 2)) (upper (p 0 3)) in
    let second32 = add (lower (p 0 1)) (upper (p 0 2)) in
    let first32 = add (lower (p 0 0)) (upper (p 0 1)) in
    let third32' = add third32 (lower (p 1 3)) in
    let second32' = add second32 (add (lower (p 1 2)) (upper (p 1 3))) in
    let first32' = add first32 (add (lower (p 1 1)) (upper (p 1 2))) in
    let second32'' = add second32' (lower (p 2 3)) in
    let first32'' = add first32' (add (lower (p 2 2)) (upper (p 2 3))) in
    record {
      fourth32 = lower (p 0 3);
      third32 = third32';
      second32 = second32'';
      first32 = add first32'' (lower (p 3 3));
    }

-- `move carry to next digit`, then `remove carry from current digit`
unfoldable pub move_carry : Columns → Columns
move_carry c =
    let third32 = add c.third32 (upper c.fourth32) in
    let second32 = add c.second32 (upper third32) in
    let first32 = add c.first32 (upper second32) in
    record {
      fourth32 = lower c.fourth32;
      third32 = lower third32;
      second32 = lower second32;
      first32 = lower first32;
    }

unfoldable pub combine : Columns → SimpleUint256
combine c =
    create (bit_or (shift_left c.first32 64) c.second32)
      (bit_or (shift_left c.third32 64) c.fourth32)

unfoldable pub multi : SimpleUint256 → SimpleUint256 → SimpleUint256
multi a b = combine (move_carry (add_rows (products a b)))
