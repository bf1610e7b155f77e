-- ===== src/Cbor/Value.antt =====
-- The data model of include/cborcpp/cbor_object.h and src/cborcpp/cbor_object.cpp.
-- A byte is a number below 256, and a `std::string` or a byte vector is the list of its bytes. A
-- `double` is the number that its 64 bits spell: only the text conversions look inside.
use uvm.Base.{ℕ, zero, suc, ◌-◌, ◌^◌, Bool, true, false, List, Option, none, some}
use uvm.Base.{if◌then◌else◌, ltb, ◌==◌}
use uvm.Base.Int.{ℤ, pos, negsuc}

abbrev pub Bytes : Type 0
Bytes = List ℕ

-- The objects that hold no other object.
pub data Scalar : Type 0 where
  null undefined : Scalar
  bool : Bool → Scalar
  int : ℤ → Scalar
  extra_int : ℕ → Bool → Scalar
  bytes string : Bytes → Scalar
  float : ℕ → Scalar
  tag extra_tag : ℕ → Scalar

-- An object with all that it holds. A map's entries are in the key order of `std::map`. What the
-- field `type` says is the constructor; `COT_ERROR` is never made, and has none.
mutual
  pub data CborObject : Type 0 where
    scalar : Scalar → CborObject
    array : Items → CborObject
    map : Entries → CborObject

  pub data Items : Type 0 where
    nil : Items
    cons : CborObject → Items → Items

  pub data Entries : Type 0 where
    end : Entries
    entry : Bytes → CborObject → Entries → Entries

-- `array_val.size()` and `map_val.size()`.
unfoldable pub count_items : Items → ℕ
count_items nil = 0
count_items (cons x xs) = suc (count_items xs)

unfoldable pub count_entries : Entries → ℕ
count_entries end = 0
count_entries (entry k x es) = suc (count_entries es)

abbrev pub int_max : ℕ
int_max = 2 ^ 31 - 1

-- The int64_t of a 64-bit pattern, and its negation, which leaves the least one as it is.
abbrev pub signed64 : ℕ → ℤ
signed64 w = if ltb w (2 ^ 63) then pos w else negsuc (2 ^ 64 - w - 1)

abbrev pub negate64 : ℤ → ℤ
negate64 (pos zero) = pos 0
negate64 (pos (suc n)) = negsuc n
negate64 (negsuc n) = if suc n == 2 ^ 63 then negsuc n else pos (suc n)

-- `CborObject::force_as_int`; `none` is the exception for an object that is no integer.
unfoldable pub force_as_int : CborObject → Option ℤ
force_as_int (scalar (int i)) = some i
force_as_int (scalar (extra_int w true)) = some (signed64 w)
force_as_int (scalar (extra_int w false)) =
    if ltb w (2 ^ 63) then some (negate64 (signed64 w)) else some (signed64 w)
force_as_int _ = none
