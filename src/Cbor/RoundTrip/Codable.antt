-- ===== src/Cbor/RoundTrip/Codable.antt =====
-- Which objects the decoder reads back, and as what.
use uvm.Base.{ℕ, ◌%◌, ◌^◌, ◌≤◌, ◌<◌, ◌≡◌, ◌⊎◌, ⊤, true, false, Option, some, length, leb}
use uvm.Base.{if◌then◌else◌}
use uvm.Base.Int.{pos, negsuc}
use uvm.Cbor.Value.{Bytes, Scalar, int, extra_int, bytes, string, float, tag, extra_tag, int_max}
use uvm.Cbor.Value.{CborObject, scalar, array, map, Items, nil, cons, Entries, end, entry}
use uvm.Cbor.Value.{count_items, count_entries}
use uvm.Cbor.Builder.{key_lt}

-- The scalar that comes back: a number that fits no `int` is read as an unsigned 64-bit one, and a
-- tag of 64 bits has been cut to 32.
unfoldable pub normal : Scalar → Scalar
normal (int (pos n)) = if leb n int_max then int (pos n) else extra_int n true
normal (extra_int n true) = if leb n int_max then int (pos n) else extra_int n true
normal (extra_tag t) = tag (t % 2 ^ 32)
normal s = s

-- The keys of a map ascend, as in `std::map`.
abbrev pub KeysAfter : Bytes → Entries → Type 0
KeysAfter k end = ⊤
KeysAfter k (entry j x es) = (key_lt k j ≡ true) × KeysAfter k es

module _ (double_text : ℕ → Bytes) (to_double : Bytes → Option ℕ) where
  -- The values of the C++ types that come back: a negative number fits an `int`, and the text of a
  -- double reads as that double, and does not have a length of 20 to 23.
  abbrev pub IsCodableScalar : Scalar → Type 0
  IsCodableScalar (int (pos n)) = n < 2 ^ 63
  IsCodableScalar (int (negsuc n)) = n ≤ int_max
  IsCodableScalar (extra_int n true) = n < 2 ^ 64
  IsCodableScalar (extra_int n false) = ⊥
  IsCodableScalar (bytes bs) = length bs < 2 ^ 31
  IsCodableScalar (string s) = length s < 2 ^ 31
  IsCodableScalar (float d) =
      (length (double_text d) < 2 ^ 31)
      × ((length (double_text d) < 20) ⊎ (24 ≤ length (double_text d)))
      × (to_double (double_text d) ≡ some d)
  IsCodableScalar (tag t) = t < 2 ^ 32
  IsCodableScalar _ = ⊤

  -- The C++ sizes hold for all that an object holds.
  abbrev mutual
    pub IsCodable : CborObject → Type 0
    IsCodable (scalar s) = IsCodableScalar s
    IsCodable (array xs) = (count_items xs < 2 ^ 32) × AreCodable xs
    IsCodable (map es) = (count_entries es < 2 ^ 32) × AreCodableEntries es

    pub AreCodable : Items → Type 0
    AreCodable nil = ⊤
    AreCodable (cons x xs) = IsCodable x × AreCodable xs

    pub AreCodableEntries : Entries → Type 0
    AreCodableEntries end = ⊤
    AreCodableEntries (entry k x es) =
        (length k < 2 ^ 31) × IsCodable x × KeysAfter k es × AreCodableEntries es
