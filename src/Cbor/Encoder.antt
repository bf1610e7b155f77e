-- ===== src/Cbor/Encoder.antt =====
-- src/cborcpp/encoder.cpp. A call's value is the bytes that it puts to `_out`, in their order;
-- `Cbor.Output` is about the buffer that takes them. `(unsigned char)(x >> k)` is
-- `x / 2 ^ k % 256`, and `major_type << 5 | value` is `major_type * 32 + value` for a value below 32.
use uvm.Base.{ℕ, ◌+◌, ◌-◌, ◌*◌, ◌/◌, ◌%◌, ◌^◌, Bool, true, false, [], ◌∷◌, ◌++◌}
use uvm.Base.{length, replicate, if◌then◌else◌, ltb}
use uvm.Base.Int.{ℤ, pos, negsuc}
use uvm.Cbor.Value.{Bytes, Scalar, null, undefined, bool, int, extra_int, bytes, string, float, tag}
use uvm.Cbor.Value.{
  extra_tag, CborObject, scalar, array, map, Items, nil, cons, Entries, end, entry,
}
use uvm.Cbor.Value.{count_items, count_entries}

-- `encoder::write_type_value(int, uint32_t)`
unfoldable pub write_type_value : ℕ → ℕ → Bytes
write_type_value major value =
    if ltb value 24
    then (major * 32 + value) ∷ []
    else if ltb value 256
    then (major * 32 + 24) ∷ value % 256 ∷ []
    else if ltb value 65536
    then (major * 32 + 25) ∷ (value / 2 ^ 8 % 256) ∷ (value % 256) ∷ []
    else (major * 32 + 26)
      ∷ (value / 2 ^ 24 % 256)
      ∷ (value / 2 ^ 16 % 256)
      ∷ (value / 2 ^ 8 % 256)
      ∷ (value % 256)
      ∷ []

-- `encoder::write_type_value(int, uint64_t)`
unfoldable pub write_type_value64 : ℕ → ℕ → Bytes
write_type_value64 major value =
    if ltb value 24
    then (major * 32 + value) ∷ []
    else if ltb value 256
    then (major * 32 + 24) ∷ (value % 256) ∷ []
    else if ltb value 65536
    then (major * 32 + 25) ∷ (value / 2 ^ 8 % 256) ∷ (value % 256) ∷ []
    else if ltb value (2 ^ 32)
    then (major * 32 + 26)
      ∷ (value / 2 ^ 24 % 256)
      ∷ (value / 2 ^ 16 % 256)
      ∷ (value / 2 ^ 8 % 256)
      ∷ (value % 256)
      ∷ []
    else (major * 32 + 27)
      ∷ (value / 2 ^ 56 % 256)
      ∷ (value / 2 ^ 48 % 256)
      ∷ (value / 2 ^ 40 % 256)
      ∷ (value / 2 ^ 32 % 256)
      ∷ (value / 2 ^ 24 % 256)
      ∷ (value / 2 ^ 16 % 256)
      ∷ (value / 2 ^ 8 % 256)
      ∷ (value % 256)
      ∷ []

-- `encoder::write_int(int64_t)`: `-(value + 1)` of -(n + 1) is n.
unfoldable pub write_int : ℤ → Bytes
unfolding write_type_value64
write_int (pos n) = write_type_value64 0 n
write_int (negsuc n) = write_type_value64 1 n

-- `encoder::write_int(uint64_t)` and `encoder::write_neg_int`
unfoldable pub write_extra_int : ℕ → Bool → Bytes
unfolding write_type_value64
write_extra_int w true = write_type_value64 0 w
write_extra_int w false = write_type_value64 1 w

-- A size reaches `write_type_value` as an `unsigned int`.
unfoldable pub write_bytes : Bytes → Bytes
unfolding write_type_value
write_bytes bs = write_type_value 2 (length bs % 2 ^ 32) ++ bs

unfoldable pub write_string : Bytes → Bytes
unfolding write_type_value
write_string bs = write_type_value 3 (length bs % 2 ^ 32) ++ bs

unfoldable pub write_array : ℕ → Bytes
unfolding write_type_value
write_array size = write_type_value 4 (size % 2 ^ 32)

unfoldable pub write_map : ℕ → Bytes
unfolding write_type_value
write_map size = write_type_value 5 (size % 2 ^ 32)

-- `encoder::write_tag(const unsigned int)`: a 64-bit tag is cut to 32 bits by the call.
unfoldable pub write_tag : ℕ → Bytes
unfolding write_type_value
write_tag t = write_type_value 6 (t % 2 ^ 32)

unfoldable pub write_bool : Bool → Bytes
write_bool true = 0xf5 ∷ []
write_bool false = 0xf4 ∷ []

unfoldable pub write_null : Bytes
write_null = 0xf6 ∷ []

unfoldable pub write_undefined : Bytes
write_undefined = 0xf7 ∷ []

-- CBOR_ENCODE_DOUBLE_STRING_SIZE
abbrev pub encode_double_string_size : ℕ
encode_double_string_size = 40

-- What the stream writes for a double, with `fixed` and 17 decimals.
module _ (double_text : ℕ → Bytes) where
  -- `encoder::write_type_value(int, CborDoubleValue)`, called with major type 7
  unfoldable pub write_float64 : ℕ → Bytes
  unfolding write_type_value
  write_float64 d =
      let text = double_text d in
      write_type_value 7 (length text % 2 ^ 32)
      ++ (text ++ replicate (encode_double_string_size - length text) 0)

  unfoldable pub write_scalar : Scalar → Bytes
  unfolding write_bool write_null write_undefined write_int write_extra_int write_bytes write_string
      write_tag write_float64
  write_scalar null = write_null
  write_scalar undefined = write_undefined
  write_scalar (bool b) = write_bool b
  write_scalar (int i) = write_int i
  write_scalar (extra_int w positive) = write_extra_int w positive
  write_scalar (bytes bs) = write_bytes bs
  write_scalar (string s) = write_string s
  write_scalar (float d) = write_float64 d
  write_scalar (tag t) = write_tag t
  write_scalar (extra_tag t) = write_tag t

  -- `encoder::write_cbor_object`
  unfoldable mutual
    pub write_cbor_object : CborObject → Bytes
    write_cbor_object (scalar s) = write_scalar s
    write_cbor_object (array xs) = write_array (count_items xs) ++ write_items xs
    write_cbor_object (map es) = write_map (count_entries es) ++ write_entries es

    pub write_items : Items → Bytes
    write_items nil = []
    write_items (cons x xs) = write_cbor_object x ++ write_items xs

    pub write_entries : Entries → Bytes
    write_entries end = []
    write_entries (entry k x es) = write_string k ++ (write_cbor_object x ++ write_entries es)
