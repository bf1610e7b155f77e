-- ===== src/Cbor/Tests.antt =====
-- Runs of the codec on concrete objects, and its theorems at concrete inputs.
use uvm.Base.{ℕ, ◌≡◌, refl, arith, Option, some, List, [], ◌∷◌, replicate, ◌++◌}
use uvm.Base.Int.{pos, negsuc}
use uvm.Cbor.Value.{Bytes, null, int, float, CborObject, scalar}
use uvm.Cbor.Value.{array, map, nil, cons, end, entry, count_items, count_entries}
use uvm.Cbor.Input.{has_bytes, get_byte, get_bytes}
use uvm.Cbor.Encoder.{write_map, write_string, write_array, write_scalar}
use uvm.Cbor.Builder.{Result, err, DecodeError, Node, Ref, put_decoded_value, insert_entry}
use uvm.Cbor.Decoder.{run, on_state, on_type, on_major, on_string_data}
use uvm.Cbor.Decoder.Termination.{run_total}
use uvm.Cbor.Codec.{cbor_encode, cbor_decode, cbor_deep_clone}
use uvm.Cbor.RoundTrip.Limits.{cbor_deep_clone-nint_array, cbor_deep_clone-float_text}

-- "1." and zeros: a stand-in for the text of every double.
abbrev text_of : ℕ → ℕ → Bytes
text_of decimals d = b'1' ∷ b'.' ∷ replicate decimals b'0'

abbrev read_text : Bytes → Option ℕ
read_text bs = some 7

abbrev sample : CborObject
sample = map (
    entry (b'a' ∷ [])
      (array (cons (scalar (int (negsuc 6))) (cons (scalar (int (pos 5000000000))) nil)))
      (entry (b'b' ∷ []) (scalar (float 7)) (entry (b'b' ∷ b'c' ∷ []) (map end) end)))

encode_sample :
    cbor_encode (text_of 1) sample
    ≡ 0xa3
      ∷ 0x61
      ∷ b'a'
      ∷ 0x82
      ∷ 0x26
      ∷ 0x1b
      ∷ 0
      ∷ 0
      ∷ 0
      ∷ 1
      ∷ 0x2a
      ∷ 0x05
      ∷ 0xf2
      ∷ 0x00
      ∷ 0x61
      ∷ b'b'
      ∷ 0xe3
      ∷ b'1'
      ∷ b'.'
      ∷ b'0'
      ∷ (replicate 37 0 ++ (0x62 ∷ b'b' ∷ b'c' ∷ 0xa0 ∷ []))
unfolding cbor_encode count_items write_map count_entries write_string write_array write_scalar
encode_sample = refl

-- A map whose keys repeat is never full.
decode_repeated :
    cbor_decode read_text (0xa2 ∷ 0x61 ∷ b'a' ∷ 0x01 ∷ 0x61 ∷ b'a' ∷ 0x02 ∷ [])
    ≡ some (err DecodeError.unfinished_structures)
unfolding cbor_decode on_state on_type on_major on_string_data put_decoded_value has_bytes get_byte
    get_bytes insert_entry
decode_repeated = refl

run_total_example : (r : Result (List Node × Ref)) × (run read_text (0x82 ∷ 0x19 ∷ 1 ∷ []) ≡ some r)
run_total_example = run_total read_text (0x82 ∷ 0x19 ∷ 1 ∷ [])

cbor_deep_clone-nint_array_example :
    cbor_deep_clone
      (text_of 17)
      read_text
      (array (cons (scalar (int (negsuc 5000000000))) (cons (scalar null) nil)))
    ≡ some (err DecodeError.unfinished_structures)
unfolding write_scalar
cbor_deep_clone-nint_array_example =
    cbor_deep_clone-nint_array (text_of 17) read_text 5000000000 null (omega arith) (omega arith)
      (omega arith)

-- "1." and eighteen decimals take 20 characters, as many as "10." and seventeen.
cbor_deep_clone-float_text_example :
    cbor_deep_clone (text_of 18) read_text (scalar (float 7))
    ≡ some (err DecodeError.multiple_objects)
cbor_deep_clone-float_text_example =
    cbor_deep_clone-float_text (text_of 18) read_text 7 17 (b'.' ∷ replicate 18 b'0') refl
      (omega arith) (omega arith) (omega arith)
