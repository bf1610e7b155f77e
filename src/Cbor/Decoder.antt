-- ===== src/Cbor/Decoder.antt =====
-- `decoder::run` of src/cborcpp/decoder.cpp, one function for each of its states.
pub mod Termination
use uvm.Base.{ℕ, zero, suc, ◌+◌, ◌-◌, ◌*◌, ◌/◌, ◌%◌, ◌^◌, true, false, List, [], ◌∷◌}
use uvm.Base.{Option, none, some, length, if◌then◌else◌, ltb, leb, ◌==◌}
use uvm.Base.Int.{pos, negsuc}
use uvm.Cbor.Value.{Bytes, Scalar, int_max, null, undefined, bool, int, extra_int}
use uvm.Cbor.Value.{bytes, string, float, tag, extra_tag}
use uvm.Cbor.Input.{Input, input_of, has_bytes, get_byte, get_short, get_int, get_long, get_bytes}
use uvm.Cbor.Input.{skip_bytes}
use uvm.Cbor.Encoder.{encode_double_string_size}
use uvm.Cbor.Builder.{DecodeError, Result, ok, err, Ref, Node, Builder, put_decoded_value}
use uvm.Cbor.Builder.{empty_builder}

-- include/cborcpp/decoder.h
pub data DecoderState : Type 0 where
  state_type state_pint state_nint : DecoderState
  state_bytes_size state_bytes_data state_string_size state_string_data : DecoderState
  state_float_size state_float_data state_array state_map state_tag : DecoderState
  state_special state_error : DecoderState

-- `_currentLength` is an `int`; it is kept as its 32-bit pattern.
pub record Decoder : Type 0 where
  pub input : Input
  pub state : DecoderState
  pub current_length : ℕ
  pub builder : Builder

-- How one round of the `while` loop ends: with another round, with `break`, or with an exception.
pub data Round : Type 0 where
  continue stop : Decoder → Round
  throw : DecodeError → Round

-- `put_decoded_value(...)`, then a new value of `_state`.
abbrev pub put_then : Decoder → DecoderState → Node → Round
put_then d next n = elim (put_decoded_value d.builder n) [
  | ok b ↦ continue (record d { builder = b; state = next })
  | err e ↦ throw e
]

abbrev pub put_scalar : Decoder → Scalar → Round
put_scalar d s = put_then d state_type (Node.scalar s)

abbrev pub expect : Decoder → DecoderState → ℕ → Round
expect d next n = continue (record d { state = next; current_length = n })

-- The four branches for a length of 1, 2, 4 or 8 bytes, and the error, that each case has.
unfoldable pub expect_length : Decoder → ℕ → DecoderState → DecodeError → Round
expect_length d minor next e =
    if minor == 24
    then expect d next 1
    else if minor == 25
    then expect d next 2
    else if minor == 26
    then expect d next 4
    else if minor == 27
    then expect d next 8
    else throw e

-- `switch (majorType)`
unfoldable pub on_positive : Decoder → ℕ → Round
unfolding expect_length
on_positive d minor =
    if ltb minor 24
    then put_scalar d (int (pos minor))
    else expect_length d minor state_pint DecodeError.invalid_integer_type

unfoldable pub on_negative : Decoder → ℕ → Round
unfolding expect_length
on_negative d minor =
    if ltb minor 24
    then put_scalar d (int (negsuc minor))
    else expect_length d minor state_nint DecodeError.invalid_integer_type

unfoldable pub on_bytes : Decoder → ℕ → Round
unfolding expect_length
on_bytes d minor =
    if ltb minor 24
    then expect d state_bytes_data minor
    else expect_length d minor state_bytes_size DecodeError.invalid_bytes_type

unfoldable pub on_string : Decoder → ℕ → Round
unfolding expect_length
on_string d minor =
    if ltb minor 24
    then expect d state_string_data minor
    else expect_length d minor state_string_size DecodeError.invalid_string_type

unfoldable pub on_array : Decoder → ℕ → Round
unfolding expect_length
on_array d minor =
    if ltb minor 24
    then put_then d state_type (Node.array minor [])
    else expect_length d minor state_array DecodeError.invalid_array_type

unfoldable pub on_map : Decoder → ℕ → Round
unfolding expect_length
on_map d minor =
    if ltb minor 24
    then put_then d state_type (Node.map minor [])
    else expect_length d minor state_map DecodeError.invalid_array_type

unfoldable pub on_tag : Decoder → ℕ → Round
unfolding expect_length
on_tag d minor =
    if ltb minor 24
    then put_scalar d (tag minor)
    else expect_length d minor state_tag DecodeError.invalid_tag_type

unfoldable pub on_float : Decoder → ℕ → Round
unfolding expect_length
on_float d minor =
    if minor == 20
    then put_scalar d (bool false)
    else if minor == 21
    then put_scalar d (bool true)
    else if minor == 22
    then put_scalar d null
    else if minor == 23
    then put_scalar d undefined
    else if ltb minor 24
    then expect d state_float_data minor
    else expect_length d minor state_float_size DecodeError.invalid_float_type

unfoldable pub on_major : Decoder → ℕ → ℕ → Round
unfolding on_positive on_negative on_bytes on_string on_array on_map on_tag on_float
on_major d major minor =
    if major == 0
    then on_positive d minor
    else if major == 1
    then on_negative d minor
    else if major == 2
    then on_bytes d minor
    else if major == 3
    then on_string d minor
    else if major == 4
    then on_array d minor
    else if major == 5
    then on_map d minor
    else if major == 6
    then on_tag d minor
    else on_float d minor

-- The states. `on_type` splits the byte into `type >> 5` and `type & 31`.
unfoldable pub on_type : Decoder → Round
on_type d =
    if has_bytes 1 d.input
    then (let (type, rest) = get_byte d.input in
        on_major (record d { input = rest }) (type / 32) (type % 32))
    else stop d

-- `switch (_currentLength)` where each case reads a number of that many bytes.
abbrev pub switch_length : Decoder → (one two four eight : ℕ → Decoder → Round) → Round
switch_length d one two four eight =
    if has_bytes d.current_length d.input
    then (if d.current_length == 1
        then (let (n, rest) = get_byte d.input in one n (record d { input = rest }))
        else if d.current_length == 2
        then (let (n, rest) = get_short d.input in two n (record d { input = rest }))
        else if d.current_length == 4
        then (let (n, rest) = get_int d.input in four n (record d { input = rest }))
        else if d.current_length == 8
        then (let (n, rest) = get_long d.input in eight n (record d { input = rest }))
        else continue d)
    else stop d

unfoldable pub on_pint : Decoder → Round
on_pint d =
    switch_length d (λ n d'. put_scalar d' (int (pos n))) (λ n d'. put_scalar d' (int (pos n)))
      (λ n d'.
        if leb n int_max then put_scalar d' (int (pos n)) else put_scalar d' (extra_int n true))
      (λ n d'. put_scalar d' (extra_int n true))

-- After eight bytes `_state` is left as it is, and `temp + 1` and `get_long() + 1` wrap.
unfoldable pub on_nint : Decoder → Round
on_nint d =
    switch_length d (λ n d'. put_scalar d' (int (negsuc n)))
      (λ n d'. put_scalar d' (int (negsuc n)))
      (λ n d'.
        if leb n int_max
        then put_scalar d' (int (negsuc n))
        else put_scalar d' (extra_int ((n + 1) % 2 ^ 32) false))
      (λ n d'. put_then d' state_nint (Node.scalar (extra_int ((n + 1) % 2 ^ 64) false)))

-- STATE_BYTES_SIZE, STATE_STRING_SIZE and STATE_FLOAT_SIZE
unfoldable pub on_size : DecoderState → DecodeError → Decoder → Round
on_size next too_long d =
    switch_length d (λ n d'. expect d' next n) (λ n d'. expect d' next n) (λ n d'. expect d' next n)
      (λ n d'. throw too_long)

-- The data states: a vector of `_currentLength` bytes is read.
abbrev pub read_bytes : Decoder → (Bytes → Decoder → Round) → Round
read_bytes d use_them =
    if has_bytes d.current_length d.input
    then (if ltb d.current_length (2 ^ 31)
        then (let (bs, rest) = get_bytes d.current_length d.input in
            use_them bs (record d { input = rest }))
        else throw DecodeError.length_error)
    else stop d

unfoldable pub on_bytes_data : Decoder → Round
on_bytes_data d = read_bytes d (λ bs d'. put_scalar d' (bytes bs))

unfoldable pub on_string_data : Decoder → Round
on_string_data d = read_bytes d (λ bs d'. put_scalar d' (string bs))

unfoldable pub on_array_size : Decoder → Round
on_array_size d =
    switch_length d (λ n d'. put_then d' state_type (Node.array n []))
      (λ n d'. put_then d' state_type (Node.array n []))
      (λ n d'. put_then d' state_type (Node.array n []))
      (λ n d'. throw DecodeError.extra_long_array)

-- The case of two bytes also stores the size in `_currentLength`.
unfoldable pub on_map_size : Decoder → Round
on_map_size d =
    switch_length d (λ n d'. put_then d' state_type (Node.map n []))
      (λ n d'. put_then (record d' { current_length = n }) state_type (Node.map n []))
      (λ n d'. put_then d' state_type (Node.map n [])) (λ n d'. throw DecodeError.extra_long_map)

unfoldable pub on_tag_value : Decoder → Round
on_tag_value d =
    switch_length d (λ n d'. put_scalar d' (tag n)) (λ n d'. put_scalar d' (tag n))
      (λ n d'. put_scalar d' (tag n)) (λ n d'. put_scalar d' (extra_tag n))

-- The checks after the loop.
unfoldable pub finish : Decoder → Result (List Node × Ref)
finish d = elim d.builder.result [
  | none ↦ err DecodeError.decoded_nothing
  | some r ↦ elim d.builder.structures_stack [
    | [] ↦ ok (d.builder.heap, r)
    | _ ∷ _ ↦ err DecodeError.unfinished_structures
  ]
]

-- A decoder on a buffer.
unfoldable pub decoder_of : Bytes → Decoder
unfolding input_of empty_builder
decoder_of bs = record {
  input = input_of bs;
  state = state_type;
  current_length = 0;
  builder = empty_builder;
}

-- `fc::to_double`, with `none` for its exception.
module _ (to_double : Bytes → Option ℕ) where
  unfoldable pub on_float_data : Decoder → Round
  on_float_data d = read_bytes d (λ text d'.
      let rest = skip_bytes (encode_double_string_size - length text) d'.input in
      elim (to_double text) [
        | some v ↦ put_scalar (record d' { input = rest }) (float v)
        | none ↦ throw DecodeError.bad_double
      ])

  unfoldable pub on_state : DecoderState → Decoder → Round
  on_state state_type d = on_type d
  on_state state_pint d = on_pint d
  on_state state_nint d = on_nint d
  on_state state_bytes_size d = on_size state_bytes_data DecodeError.extra_long_bytes d
  on_state state_bytes_data d = on_bytes_data d
  on_state state_string_size d = on_size state_string_data DecodeError.extra_long_array d
  on_state state_string_data d = on_string_data d
  on_state state_float_size d = on_size state_float_data DecodeError.extra_long_array d
  on_state state_float_data d = on_float_data d
  on_state state_array d = on_array_size d
  on_state state_map d = on_map_size d
  on_state state_tag d = on_tag_value d
  on_state state_special d = throw DecodeError.unknown_state
  on_state state_error d = stop d

  -- One round of the loop.
  unfoldable pub round : Decoder → Round
  unfolding on_state
  round d = on_state d.state d

  -- The loop; `none` means that the fuel ran out.
  unfoldable pub run_loop : ℕ → Decoder → Option (Result Decoder)
  unfolding round
  run_loop zero d = none
  run_loop (suc fuel) d = elim (round d) [
    | continue d' ↦ run_loop fuel d'
    | stop d' ↦ some (ok d')
    | throw e ↦ some (err e)
  ]

  -- `decoder::run`: the object's node, in the heap of all that were made. Two rounds for each byte,
  -- and one to see the end, are enough.
  unfoldable pub run : Bytes → Option (Result (List Node × Ref))
  unfolding run_loop finish decoder_of
  run bs = elim (run_loop (2 * length bs + 2) (decoder_of bs)) [
    | none ↦ none
    | some (err e) ↦ some (err e)
    | some (ok d) ↦ some (finish d)
  ]
