-- ===== src/Cbor/RoundTrip/Texts.antt =====
-- Byte vectors, strings and doubles: a size, and then a state that reads that many bytes.
use uvm.Base.{ℕ, ◌-◌, ◌^◌, ◌≤◌, ◌<◌, ◌≡◌, refl, ◌⊎◌, arith}
use uvm.Base.{
  Option, some, ◌++◌, length, replicate, take-append, drop-append, length-append, length-replicate,
}
use uvm.Cbor.Value.{Bytes, bytes, string, float}
use uvm.Cbor.Input.{has_bytes, get_bytes, skip_bytes}
use uvm.Cbor.Encoder.{write_type_value}
use uvm.Cbor.Builder.{Builder, DecodeError}
use uvm.Cbor.Decoder.{DecoderState, continue, on_state, on_major, round, expect, throw, on_size}
use uvm.Cbor.Decoder.{on_bytes_data, on_string_data, on_float_data}
use uvm.Cbor.Decoder.Termination.{Rounds}
use uvm.Cbor.RoundTrip.Numbers.{at, in_state, number-Rounds, write_type_value-eq}
use uvm.Cbor.RoundTrip.Headers.{Stores}

module _ (to_double : Bytes → Option ℕ) (b : Builder) (rest : Bytes) (v n : ℕ)
    (h : v < 2 ^ 31) where
  abbrev pub Data : ℕ → DecoderState → Type 0
  Data major s =
      (m : ℕ) × Rounds to_double (at (write_type_value major v ++ rest) n b) (in_state s rest v b)

  pub bytes_size : Data 2 DecoderState.state_bytes_data
  unfolding on_major on_state on_size
  bytes_size = rw (write_type_value-eq 2 v (omega arith)) (
      number-Rounds to_double 2 DecoderState.state_bytes_size
        (λ n d. expect d DecoderState.state_bytes_data n)
        (λ n d. expect d DecoderState.state_bytes_data n)
        (λ n d. expect d DecoderState.state_bytes_data n)
        (λ n d. throw DecodeError.extra_long_bytes) b rest v
        (λ m. in_state DecoderState.state_bytes_data rest v b) (λ d. refl) (λ d. refl) (λ d. refl)
        (λ d. refl) (λ d. refl) n (omega arith) (λ k lt. ground arith) (λ lt. refl) (λ lt. refl)
        (λ lt. refl) (λ ge. absurd (omega arith)))

  pub string_size : Data 3 DecoderState.state_string_data
  unfolding on_major on_state on_size
  string_size = rw (write_type_value-eq 3 v (omega arith)) (
      number-Rounds to_double 3 DecoderState.state_string_size
        (λ n d. expect d DecoderState.state_string_data n)
        (λ n d. expect d DecoderState.state_string_data n)
        (λ n d. expect d DecoderState.state_string_data n)
        (λ n d. throw DecodeError.extra_long_array) b rest v
        (λ m. in_state DecoderState.state_string_data rest v b) (λ d. refl) (λ d. refl) (λ d. refl)
        (λ d. refl) (λ d. refl) n (omega arith) (λ k lt. ground arith) (λ lt. refl) (λ lt. refl)
        (λ lt. refl) (λ ge. absurd (omega arith)))

  -- A float's size of 20 to 23 would be read as a Boolean, null or undefined.
  pub float_size : (v < 20) ⊎ (24 ≤ v) → Data 7 DecoderState.state_float_data
  unfolding on_major on_state on_size
  float_size apart = rw (write_type_value-eq 7 v (omega arith)) (
      number-Rounds to_double 7 DecoderState.state_float_size
        (λ n d. expect d DecoderState.state_float_data n)
        (λ n d. expect d DecoderState.state_float_data n)
        (λ n d. expect d DecoderState.state_float_data n)
        (λ n d. throw DecodeError.extra_long_array) b rest v
        (λ m. in_state DecoderState.state_float_data rest v b) (λ d. refl) (λ d. refl) (λ d. refl)
        (λ d. refl) (λ d. refl) n (omega arith) (λ k lt. ground arith) (λ lt. refl) (λ lt. refl)
        (λ lt. refl) (λ ge. absurd (omega arith)))

module _ (to_double : Bytes → Option ℕ) (b b' : Builder) (bs : Bytes) (h : length bs < 2 ^ 31) where
  pub bytes_data :
      (rest : Bytes)
      → Stores b b' (bytes bs)
      → round to_double (in_state DecoderState.state_bytes_data (bs ++ rest) (length bs) b)
        ≡ continue (at rest (length bs) b')
  unfolding round on_state on_bytes_data has_bytes get_bytes
  bytes_data rest stored =
      ground (arith, take-append bs rest, drop-append bs rest, length-append bs rest)

  pub string_data :
      (rest : Bytes)
      → Stores b b' (string bs)
      → round to_double (in_state DecoderState.state_string_data (bs ++ rest) (length bs) b)
        ≡ continue (at rest (length bs) b')
  unfolding round on_state on_string_data has_bytes get_bytes
  string_data rest stored =
      ground (arith, take-append bs rest, drop-append bs rest, length-append bs rest)

  -- The zeros that fill a float's text up to its fixed size are skipped.
  pub float_data :
      (rest : Bytes) (d : ℕ)
      → to_double bs ≡ some d
      → Stores b b' (float d)
      → round to_double (
          in_state DecoderState.state_float_data
            (bs ++ (replicate (40 - length bs) 0 ++ rest))
            (length bs)
            b)
        ≡ continue (at rest (length bs) b')
  unfolding round on_state on_float_data has_bytes get_bytes skip_bytes
  float_data rest d text stored =
      let zeros : Bytes = replicate (40 - length bs) 0 in
      let size : length zeros ≡ 40 - length bs = length-replicate (40 - length bs) 0 in
      ground (
        arith,
        size,
        take-append bs (zeros ++ rest),
        drop-append bs (zeros ++ rest),
        length-append bs (zeros ++ rest),
        length-append zeros rest,
        (rw size at (drop-append zeros rest)),
      )
