-- ===== src/Cbor/RoundTrip/Headers.antt =====
-- Numbers, tags and the headers of containers: what the decoder stores when it reads them.
use uvm.Base.{ℕ, ◌+◌, ◌%◌, ◌^◌, ◌≤◌, ◌<◌, ◌≡◌, refl, inl, inr, arith}
use uvm.Base.{Option, true, false, [], ◌++◌, leb, ◌==◌, lt_or_ge, if◌then◌else◌}
use uvm.Base.Int.{pos, negsuc}
use uvm.Cbor.Value.{Bytes, Scalar, int, extra_int, tag}
use uvm.Cbor.Value.{extra_tag, int_max}
use uvm.Cbor.Encoder.{write_type_value, write_type_value64}
use uvm.Cbor.Builder.{Builder, Node, DecodeError, ok, put_decoded_value}
use uvm.Cbor.Decoder.{DecoderState, on_state, on_major}
use uvm.Cbor.Decoder.{put_scalar, put_then, throw, on_pint, on_nint, on_array_size}
use uvm.Cbor.Decoder.{on_map_size, on_tag_value}
use uvm.Cbor.Decoder.Termination.{Rounds}
use uvm.Cbor.RoundTrip.Numbers.{at, number-Rounds, short_round, write_type_value-eq}
use uvm.Cbor.RoundTrip.Codable.{normal}

abbrev pub Stores : Builder → Builder → Scalar → Type 0
Stores b b' s = put_decoded_value b (Node.scalar s) ≡ ok b'

module _ (to_double : Bytes → Option ℕ) where
  -- Bytes that are there are read, and lead from one builder to another.
  abbrev pub Consumes : Bytes → Builder → Builder → Type 0
  Consumes bs b b' =
      (rest : Bytes) (n : ℕ) → (m : ℕ) × Rounds to_double (at (bs ++ rest) n b) (at rest m b')

  pub positive-Consumes :
      (v : ℕ) (b b' : Builder)
      → v < 2 ^ 64
      → Stores b b' (normal (extra_int v true))
      → Consumes (write_type_value64 0 v) b b'
  unfolding on_major on_state on_pint normal
  positive-Consumes v b b' h stored rest n =
      number-Rounds to_double 0 DecoderState.state_pint (λ n d. put_scalar d (int (pos n)))
        (λ n d. put_scalar d (int (pos n)))
        (λ n d.
          if leb n int_max then put_scalar d (int (pos n)) else put_scalar d (extra_int n true))
        (λ n d. put_scalar d (extra_int n true)) b rest v (λ m. at rest m b') (λ d. refl)
        (λ d. refl) (λ d. refl) (λ d. refl) (λ d. refl) n h (λ k lt. ground arith)
        (λ lt. ground arith) (λ lt. ground arith) (λ lt. ground arith) (λ ge. ground arith)

  pub negative-Consumes :
      (v : ℕ) (b b' : Builder)
      → v ≤ int_max
      → Stores b b' (int (negsuc v))
      → Consumes (write_type_value64 1 v) b b'
  unfolding on_major on_state on_nint
  negative-Consumes v b b' h stored rest n =
      number-Rounds to_double 1 DecoderState.state_nint (λ n d. put_scalar d (int (negsuc n)))
        (λ n d. put_scalar d (int (negsuc n)))
        (λ n d.
          if leb n int_max
          then put_scalar d (int (negsuc n))
          else put_scalar d (extra_int ((n + 1) % 2 ^ 32) false))
        (λ n d.
          put_then d DecoderState.state_nint (Node.scalar (extra_int ((n + 1) % 2 ^ 64) false)))
        b rest v (λ m. at rest m b') (λ d. refl) (λ d. refl) (λ d. refl) (λ d. refl) (λ d. refl) n
        (omega arith) (λ k lt. ground arith) (λ lt. ground arith) (λ lt. ground arith)
        (λ lt. ground arith) (λ ge. absurd (omega arith))

  pub tag-Consumes :
      (v : ℕ) (b b' : Builder)
      → v < 2 ^ 32
      → Stores b b' (tag v)
      → Consumes (write_type_value 6 v) b b'
  unfolding on_major on_state on_tag_value
  tag-Consumes v b b' h stored rest n = rw (write_type_value-eq 6 v h) (
      number-Rounds to_double 6 DecoderState.state_tag (λ n d. put_scalar d (tag n))
        (λ n d. put_scalar d (tag n)) (λ n d. put_scalar d (tag n))
        (λ n d. put_scalar d (extra_tag n)) b rest v (λ m. at rest m b') (λ d. refl) (λ d. refl)
        (λ d. refl) (λ d. refl) (λ d. refl) n (omega arith) (λ k lt. ground arith)
        (λ lt. ground arith) (λ lt. ground arith) (λ lt. ground arith) (λ ge. absurd (omega arith)))

  -- The header of a container stores it, empty and with its size.
  pub array-Consumes :
      (v : ℕ) (b b' : Builder)
      → v < 2 ^ 32
      → put_decoded_value b (Node.array v []) ≡ ok b'
      → Consumes (write_type_value 4 v) b b'
  unfolding on_major on_state on_array_size
  array-Consumes v b b' h stored rest n = rw (write_type_value-eq 4 v h) (
      number-Rounds to_double 4 DecoderState.state_array
        (λ n d. put_then d DecoderState.state_type (Node.array n []))
        (λ n d. put_then d DecoderState.state_type (Node.array n []))
        (λ n d. put_then d DecoderState.state_type (Node.array n []))
        (λ n d. throw DecodeError.extra_long_array) b rest v (λ m. at rest m b') (λ d. refl)
        (λ d. refl) (λ d. refl) (λ d. refl) (λ d. refl) n (omega arith) (λ k lt. ground arith)
        (λ lt. ground arith) (λ lt. ground arith) (λ lt. ground arith) (λ ge. absurd (omega arith)))

  -- A map of a size in two bytes leaves that size in `_currentLength`.
  pub map-Consumes :
      (v : ℕ) (b b' : Builder)
      → v < 2 ^ 32
      → put_decoded_value b (Node.map v []) ≡ ok b'
      → Consumes (write_type_value 5 v) b b'
  unfolding on_major on_state on_map_size
  map-Consumes v b b' h stored rest n = rw (write_type_value-eq 5 v h) (elim (lt_or_ge v 24) [
    | inl lt ↦ (n, short_round to_double 5 b rest v n (at rest n b') lt (ground arith))
    | inr ge ↦
        let (m, r) =
          number-Rounds to_double 5 DecoderState.state_map
            (λ n d. put_then d DecoderState.state_type (Node.map n []))
            (λ n d.
              put_then (record d { current_length = n }) DecoderState.state_type (Node.map n []))
            (λ n d. put_then d DecoderState.state_type (Node.map n []))
            (λ n d. throw DecodeError.extra_long_map) b rest v
            (λ m. at rest (if m == 2 then v else m) b') (λ d. refl) (λ d. refl) (λ d. refl)
            (λ d. refl) (λ d. refl) n (omega arith) (λ k lt. absurd (omega arith))
            (λ lt. ground arith) (λ lt. ground arith) (λ lt. ground arith)
            (λ ge. absurd (omega arith)) in
        ((if m == 2 then v else m), r)
  ])
