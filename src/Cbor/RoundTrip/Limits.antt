-- ===== src/Cbor/RoundTrip/Limits.antt =====
-- Objects that do not come back: what the decoder makes of them.
use uvm.Base.{ℕ, ◌+◌, ◌-◌, ◌*◌, ◌%◌, ◌^◌, ◌≤◌, ◌<◌, ◌≡◌, refl, ◌∙◌, ap, arith, Option, none, some}
use uvm.Base.{
  suc, length-append, length-replicate, true, false, [], ◌∷◌, ◌++◌, append-nil, length,
  if◌then◌else◌, leb, ◌==◌, replicate,
}
use uvm.Base.Int.{negsuc}
use uvm.Cbor.Value.{Bytes, Scalar, scalar, array, nil, cons, int, extra_int, float}
use uvm.Cbor.Value.{bool, null, undefined}
use uvm.Cbor.Value.{int_max, count_items}
use uvm.Cbor.Encoder.{
  write_cbor_object, write_array, write_scalar, write_type_value64, write_type_value,
}
use uvm.Cbor.Input.{has_bytes}
use uvm.Cbor.Builder.{Builder, DecodeError, ok, err, Node, put_decoded_value, empty_builder}
use uvm.Cbor.Decoder.{Decoder, DecoderState, stop, throw, round, on_state, on_type}
use uvm.Cbor.Decoder.{run, finish, on_major, on_nint, put_scalar, put_then}
use uvm.Cbor.Decoder.Termination.{Rounds, Rounds-trans, run_loop-Rounds, run_loop-Rounds_throw}
use uvm.Cbor.Codec.{cbor_encode, cbor_decode, cbor_deep_clone}
use uvm.Cbor.RoundTrip.Numbers.{
  at, decoder_of-at, in_state, number-Rounds, round_type, short_round, write_type_value-eq,
}
use uvm.Cbor.RoundTrip.Build.{between}
use uvm.Cbor.RoundTrip.Headers.{Consumes, negative-Consumes, array-Consumes}

module _ (double_text : ℕ → Bytes) (to_double : Bytes → Option ℕ) where
  -- The decoder reads all the bytes, and ends.
  run_of-Rounds :
      (bs : Bytes) (e : Decoder)
      → length bs < 2 ^ 31
      → Rounds to_double (at bs 0 empty_builder) e
      → round to_double e ≡ stop e
      → run to_double bs ≡ some (finish e)
  unfolding run
  run_of-Rounds bs e small rounds ended =
      let p = run_loop-Rounds to_double (2 * length bs + 2) tt (omega arith) rounds ended in
      rw (decoder_of-at bs small, p, run)

  end_of_buffer : (n : ℕ) (b : Builder) → round to_double (at [] n b) ≡ stop (at [] n b)
  unfolding round on_state on_type has_bytes
  end_of_buffer n b = refl

  length-write_type_value : (major n : ℕ) → length (write_type_value major n) ≤ 5
  unfolding write_type_value
  length-write_type_value major n = ground arith

  length-write_type_value64 : (major n : ℕ) → length (write_type_value64 major n) ≤ 9
  unfolding write_type_value64
  length-write_type_value64 major n = ground arith

  -- A builder that has stored one scalar.
  abbrev holding : Scalar → Builder
  holding s = between (Node.scalar s ∷ []) (some 0) [] none

  put_first : (s : Scalar) → put_decoded_value empty_builder (Node.scalar s) ≡ ok (holding s)
  unfolding put_decoded_value empty_builder
  put_first s = refl

  decode_scalar :
      (bs : Bytes) (s : Scalar)
      → length bs < 2 ^ 31
      → Consumes to_double bs empty_builder (holding s)
      → cbor_decode to_double bs ≡ some (ok (scalar s))
  unfolding cbor_decode finish
  decode_scalar bs s small c =
      let (m, rounds) = c [] 0 in
      let p =
        run_of-Rounds bs (at [] m (holding s)) small (rw append-nil at rounds)
          (end_of_buffer m _) in
      ground (arith, p)

  -- A negative `extra_int` that fits an `int` comes back one less: the encoder writes its value, and
  -- the decoder takes the bytes for -1 minus the value.
  pub cbor_deep_clone-extra_int_negative :
      (w : ℕ)
      → w ≤ int_max
      → cbor_deep_clone double_text to_double (scalar (extra_int w false))
        ≡ some (ok (scalar (int (negsuc w))))
  unfolding cbor_deep_clone write_cbor_object write_scalar
  cbor_deep_clone-extra_int_negative w h =
      decode_scalar (write_type_value64 1 w) (int (negsuc w))
        (omega (arith, length-write_type_value64 1 w))
        (negative-Consumes to_double w empty_builder (holding (int (negsuc w))) h (put_first _))

  -- A number below -2 ^ 32 is read in eight bytes, which leaves the decoder in the state that reads
  -- eight bytes more.
  nint-Rounds :
      (w : ℕ) (rest : Bytes) (n : ℕ) (b b' : Builder)
      → 2 ^ 32 ≤ w
      → w < 2 ^ 64
      → put_decoded_value b (Node.scalar (extra_int ((w + 1) % 2 ^ 64) false)) ≡ ok b'
      → (m : ℕ) × Rounds to_double
          (at (write_type_value64 1 w ++ rest) n b)
          (in_state DecoderState.state_nint rest 8 b')
  unfolding on_major on_state on_nint
  nint-Rounds w rest n b b' lo hi stored =
      number-Rounds to_double 1 DecoderState.state_nint (λ n d. put_scalar d (int (negsuc n)))
        (λ n d. put_scalar d (int (negsuc n)))
        (λ n d.
          if leb n int_max
          then put_scalar d (int (negsuc n))
          else put_scalar d (extra_int ((n + 1) % 2 ^ 32) false))
        (λ n d.
          put_then d DecoderState.state_nint (Node.scalar (extra_int ((n + 1) % 2 ^ 64) false)))
        b rest w (λ m. in_state DecoderState.state_nint rest 8 b') (λ d. refl) (λ d. refl)
        (λ d. refl) (λ d. refl) (λ d. refl) n hi (λ k lt. absurd (omega arith))
        (λ lt. absurd (omega arith)) (λ lt. absurd (omega arith)) (λ lt. absurd (omega arith))
        (λ ge. ground arith)

  -- The rest of an array is then lost: with less than eight bytes to come, the decoder stops there.
  nint_stop :
      (rest : Bytes) (b : Builder)
      → length rest < 8
      → round to_double (in_state DecoderState.state_nint rest 8 b)
        ≡ stop (in_state DecoderState.state_nint rest 8 b)
  unfolding round on_state on_nint has_bytes
  nint_stop rest b h = ground arith

  put_outer :
      put_decoded_value empty_builder (Node.array 2 [])
      ≡ ok (between (Node.array 2 [] ∷ []) (some 0) (0 ∷ []) none)
  unfolding put_decoded_value empty_builder
  put_outer = refl

  put_inner :
      (s : Scalar)
      → put_decoded_value (between (Node.array 2 [] ∷ []) (some 0) (0 ∷ []) none) (Node.scalar s)
        ≡ ok (between (Node.array 2 (1 ∷ []) ∷ Node.scalar s ∷ []) (some 0) (0 ∷ []) none)
  unfolding put_decoded_value
  put_inner s = refl

  abbrev outer_bytes : ℕ → Bytes → Bytes
  outer_bytes w tail = write_type_value 4 2 ++ (write_type_value64 1 w ++ tail)

  run-nint :
      (w : ℕ) (tail : Bytes)
      → 2 ^ 32 ≤ w
      → w < 2 ^ 63
      → length tail < 8
      → run to_double (outer_bytes w tail) ≡ some (err DecodeError.unfinished_structures)
  unfolding finish
  run-nint w tail lo hi short =
      let big = Node.scalar (extra_int ((w + 1) % 2 ^ 64) false) in
      let b1 = between (Node.array 2 [] ∷ []) (some 0) (0 ∷ []) none in
      let b2 = between (Node.array 2 (1 ∷ []) ∷ big ∷ []) (some 0) (0 ∷ []) none in
      let (m, first) =
        array-Consumes to_double 2 empty_builder b1 (omega arith) put_outer
          (write_type_value64 1 w ++ tail) 0 in
      let (k, second) = nint-Rounds w tail m b1 b2 lo (omega arith) (put_inner _) in
      run_of-Rounds (outer_bytes w tail) (in_state DecoderState.state_nint tail 8 b2)
        (omega (
          arith,
          length-append (write_type_value 4 2) (write_type_value64 1 w ++ tail),
          length-append (write_type_value64 1 w) tail,
          length-write_type_value 4 2,
          length-write_type_value64 1 w,
        ))
        (Rounds-trans to_double first second) (nint_stop tail b2 short)

  decode_err :
      (bs : Bytes) (e : DecodeError)
      → run to_double bs ≡ some (err e)
      → cbor_decode to_double bs ≡ some (err e)
  unfolding cbor_decode
  decode_err bs e p = rw (p, cbor_decode)

  encode_nint :
      (w : ℕ) (s : Scalar)
      → cbor_encode double_text (array (cons (scalar (int (negsuc w))) (cons (scalar s) nil)))
        ≡ outer_bytes w (write_scalar double_text s ++ [])
  unfolding cbor_encode write_array write_scalar count_items
  encode_nint w s = refl

  -- An array of a negative integer -1 - w, with w at least 2 ^ 32 and below 2 ^ 63, and one scalar whose
  -- encoding has fewer than 8 bytes cannot be cloned: decoding what encoding writes throws, because
  -- STATE_NINT is not left after eight bytes.
  pub cbor_deep_clone-nint_array :
      (w : ℕ) (s : Scalar)
      → 2 ^ 32 ≤ w
      → w < 2 ^ 63
      → length (write_scalar double_text s) < 8
      → cbor_deep_clone double_text to_double
          (array (cons (scalar (int (negsuc w))) (cons (scalar s) nil)))
        ≡ some (err DecodeError.unfinished_structures)
  unfolding cbor_deep_clone
  cbor_deep_clone-nint_array w s lo hi short =
      let tail : Bytes = write_scalar double_text s ++ [] in
      let shut : length tail < 8 = rw append-nil short in
      ap (cbor_decode to_double) (encode_nint w s)
      ∙ decode_err (outer_bytes w tail) _ (run-nint w tail lo hi shut)

  -- What a type byte of major type 7 and a minor type of 20 to 23 stands for.
  abbrev simple : ℕ → Scalar
  simple len =
      if len == 20
      then bool false
      else if len == 21
      then bool true
      else if len == 22
      then null
      else undefined

  run-float_text :
      (len c : ℕ) (rest : Bytes)
      → 20 ≤ len
      → len < 24
      → c < 24
      → length rest < 2 ^ 30
      → run to_double (write_type_value 7 len ++ ((1 * 32 + c) ∷ rest))
        ≡ some (err DecodeError.multiple_objects)
  unfolding run
  run-float_text len c rest lo hi small short =
      let bs = write_type_value 7 len ++ ((1 * 32 + c) ∷ rest) in
      let p = run_loop-Rounds_throw to_double (2 * length bs + 2) tt (omega arith) start again in
      let fits : length bs < 2 ^ 31 = omega (
        arith,
        length-append (write_type_value 7 len) ((1 * 32 + c) ∷ rest),
        length-write_type_value 7 len,
      ) in
      rw (decoder_of-at bs fits, p, run)
    where
      start :
          Rounds to_double
            (at (write_type_value 7 len ++ ((1 * 32 + c) ∷ rest)) 0 empty_builder)
            (at ((1 * 32 + c) ∷ rest) 0 (holding (simple len)))
      start = rw (write_type_value-eq 7 len (omega arith)) (
          short_round to_double 7 empty_builder ((1 * 32 + c) ∷ rest) len 0 _ hi
            (unfold on_major in ground (arith, put_first (simple len))))

      again :
          round to_double (at ((1 * 32 + c) ∷ rest) 0 (holding (simple len)))
          ≡ throw DecodeError.multiple_objects
      again =
          round_type to_double 1 c 0 rest (holding (simple len)) (omega arith)
          ∙ (unfold on_major put_decoded_value in ground arith)

  encode_float :
      (d c : ℕ) (cs : Bytes)
      → double_text d ≡ (32 + c) ∷ cs
      → length (double_text d) < 24
      → cbor_encode double_text (scalar (float d))
        ≡ write_type_value 7 (length (double_text d))
          ++ ((32 + c) ∷ (cs ++ replicate (40 - length (double_text d)) 0))
  unfolding cbor_encode write_scalar
  encode_float d c cs text hi =
      let len = length (double_text d) in
      let zeros : Bytes = replicate (40 - len) 0 in
      let same : len % 2 ^ 32 ≡ len = omega arith in
      rw same (ap (λ t. write_type_value 7 len ++ (t ++ zeros)) text)

  float_rest :
      (d c : ℕ) (cs : Bytes)
      → double_text d ≡ (32 + c) ∷ cs
      → length (double_text d) < 24
      → length (cs ++ replicate (40 - length (double_text d)) 0) < 2 ^ 30
  float_rest d c cs text hi =
      let size : length (double_text d) ≡ suc (length cs) = ap length text in
      omega (
        arith,
        size,
        length-append cs (replicate (40 - length (double_text d)) 0),
        length-replicate {A = ℕ} (40 - length (double_text d)) 0,
      )

  -- A double whose text has 20 to 23 characters, the first of them of a code from 32 to 55 (a minus sign or
  -- a digit below 8), cannot be cloned: its type byte reads as false, true, null or undefined, and decoding
  -- throws.
  pub cbor_deep_clone-float_text :
      (d c : ℕ) (cs : Bytes)
      → double_text d ≡ (32 + c) ∷ cs
      → c < 24
      → 20 ≤ length (double_text d)
      → length (double_text d) < 24
      → cbor_deep_clone double_text to_double (scalar (float d))
        ≡ some (err DecodeError.multiple_objects)
  unfolding cbor_deep_clone
  cbor_deep_clone-float_text d c cs text small lo hi =
      ap (cbor_decode to_double) (encode_float d c cs text hi)
      ∙ decode_err _ _
          (run-float_text (length (double_text d)) c _ lo hi small (float_rest d c cs text hi))
