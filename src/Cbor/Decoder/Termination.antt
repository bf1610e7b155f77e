-- ===== src/Cbor/Decoder/Termination.antt =====
-- The loop of `decoder::run` ends on every input.
use uvm.Base.{ℕ, zero, suc, ◌+◌, ◌-◌, ◌*◌, ◌/◌, ◌%◌, ◌<◌, ◌≡◌, refl, ◌⊎◌, arith}
use uvm.Base.{Option, some, List, length, drop, length-drop}
use mathlib.Core.Path.{subst}
use uvm.Cbor.Value.{Bytes}
use uvm.Cbor.Input.{
  input_of_le, has_bytes, get_byte, get_short, get_int, get_long, get_bytes, skip_bytes,
}
use uvm.Cbor.Builder.{DecodeError, Result, ok, err, Ref, Node}
use uvm.Cbor.Decoder.{Decoder, DecoderState, Round, continue, stop, throw}
use uvm.Cbor.Decoder.{on_type, on_major, on_pint, on_nint, on_size, on_bytes_data, on_string_data}
use uvm.Cbor.Decoder.{on_array_size, on_map_size, on_tag_value, on_float_data, on_state, round}
use uvm.Cbor.Decoder.{run_loop, decoder_of, run, finish}

abbrev pub IsLength : ℕ → Type 0
IsLength n = (n ≡ 1) ⊎ (n ≡ 2) ⊎ (n ≡ 4) ⊎ (n ≡ 8)

-- In the states that read a number, `_currentLength` is one of the four lengths of the switch.
abbrev pub IsReadyIn : DecoderState → ℕ → Type 0
IsReadyIn DecoderState.state_type n = Unit
IsReadyIn DecoderState.state_bytes_data n = Unit
IsReadyIn DecoderState.state_string_data n = Unit
IsReadyIn DecoderState.state_float_data n = Unit
IsReadyIn DecoderState.state_special n = Unit
IsReadyIn DecoderState.state_error n = Unit
IsReadyIn _ n = IsLength n

abbrev pub IsReady : Decoder → Type 0
IsReady d = IsReadyIn d.state d.current_length

abbrev pub rank : DecoderState → ℕ
rank DecoderState.state_type = 0
rank _ = 1

-- Twice the unread bytes, and one more unless the next byte is a type.
abbrev pub measure : Decoder → ℕ
measure d = 2 * length d.input.pending + rank d.state

abbrev pub Shrinks : ℕ → Round → Type 0
Shrinks n (continue d) = IsReady d × (measure d < n)
Shrinks n _ = Unit

length-drops :
    (bs : Bytes)
    → (length (drop 1 bs) ≡ length bs - 1)
      × (length (drop 2 bs) ≡ length bs - 2)
      × (length (drop 4 bs) ≡ length bs - 4)
      × (length (drop 8 bs) ≡ length bs - 8)
length-drops bs = (length-drop 1 bs, length-drop 2 bs, length-drop 4 bs, length-drop 8 bs)

-- A state that reads a number: it takes one of the four lengths, and goes on to a type or to data.
module _ (n : ℕ) (d : Decoder) (r : IsLength d.current_length)
    (top : n ≡ 2 * length d.input.pending + 1) where
  on_pint-Shrinks : Shrinks n (on_pint d)
  unfolding on_pint has_bytes get_byte get_short get_int get_long
  on_pint-Shrinks = ground (arith, length-drops d.input.pending)

  on_nint-Shrinks : Shrinks n (on_nint d)
  unfolding on_nint has_bytes get_byte get_short get_int get_long
  on_nint-Shrinks = ground (arith, length-drops d.input.pending)

  on_array_size-Shrinks : Shrinks n (on_array_size d)
  unfolding on_array_size has_bytes get_byte get_short get_int get_long
  on_array_size-Shrinks = ground (arith, length-drops d.input.pending)

  on_map_size-Shrinks : Shrinks n (on_map_size d)
  unfolding on_map_size has_bytes get_byte get_short get_int get_long
  on_map_size-Shrinks = ground (arith, length-drops d.input.pending)

  on_tag_value-Shrinks : Shrinks n (on_tag_value d)
  unfolding on_tag_value has_bytes get_byte get_short get_int get_long
  on_tag_value-Shrinks = ground (arith, length-drops d.input.pending)

  on_size-Shrinks :
      (next : DecoderState) (e : DecodeError)
      → ((v : ℕ) → IsReadyIn next v)
      → rank next ≡ 1
      → Shrinks n (on_size next e d)
  unfolding on_size has_bytes get_byte get_short get_int get_long
  on_size-Shrinks next e ready one = ground (
    arith,
    length-drops d.input.pending,
    ready (get_byte d.input).0,
    ready (get_short d.input).0,
    ready (get_int d.input).0,
  )

-- A state that reads data takes any number of bytes, none at all too, and goes on to a type.
module _ (n : ℕ) (d : Decoder) (top : n ≡ 2 * length d.input.pending + 1) where
  on_bytes_data-Shrinks : Shrinks n (on_bytes_data d)
  unfolding on_bytes_data has_bytes get_bytes
  on_bytes_data-Shrinks = ground (arith, length-drop d.current_length d.input.pending)

  on_string_data-Shrinks : Shrinks n (on_string_data d)
  unfolding on_string_data has_bytes get_bytes
  on_string_data-Shrinks = ground (arith, length-drop d.current_length d.input.pending)

  on_float_data-Shrinks : (to_double : Bytes → Option ℕ) → Shrinks n (on_float_data to_double d)
  unfolding on_float_data has_bytes get_bytes skip_bytes
  on_float_data-Shrinks to_double =
      let (text, rest) = get_bytes d.current_length d.input in
      ground (
        arith,
        length-drop d.current_length d.input.pending,
        length-drop (40 - length text) rest.pending,
      )

-- The lengths that a type byte leaves are those of the switch.
on_major-Shrinks :
    (n : ℕ) (d : Decoder) (major minor : ℕ)
    → 2 * length d.input.pending + 1 < n
    → Shrinks n (on_major d major minor)
unfolding on_major
on_major-Shrinks n d major minor h = ground arith

on_type-Shrinks : (d : Decoder) → Shrinks (2 * length d.input.pending) (on_type d)
unfolding on_type has_bytes get_byte
on_type-Shrinks d =
    let (type, rest) = get_byte d.input in
    ground (
      arith,
      length-drop 1 d.input.pending,
      on_major-Shrinks (2 * length d.input.pending) (record d { input = rest }) (type / 32)
          (type % 32),
    )

module _ (to_double : Bytes → Option ℕ) where
  on_state-Shrinks :
      (s : DecoderState) (d : Decoder)
      → IsReadyIn s d.current_length
      → Shrinks (2 * length d.input.pending + rank s) (on_state to_double s d)
  unfolding on_state
  on_state-Shrinks DecoderState.state_type d r = ground (arith, on_type-Shrinks d)
  on_state-Shrinks DecoderState.state_pint d r = on_pint-Shrinks _ d r refl
  on_state-Shrinks DecoderState.state_nint d r = on_nint-Shrinks _ d r refl
  on_state-Shrinks DecoderState.state_bytes_size d r = on_size-Shrinks _ d r refl _ _ (λ v. tt) refl
  on_state-Shrinks DecoderState.state_bytes_data d r = on_bytes_data-Shrinks _ d refl
  on_state-Shrinks DecoderState.state_string_size d r =
      on_size-Shrinks _ d r refl _ _ (λ v. tt) refl
  on_state-Shrinks DecoderState.state_string_data d r = on_string_data-Shrinks _ d refl
  on_state-Shrinks DecoderState.state_float_size d r = on_size-Shrinks _ d r refl _ _ (λ v. tt) refl
  on_state-Shrinks DecoderState.state_float_data d r = on_float_data-Shrinks _ d refl to_double
  on_state-Shrinks DecoderState.state_array d r = on_array_size-Shrinks _ d r refl
  on_state-Shrinks DecoderState.state_map d r = on_map_size-Shrinks _ d r refl
  on_state-Shrinks DecoderState.state_tag d r = on_tag_value-Shrinks _ d r refl
  on_state-Shrinks DecoderState.state_special d r = tt
  on_state-Shrinks DecoderState.state_error d r = tt

  -- One round of the loop keeps the invariant, and takes the measure down.
  pub round-Shrinks : (d : Decoder) → IsReady d → Shrinks (measure d) (round to_double d)
  unfolding round
  round-Shrinks d r = on_state-Shrinks d.state d r

  run_loop_total :
      (fuel : ℕ) (d : Decoder)
      → IsReady d
      → measure d < fuel
      → (r : Result Decoder) × (run_loop to_double fuel d ≡ some r)
  unfolding run_loop
  run_loop_total zero d ready h = absurd (omega arith)
  run_loop_total (suc fuel) d ready h =
      go (round to_double d) refl (round-Shrinks d ready) (run_loop_total fuel)
    where
      go :
          (r : Round)
          → round to_double d ≡ r
          → Shrinks (measure d) r
          → ((d' : Decoder)
              → IsReady d'
              → measure d' < fuel
              → (o : Result Decoder) × (run_loop to_double fuel d' ≡ some o))
          → (o : Result Decoder) × (run_loop to_double (suc fuel) d ≡ some o)
      go (continue d') e s ih = let (o, q) = ih d' s.0 (omega arith) in (o, rw (e, run_loop) q)
      go (stop d') e s ih = (ok d', rw (e, run_loop))
      go (throw x) e s ih = (err x, rw (e, run_loop))

  -- On every input the decoder ends, with an object or with an exception.
  pub run_total : (bs : Bytes) → (r : Result (List Node × Ref)) × (run to_double bs ≡ some r)
  unfolding run decoder_of
  run_total bs =
      go (run_loop_total (2 * length bs + 2) (decoder_of bs) tt (omega (arith, input_of_le bs)))
    where
      go :
          (o : Result Decoder) × (run_loop to_double (2 * length bs + 2) (decoder_of bs) ≡ some o)
          → (r : Result (List Node × Ref)) × (run to_double bs ≡ some r)
      go (ok d, e) = (finish d, rw (e, run))
      go (err x, e) = (err x, rw (e, run))

  -- Some rounds that go on, one after the other.
  pub data Rounds : Decoder → Decoder → Type 0 where
    here : {d : Decoder} → Rounds d d
    more : {d d' e : Decoder} → round to_double d ≡ continue d' → Rounds d' e → Rounds d e

  pub Rounds-trans : {c d e : Decoder} → Rounds c d → Rounds d e → Rounds c e
  Rounds-trans here s = s
  Rounds-trans (more e r) s = more e (Rounds-trans r s)

  -- The loop gets to the end of any rounds that go on.
  pub run_loop-Rounds :
      {d e : Decoder} (fuel : ℕ)
      → IsReady d
      → measure d < fuel
      → Rounds d e
      → round to_double e ≡ stop e
      → run_loop to_double fuel d ≡ some (ok e)
  unfolding run_loop
  run_loop-Rounds zero ready h r s = absurd (omega arith)
  run_loop-Rounds (suc fuel) ready h here s = rw (s, run_loop)
  run_loop-Rounds (suc fuel) ready h (more {d} {d'} p r) s =
      let shrinks : Shrinks (measure d) (continue d') =
        subst (Shrinks (measure d)) p (round-Shrinks d ready) in
      rw (p, run_loop) (run_loop-Rounds fuel shrinks.0 (omega arith) r s)

  -- And to the exception that the next round throws.
  pub run_loop-Rounds_throw :
      {d e : Decoder} {x : DecodeError} (fuel : ℕ)
      → IsReady d
      → measure d < fuel
      → Rounds d e
      → round to_double e ≡ throw x
      → run_loop to_double fuel d ≡ some (err x)
  unfolding run_loop
  run_loop-Rounds_throw zero ready h r s = absurd (omega arith)
  run_loop-Rounds_throw (suc fuel) ready h here s = rw (s, run_loop)
  run_loop-Rounds_throw (suc fuel) ready h (more {d} {d'} p r) s =
      let shrinks : Shrinks (measure d) (continue d') =
        subst (Shrinks (measure d)) p (round-Shrinks d ready) in
      rw (p, run_loop) (run_loop-Rounds_throw fuel shrinks.0 (omega arith) r s)
