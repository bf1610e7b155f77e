-- ===== src/Cbor/RoundTrip/Numbers.antt =====
-- The decoder reads the number that stands at the front of each object: src/cborcpp/encoder.cpp's
-- `write_type_value` against the states of src/cborcpp/decoder.cpp.
use uvm.Base.{ℕ, ◌+◌, ◌*◌, ◌/◌, ◌%◌, ◌^◌, ◌≤◌, ◌<◌, ◌≡◌, ap, length, inl, inr, arith}
use uvm.Base.{Option, ◌∙◌, [], ◌∷◌, ◌++◌, true, ltb, lt_or_ge}
use uvm.Cbor.Value.{Bytes}
use uvm.Cbor.Input.{Input, input_of_small, has_bytes, get_byte, get_short, get_int, get_long}
use uvm.Cbor.Encoder.{write_type_value, write_type_value64}
use uvm.Cbor.Builder.{Builder, empty_builder}
use uvm.Cbor.Decoder.{
  decoder_of, Decoder, DecoderState, Round, continue, on_state, round, on_major, on_type,
}
use uvm.Cbor.Decoder.{switch_length, expect, on_state}
use uvm.Cbor.Decoder.Termination.{Rounds, here, more}

-- A decoder before these bytes, inside its buffer.
abbrev pub in_state : DecoderState → Bytes → ℕ → Builder → Decoder
in_state s bs n b = record {
  input = record { pending = bs; overrun = 0 };
  state = s;
  current_length = n;
  builder = b;
}

abbrev pub at : Bytes → ℕ → Builder → Decoder
at = in_state DecoderState.state_type

-- The decoder on a buffer whose size an `int` holds.
pub decoder_of-at : (bs : Bytes) → length bs < 2 ^ 31 → decoder_of bs ≡ at bs 0 empty_builder
unfolding decoder_of
decoder_of-at bs h =
    ap {A = Input} {B = Decoder}
      (λ i. record {
        input = i;
        state = DecoderState.state_type;
        current_length = 0;
        builder = empty_builder;
      })
      (input_of_small bs h)

module _ (to_double : Bytes → Option ℕ) where
  pub round_type :
      (major minor n : ℕ) (rest : Bytes) (b : Builder)
      → minor < 32
      → round to_double (at ((major * 32 + minor) ∷ rest) n b) ≡ on_major (at rest n b) major minor
  unfolding round on_type has_bytes get_byte
  round_type major minor n rest b h = ground (arith, digits)
    where
      digits : ((major * 32 + minor) / 32 ≡ major) × ((major * 32 + minor) % 32 ≡ minor)
      digits = (omega arith, omega arith)

pub write_type_value-eq :
    (major v : ℕ) → v < 2 ^ 32 → write_type_value major v ≡ write_type_value64 major v
unfolding write_type_value write_type_value64
write_type_value-eq major v h = ground arith

-- A number below 24 stands in the type byte.
pub short_round :
    (to_double : Bytes → Option ℕ) (major : ℕ) (b : Builder) (rest : Bytes) (v n : ℕ) (e : Decoder)
    → v < 24
    → on_major (at rest n b) major v ≡ continue e
    → Rounds to_double (at (write_type_value64 major v ++ rest) n b) e
unfolding write_type_value64
short_round to_double major b rest v n e h p =
    let lt : ltb v 24 ≡ true = ground arith in
    rw lt (more (round_type to_double major v n rest b (omega arith) ∙ p) here)

-- A number of a type, and what each case of the switch does with it.
module _ (to_double : Bytes → Option ℕ) (major : ℕ) (next : DecoderState)
    (one two four eight : ℕ → Decoder → Round) (b : Builder) (rest : Bytes) (v : ℕ)
    (target : ℕ → Decoder) (ready_one : (d : Decoder) → on_major d major 24 ≡ expect d next 1)
    (ready_two : (d : Decoder) → on_major d major 25 ≡ expect d next 2)
    (ready_four : (d : Decoder) → on_major d major 26 ≡ expect d next 4)
    (ready_eight : (d : Decoder) → on_major d major 27 ≡ expect d next 8)
    (switch : (d : Decoder) → on_state to_double next d ≡ switch_length d one two four eight) where
  abbrev after : ℕ → Decoder
  after n = in_state next rest n b

  -- A number in bytes of its own: one round for the type, and one for the bytes.
  long-Rounds :
      (n minor len : ℕ) (digits : Bytes)
      → minor < 32
      → ((d : Decoder) → on_major d major minor ≡ expect d next len)
      → write_type_value64 major v ≡ (major * 32 + minor) ∷ digits
      → switch_length (in_state next (digits ++ rest) len b) one two four eight
        ≡ continue (target len)
      → Rounds to_double (at (write_type_value64 major v ++ rest) n b) (target len)
  unfolding round
  long-Rounds n minor len digits h ready front read = rw front (
      more (round_type to_double major minor n (digits ++ rest) b h ∙ ready _)
        (more (switch _ ∙ read) here))

  -- The bytes of a number, and that the switch puts it together again.
  one-Rounds :
      (n : ℕ)
      → 24 ≤ v
      → v < 256
      → one v (after 1) ≡ continue (target 1)
      → Rounds to_double (at (write_type_value64 major v ++ rest) n b) (target 1)
  unfolding write_type_value64 has_bytes get_byte
  one-Rounds n lo hi e =
      long-Rounds n 24 1 ((v % 256) ∷ []) (omega arith) ready_one (ground arith)
        (ground (arith, same))
    where
      same : v % 256 ≡ v
      same = omega arith

  two-Rounds :
      (n : ℕ)
      → 256 ≤ v
      → v < 65536
      → two v (after 2) ≡ continue (target 2)
      → Rounds to_double (at (write_type_value64 major v ++ rest) n b) (target 2)
  unfolding write_type_value64 has_bytes get_short
  two-Rounds n lo hi e =
      long-Rounds n 25 2 ((v / 2 ^ 8 % 256) ∷ (v % 256) ∷ []) (omega arith) ready_two (ground arith)
        (ground (arith, sum))
    where
      sum : v / 2 ^ 8 % 256 * 256 + v % 256 ≡ v
      sum = omega arith

  four-Rounds :
      (n : ℕ)
      → 65536 ≤ v
      → v < 2 ^ 32
      → four v (after 4) ≡ continue (target 4)
      → Rounds to_double (at (write_type_value64 major v ++ rest) n b) (target 4)
  unfolding write_type_value64 has_bytes get_int
  four-Rounds n lo hi e =
      long-Rounds n 26 4
        ((v / 2 ^ 24 % 256) ∷ (v / 2 ^ 16 % 256) ∷ (v / 2 ^ 8 % 256) ∷ (v % 256) ∷ []) (omega arith)
        ready_four (ground arith) (ground (arith, sum))
    where
      sum :
          v / 2 ^ 24 % 256 * 2 ^ 24 + v / 2 ^ 16 % 256 * 2 ^ 16 + v / 2 ^ 8 % 256 * 2 ^ 8 + v % 256
          ≡ v
      sum = omega arith

  eight-Rounds :
      (n : ℕ)
      → 2 ^ 32 ≤ v
      → v < 2 ^ 64
      → eight v (after 8) ≡ continue (target 8)
      → Rounds to_double (at (write_type_value64 major v ++ rest) n b) (target 8)
  unfolding write_type_value64 has_bytes get_long
  eight-Rounds n lo hi e =
      long-Rounds n 27 8
        ((v / 2 ^ 56 % 256)
          ∷ (v / 2 ^ 48 % 256)
          ∷ (v / 2 ^ 40 % 256)
          ∷ (v / 2 ^ 32 % 256)
          ∷ (v / 2 ^ 24 % 256)
          ∷ (v / 2 ^ 16 % 256)
          ∷ (v / 2 ^ 8 % 256)
          ∷ (v % 256)
          ∷ [])
        (omega arith) ready_eight (ground arith) (ground (arith, sum))
    where
      sum :
          (v / 2 ^ 56 % 256 * 2 ^ 24
                + v / 2 ^ 48 % 256 * 2 ^ 16
                + v / 2 ^ 40 % 256 * 2 ^ 8
                + v / 2 ^ 32 % 256)
              * 2 ^ 32
            + (v / 2 ^ 24 % 256 * 2 ^ 24
                + v / 2 ^ 16 % 256 * 2 ^ 16
                + v / 2 ^ 8 % 256 * 2 ^ 8
                + v % 256)
          ≡ v
      sum = omega arith

  -- The number is read, whatever its size: what each case does with it leads to the target.
  pub number-Rounds :
      (n : ℕ)
      → v < 2 ^ 64
      → ((k : ℕ) → v < 24 → on_major (at rest k b) major v ≡ continue (target k))
      → (v < 256 → one v (after 1) ≡ continue (target 1))
      → (v < 65536 → two v (after 2) ≡ continue (target 2))
      → (v < 2 ^ 32 → four v (after 4) ≡ continue (target 4))
      → (2 ^ 32 ≤ v → eight v (after 8) ≡ continue (target 8))
      → (m : ℕ) × Rounds to_double (at (write_type_value64 major v ++ rest) n b) (target m)
  number-Rounds n h e0 e1 e2 e4 e8 = elim (lt_or_ge v 24) [
    | inl lt ↦ (n, short_round to_double major b rest v n (target n) lt (e0 n lt))
    | inr ge ↦ elim (lt_or_ge v 256) [
      | inl lt ↦ (1, one-Rounds n ge lt (e1 lt))
      | inr ge ↦ elim (lt_or_ge v 65536) [
        | inl lt ↦ (2, two-Rounds n ge lt (e2 lt))
        | inr ge ↦ elim (lt_or_ge v (2 ^ 32)) [
          | inl lt ↦ (4, four-Rounds n ge lt (e4 lt))
          | inr ge ↦ (8, eight-Rounds n ge h (e8 ge))
        ]
      ]
    ]
  ]
