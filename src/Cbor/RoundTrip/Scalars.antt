-- ===== src/Cbor/RoundTrip/Scalars.antt =====
-- Every object that holds no other comes back, as its normal form.
use uvm.Base.{ℕ, ◌+◌, ◌-◌, ◌*◌, ◌%◌, ◌^◌, ◌≤◌, ◌<◌, ◌≡◌, ◌⊎◌, arith}
use uvm.Base.{Option, some, ◌∙◌, true, false, [], ◌∷◌, ◌++◌, length, replicate, append_assoc}
use uvm.Base.Int.{pos, negsuc}
use uvm.Cbor.Value.{Bytes, Scalar, null, undefined, bool, int, extra_int, bytes, string, float, tag}
use uvm.Cbor.Value.{extra_tag}
use uvm.Cbor.Encoder.{write_type_value, write_scalar, write_string}
use uvm.Cbor.Builder.{Builder}
use uvm.Cbor.Decoder.{continue, on_major}
use uvm.Cbor.Decoder.Termination.{Rounds-trans, here, more}
use uvm.Cbor.RoundTrip.Codable.{normal, IsCodableScalar}
use uvm.Cbor.RoundTrip.Numbers.{at, round_type}
use uvm.Cbor.RoundTrip.Headers.{
  Consumes, Stores, positive-Consumes, negative-Consumes, tag-Consumes,
}
use uvm.Cbor.RoundTrip.Texts.{
  bytes_size, string_size, float_size, bytes_data, string_data, float_data,
}

module _ (to_double : Bytes → Option ℕ) (b b' : Builder) where
  -- A type byte that stands for a value by itself.
  simple-Consumes :
      (minor : ℕ)
      → minor < 32
      → ((rest : Bytes) (n : ℕ) → on_major (at rest n b) 7 minor ≡ continue (at rest n b'))
      → Consumes to_double ((7 * 32 + minor) ∷ []) b b'
  simple-Consumes minor h e rest n =
      (n, more (round_type to_double 7 minor n rest b h ∙ e rest n) here)

  bytes-Consumes :
      (bs : Bytes)
      → length bs < 2 ^ 31
      → Stores b b' (bytes bs)
      → Consumes to_double (write_type_value 2 (length bs) ++ bs) b b'
  bytes-Consumes bs h stored rest n =
      let (m, r) = bytes_size to_double b (bs ++ rest) (length bs) n h in
      rw append_assoc (
        length bs,
        Rounds-trans to_double r (more (bytes_data to_double b b' bs h rest stored) here),
      )

  string-Consumes :
      (s : Bytes)
      → length s < 2 ^ 31
      → Stores b b' (string s)
      → Consumes to_double (write_type_value 3 (length s) ++ s) b b'
  string-Consumes s h stored rest n =
      let (m, r) = string_size to_double b (s ++ rest) (length s) n h in
      rw append_assoc (
        length s,
        Rounds-trans to_double r (more (string_data to_double b b' s h rest stored) here),
      )

  float-Consumes :
      (text : Bytes) (d : ℕ)
      → length text < 2 ^ 31
      → (length text < 20) ⊎ (24 ≤ length text)
      → to_double text ≡ some d
      → Stores b b' (float d)
      → Consumes to_double
          (write_type_value 7 (length text) ++ (text ++ replicate (40 - length text) 0))
          b
          b'
  float-Consumes text d h apart reads stored rest n =
      let (m, r) =
        float_size to_double b (text ++ (replicate (40 - length text) 0 ++ rest)) (length text) n h
          apart in
      simp append_assoc (
        length text,
        Rounds-trans to_double r (more (float_data to_double b b' text h rest d reads stored) here),
      )

  -- A size below 2 ^ 32 is not cut.
  small : (n : ℕ) → n < 2 ^ 31 → n % 2 ^ 32 ≡ n
  small n h = omega arith

  pub write_string-Consumes :
      (s : Bytes)
      → length s < 2 ^ 31
      → Stores b b' (string s)
      → Consumes to_double (write_string s) b b'
  unfolding write_string
  write_string-Consumes s h stored = rw (small (length s) h) (string-Consumes s h stored)

  pub write_scalar-Consumes :
      (double_text : ℕ → Bytes) (s : Scalar)
      → IsCodableScalar double_text to_double s
      → Stores b b' (normal s)
      → Consumes to_double (write_scalar double_text s) b b'
  unfolding write_scalar normal
  write_scalar-Consumes double_text null c stored =
      simple-Consumes 22 (omega arith) (λ rest n. unfold on_major in ground arith)
  write_scalar-Consumes double_text undefined c stored =
      simple-Consumes 23 (omega arith) (λ rest n. unfold on_major in ground arith)
  write_scalar-Consumes double_text (bool true) c stored =
      simple-Consumes 21 (omega arith) (λ rest n. unfold on_major in ground arith)
  write_scalar-Consumes double_text (bool false) c stored =
      simple-Consumes 20 (omega arith) (λ rest n. unfold on_major in ground arith)
  write_scalar-Consumes double_text (int (pos v)) c stored =
      positive-Consumes to_double v b b' (omega arith) stored
  write_scalar-Consumes double_text (int (negsuc v)) c stored =
      negative-Consumes to_double v b b' c stored
  write_scalar-Consumes double_text (extra_int v true) c stored =
      positive-Consumes to_double v b b' c stored
  write_scalar-Consumes double_text (extra_int v false) c stored = absurd c
  write_scalar-Consumes double_text (bytes bs) c stored =
      rw (small (length bs) c) (bytes-Consumes bs c stored)
  write_scalar-Consumes double_text (string s) c stored = write_string-Consumes s c stored
  write_scalar-Consumes double_text (float d) c stored =
      rw (small (length (double_text d)) c.0) (float-Consumes (double_text d) d c.0 c.1 c.2 stored)
  write_scalar-Consumes double_text (tag t) c stored =
      let same : t % 2 ^ 32 ≡ t = omega arith in rw same (tag-Consumes to_double t b b' c stored)
  write_scalar-Consumes double_text (extra_tag t) c stored =
      tag-Consumes to_double (t % 2 ^ 32) b b' (omega arith) stored
