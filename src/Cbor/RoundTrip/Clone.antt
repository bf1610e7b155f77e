-- ===== src/Cbor/RoundTrip/Clone.antt =====
-- `cbor_deep_clone` of a codable object.
use uvm.Base.{ℕ, ◌+◌, ◌*◌, ◌^◌, ◌<◌, ◌≡◌, refl, arith, Option, some, []}
use uvm.Base.{append-nil, length}
use uvm.Cbor.Value.{Bytes, CborObject, scalar, array, map, Items, nil, cons, Entries, end, entry}
use uvm.Cbor.Encoder.{write_cbor_object}
use uvm.Cbor.Input.{has_bytes}
use uvm.Cbor.Builder.{Builder, ok, empty_builder}
use uvm.Cbor.Decoder.{stop, round, on_state, on_type, run_loop, run}
use uvm.Cbor.Decoder.Termination.{run_loop-Rounds}
use uvm.Cbor.RoundTrip.Codable.{IsCodable, AreCodable, AreCodableEntries}
use uvm.Cbor.RoundTrip.Numbers.{at, decoder_of-at}
use uvm.Cbor.RoundTrip.Objects.{write_cbor_object-Consumes}
use uvm.Cbor.RoundTrip.Build.{layout, between}
use uvm.Cbor.RoundTrip.Whole.{IsOrdered, AreOrdered, AreOrderedEntries, build_first}

module _ (double_text : ℕ → Bytes) (to_double : Bytes → Option ℕ) where
  mutual
    codable-IsOrdered : (v : CborObject) → IsCodable double_text to_double v → IsOrdered v
    codable-IsOrdered (scalar s) c = tt
    codable-IsOrdered (array xs) c = codable-AreOrdered xs c.1
    codable-IsOrdered (map es) c = codable-AreOrderedEntries es c.1

    codable-AreOrdered : (xs : Items) → AreCodable double_text to_double xs → AreOrdered xs
    codable-AreOrdered nil c = tt
    codable-AreOrdered (cons x xs) c = (codable-IsOrdered x c.0, codable-AreOrdered xs c.1)

    codable-AreOrderedEntries :
        (es : Entries) → AreCodableEntries double_text to_double es → AreOrderedEntries es
    codable-AreOrderedEntries end c = tt
    codable-AreOrderedEntries (entry k x es) c =
        (c.2, codable-IsOrdered x c.1, codable-AreOrderedEntries es c.3)

  -- At the end of the buffer the loop breaks.
  end_stop : (n : ℕ) (b : Builder) → round to_double (at [] n b) ≡ stop (at [] n b)
  unfolding round on_state on_type has_bytes
  end_stop n b = refl

  -- The decoder makes exactly the nodes of the object, and the first is the result.
  pub run-write_cbor_object :
      (v : CborObject)
      → IsCodable double_text to_double v
      → length (write_cbor_object double_text v) < 2 ^ 31
      → run to_double (write_cbor_object double_text v) ≡ some (ok (layout v 0, 0))
  unfolding run
  run-write_cbor_object v c small =
      let bs = write_cbor_object double_text v in
      let (k, absorbs) = build_first v (codable-IsOrdered v c) in
      let b' = between (layout v 0) (some 0) [] k in
      let (m, rounds) = write_cbor_object-Consumes double_text to_double v _ b' c absorbs [] 0 in
      let ended : run_loop to_double (2 * length bs + 2) (at bs 0 empty_builder)
          ≡ some (ok (at [] m b')) =
        run_loop-Rounds to_double (2 * length bs + 2) tt (omega arith) (rw append-nil at rounds)
          (end_stop m b') in
      rw (decoder_of-at bs small, ended, run)
