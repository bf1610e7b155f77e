-- ===== src/Cbor/RoundTrip/Objects.antt =====
-- Whole objects: the decoder hands their parts to `put_decoded_value`, in the encoder's order.
use uvm.Base.{ℕ, ◌%◌, ◌^◌, ◌<◌, ◌≡◌, arith, Option, [], ◌++◌, append_assoc}
use uvm.Cbor.Value.{Bytes, string, CborObject, scalar, array, map, Items, nil, cons, Entries, end}
use uvm.Cbor.Value.{entry, count_items, count_entries}
use uvm.Cbor.Encoder.{write_cbor_object, write_items, write_entries, write_array, write_map}
use uvm.Cbor.Builder.{Builder, Node, ok, put_decoded_value}
use uvm.Cbor.Decoder.Termination.{Rounds-trans, here}
use uvm.Cbor.RoundTrip.Codable.{normal, IsCodable, AreCodable, AreCodableEntries}
use uvm.Cbor.RoundTrip.Headers.{Consumes, array-Consumes, map-Consumes}
use uvm.Cbor.RoundTrip.Scalars.{write_scalar-Consumes, write_string-Consumes}

-- The node that is stored when an object begins.
abbrev pub first_node : CborObject → Node
first_node (scalar s) = Node.scalar (normal s)
first_node (array xs) = Node.array (count_items xs) []
first_node (map es) = Node.map (count_entries es) []

-- The calls of `put_decoded_value` that an object's parts make lead from one builder to another.
abbrev mutual
  pub Absorbs : CborObject → Builder → Builder → Type 0
  Absorbs (scalar s) b b' = put_decoded_value b (Node.scalar (normal s)) ≡ ok b'
  Absorbs (array xs) b b' =
      (c : Builder) × (put_decoded_value b (Node.array (count_items xs) []) ≡ ok c)
      × AbsorbsItems xs c b'
  Absorbs (map es) b b' =
      (c : Builder) × (put_decoded_value b (Node.map (count_entries es) []) ≡ ok c)
      × AbsorbsEntries es c b'

  pub AbsorbsItems : Items → Builder → Builder → Type 0
  AbsorbsItems nil b b' = b ≡ b'
  AbsorbsItems (cons x xs) b b' = (c : Builder) × Absorbs x b c × AbsorbsItems xs c b'

  pub AbsorbsEntries : Entries → Builder → Builder → Type 0
  AbsorbsEntries end b b' = b ≡ b'
  AbsorbsEntries (entry k x es) b b' =
      (c d : Builder) × (put_decoded_value b (Node.scalar (string k)) ≡ ok c)
      × Absorbs x c d
      × AbsorbsEntries es d b'

module _ (double_text : ℕ → Bytes) (to_double : Bytes → Option ℕ) where
  Consumes-append :
      (bs cs : Bytes) (b c d : Builder)
      → Consumes to_double bs b c
      → Consumes to_double cs c d
      → Consumes to_double (bs ++ cs) b d
  Consumes-append bs cs b c d p q rest n =
      let (m, r) = p (cs ++ rest) n in
      let (k, s) = q rest m in rw append_assoc (k, Rounds-trans to_double r s)

  Consumes-nil : (b c : Builder) → b ≡ c → Consumes to_double [] b c
  Consumes-nil b c e rest n = rw e (n, here)

  size_fits : (n : ℕ) → n < 2 ^ 32 → n % 2 ^ 32 ≡ n
  size_fits n h = omega arith

  mutual
    unfolding write_cbor_object write_array write_map

    object-Consumes :
        (v : CborObject) (b b' : Builder)
        → IsCodable double_text to_double v
        → Absorbs v b b'
        → Consumes to_double (write_cbor_object double_text v) b b'
    object-Consumes (scalar s) b b' c a = write_scalar-Consumes to_double b b' double_text s c a
    object-Consumes (array xs) b b' c a = rw (size_fits (count_items xs) c.0) (
        Consumes-append _ _ b a.0 b' (array-Consumes to_double _ b a.0 c.0 a.1)
          (items-Consumes xs a.0 b' c.1 a.2))
    object-Consumes (map es) b b' c a = rw (size_fits (count_entries es) c.0) (
        Consumes-append _ _ b a.0 b' (map-Consumes to_double _ b a.0 c.0 a.1)
          (entries-Consumes es a.0 b' c.1 a.2))

    items-Consumes :
        (xs : Items) (b b' : Builder)
        → AreCodable double_text to_double xs
        → AbsorbsItems xs b b'
        → Consumes to_double (write_items double_text xs) b b'
    items-Consumes nil b b' c a = Consumes-nil b b' a
    items-Consumes (cons x xs) b b' c a =
        Consumes-append _ _ b a.0 b' (object-Consumes x b a.0 c.0 a.1)
          (items-Consumes xs a.0 b' c.1 a.2)

    entries-Consumes :
        (es : Entries) (b b' : Builder)
        → AreCodableEntries double_text to_double es
        → AbsorbsEntries es b b'
        → Consumes to_double (write_entries double_text es) b b'
    entries-Consumes end b b' c a = Consumes-nil b b' a
    entries-Consumes (entry k x es) b b' c a =
        Consumes-append _ _ b a.0 b' (write_string-Consumes to_double b a.0 k c.0 a.2) (
          Consumes-append _ _ a.0 a.1 b' (object-Consumes x a.0 a.1 c.1 a.3)
            (entries-Consumes es a.1 b' c.3 a.4))

  -- The bytes of an object are read back as the object's parts.
  pub write_cbor_object-Consumes :
      (v : CborObject) (b b' : Builder)
      → IsCodable double_text to_double v
      → Absorbs v b b'
      → Consumes to_double (write_cbor_object double_text v) b b'
  write_cbor_object-Consumes v b b' c a = object-Consumes v b b' c a
