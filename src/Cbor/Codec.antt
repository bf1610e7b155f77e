-- ===== src/Cbor/Codec.antt =====
-- `cbor_encode`, `cbor_decode` and `cbor_deep_clone` of src/cbor_diff/cbor_diff.cpp: an object as
-- bytes and back. The decoder's heap is read as the object that its pointers spell.
use uvm.Base.{ℕ, zero, suc, Option, none, some, List, [], ◌∷◌, length, get_elem?}
use uvm.Cbor.Value.{Bytes, CborObject, scalar, array, map, Items, nil, cons, Entries, end, entry}
use uvm.Cbor.Encoder.{write_cbor_object}
use uvm.Cbor.Builder.{DecodeError, Result, ok, err, Node, Ref}
use uvm.Cbor.Decoder.{run}

-- The object that a node spells, given those that its pointers spell.
unfoldable pub items_at : (Ref → Option CborObject) → List Ref → Option Items
items_at get [] = some nil
items_at get (r ∷ rs) = elim (get r) [
  | none ↦ none
  | some x ↦ elim (items_at get rs) [ none ↦ none | some xs ↦ some (cons x xs) ]
]

unfoldable pub entries_at : (Ref → Option CborObject) → List (Bytes × Ref) → Option Entries
entries_at get [] = some end
entries_at get ((k, r) ∷ rs) = elim (get r) [
  | none ↦ none
  | some x ↦ elim (entries_at get rs) [ none ↦ none | some es ↦ some (entry k x es) ]
]

unfoldable pub object_of : (Ref → Option CborObject) → Option Node → Option CborObject
unfolding items_at entries_at
object_of get none = none
object_of get (some (Node.scalar s)) = some (scalar s)
object_of get (some (Node.array n rs)) = elim (items_at get rs) [
  | none ↦ none
  | some xs ↦ some (array xs)
]
object_of get (some (Node.map n rs)) = elim (entries_at get rs) [
  | none ↦ none
  | some es ↦ some (map es)
]

-- Pointers are followed as deep as the fuel; `none` is a pointer into no node, or a fuel that is
-- too small.
unfoldable pub object_at : ℕ → List Node → Ref → Option CborObject
unfolding object_of
object_at zero heap r = none
object_at (suc depth) heap r = object_of (object_at depth heap) (get_elem? heap r)

-- No path in a heap of n nodes that the decoder makes is longer than n.
unfoldable pub cbor_decode : (Bytes → Option ℕ) → Bytes → Option (Result CborObject)
unfolding run object_at
cbor_decode to_double input_bytes = elim (run to_double input_bytes) [
  | none ↦ none
  | some (err e) ↦ some (err e)
  | some (ok (heap, r)) ↦ elim (object_at (length heap) heap r) [
    | none ↦ some (err DecodeError.bad_pointer)
    | some v ↦ some (ok v)
  ]
]

unfoldable pub cbor_encode : (ℕ → Bytes) → CborObject → Bytes
unfolding write_cbor_object
cbor_encode double_text v = write_cbor_object double_text v

unfoldable pub cbor_deep_clone :
    (ℕ → Bytes) → (Bytes → Option ℕ) → CborObject → Option (Result CborObject)
unfolding cbor_encode cbor_decode
cbor_deep_clone double_text to_double v = cbor_decode to_double (cbor_encode double_text v)
