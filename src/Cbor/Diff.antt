-- ===== src/Cbor/Diff.antt =====
-- `CborDiff::diff` of src/cbor_diff/cbor_diff.cpp. A `DiffResult` is an option: `none` is the
-- undefined one, of two values without a difference.
pub mod Same
use uvm.Base.{ℕ, suc, [], ◌∷◌, ◌++◌, Option, none, some}
use uvm.Base.{if◌then◌else◌, ◌==◌}
use uvm.Base.Dict.{same}
use uvm.Base.Int.{pos}
use uvm.Cbor.Value.{Bytes, Scalar, null, undefined, bool, int, extra_int, bytes, string, float, tag}
use uvm.Cbor.Value.{
  extra_tag, CborObject, scalar, array, map, Items, nil, cons, Entries, end, entry,
}
use uvm.Cbor.Entries.{find, put}
use uvm.Cbor.Encoder.{write_scalar}

-- CBORDIFF_KEY_OLD_VALUE, CBORDIFF_KEY_NEW_VALUE and the postfixes of deleted and added keys
abbrev pub old_key : Bytes
old_key = b'_' ∷ b'_' ∷ b'o' ∷ b'l' ∷ b'd' ∷ []

abbrev pub new_key : Bytes
new_key = b'_' ∷ b'_' ∷ b'n' ∷ b'e' ∷ b'w' ∷ []

abbrev pub deleted_postfix : Bytes
deleted_postfix = b'_' ∷ b'_' ∷ b'd' ∷ b'e' ∷ b'l' ∷ b'e' ∷ b't' ∷ b'e' ∷ b'd' ∷ []

abbrev pub added_postfix : Bytes
added_postfix = b'_' ∷ b'_' ∷ b'a' ∷ b'd' ∷ b'd' ∷ b'e' ∷ b'd' ∷ []

-- The position of a scalar's type among the values of `CborObjectType`.
abbrev pub type_of : Scalar → ℕ
type_of (bool _) = 0
type_of (int _) = 1
type_of (bytes _) = 2
type_of (string _) = 3
type_of (tag _) = 6
type_of (float _) = 7
type_of undefined = 8
type_of null = 9
type_of (extra_int _ _) = 11
type_of (extra_tag _) = 12

-- { __old: old_val, __new: new_val }
unfoldable pub changed : CborObject → CborObject → CborObject
unfolding put
changed old_val new_val = map (put new_key new_val (put old_key old_val end))

-- [op, position, value]
abbrev pub item_diff : ℕ → ℕ → CborObject → CborObject
item_diff op i v =
    array (cons (scalar (string (op ∷ []))) (cons (scalar (int (pos i))) (cons v nil)))

-- The items that only the new array has.
unfoldable pub added_items : ℕ → Items → Items
added_items i nil = nil
added_items i (cons y ys) = cons (item_diff b'+' i y) (added_items (suc i) ys)

-- The entries that only the new map has.
unfoldable pub added_entries : Entries → Entries → Entries → Entries
unfolding find put
added_entries end a diff_json = diff_json
added_entries (entry k w b) a diff_json = elim (find k a) [
  | none ↦ added_entries b a (put (k ++ added_postfix) w diff_json)
  | some _ ↦ added_entries b a diff_json
]

abbrev pub array_result : Items → Option CborObject
array_result nil = none
array_result (cons x xs) = some (array (cons x xs))

abbrev pub map_result : Entries → Option CborObject
map_result end = none
map_result (entry k v es) = some (map (entry k v es))

module _ (double_text : ℕ → Bytes) where
  -- Two scalars: strings are compared as they are, others by their encodings.
  unfoldable pub diff_scalar : Scalar → Scalar → Option CborObject
  unfolding changed write_scalar
  diff_scalar (string s) (string t) =
      if same s t then none else some (changed (scalar (string s)) (scalar (string t)))
  diff_scalar s t =
      if type_of s == type_of t
      then (if same (write_scalar double_text s) (write_scalar double_text t)
          then none
          else some (changed (scalar s) (scalar t)))
      else some (changed (scalar s) (scalar t))

  unfoldable mutual
    pub diff : CborObject → CborObject → Option CborObject
    diff (scalar s) (scalar t) = diff_scalar s t
    diff (map a) (map b) = map_result (added_entries b a (diff_entries a b end))
    diff (array a) (array b) = array_result (diff_items 0 a b)
    diff old_val new_val = some (changed old_val new_val)

    pub diff_items : ℕ → Items → Items → Items
    diff_items i nil b = added_items i b
    diff_items i (cons x a) nil = cons (item_diff b'-' i x) (diff_items (suc i) a nil)
    diff_items i (cons x a) (cons y b) = elim (diff x y) [
      | none ↦ diff_items (suc i) a b
      | some d ↦ cons (item_diff b'~' i d) (diff_items (suc i) a b)
    ]

    -- The entries of the old map against the new map, put into `diff_json` one after the other.
    pub diff_entries : Entries → Entries → Entries → Entries
    diff_entries end b diff_json = diff_json
    diff_entries (entry k v a) b diff_json = elim (find k b) [
      | none ↦ diff_entries a b (put (k ++ deleted_postfix) v diff_json)
      | some w ↦ elim (diff v w) [
        | none ↦ diff_entries a b diff_json
        | some d ↦ diff_entries a b (put k d diff_json)
      ]
    ]
