-- ===== src/Cbor/Builder.antt =====
-- The object under construction in `decoder::run`, and `put_decoded_value` of
-- src/cborcpp/decoder.cpp. Objects are shared there by `std::shared_ptr`: an array that is still
-- being filled already stands in its parent. So the model keeps them in a heap, a list of nodes in
-- the order of creation, and a pointer is a position in it.
use uvm.Base.{ℕ, suc, Bool, true, false, List, [], ◌∷◌, ◌++◌, Option, none, some}
use uvm.Base.{length, get_elem?, set, if◌then◌else◌, ltb, leb, ◌==◌}
use uvm.Cbor.Value.{Bytes, Scalar, string}

pub data DecodeError : Type 0 where
  multiple_objects invalid_map_key_type invalid_structure_type : DecodeError
  invalid_integer_type invalid_bytes_type invalid_string_type : DecodeError
  invalid_array_type invalid_tag_type invalid_float_type : DecodeError
  extra_long_bytes extra_long_array extra_long_map : DecodeError
  decoded_nothing unfinished_structures unknown_state : DecodeError
  -- the `std::length_error` of a vector with a negative size, and the exception of `fc::to_double`
  length_error bad_double : DecodeError
  -- no exception: a null pointer, or one into no node, is followed
  bad_pointer : DecodeError

pub data Result {ℓ} (A : Type ℓ) : Type ℓ where
  ok : A → Result A
  err : DecodeError → Result A

infixl 5 ◌>>=◌
abbrev pub ◌>>=◌ {ℓ κ} : {A : Type ℓ} {B : Type κ} → Result A → (A → Result B) → Result B
ok a >>= f = f a
err e >>= f = err e

abbrev pub Ref : Type 0
Ref = ℕ

-- An object as `CborObject::from_int` and its like, `create_array` and `create_map` make it. A container
-- has its `array_or_map_size` first; a map holds its entries in key order.
pub data Node : Type 0 where
  scalar : Scalar → Node
  array : ℕ → List Ref → Node
  map : ℕ → List (Bytes × Ref) → Node

-- `std::less<std::string>`: byte by byte, a proper prefix first.
unfoldable pub key_lt : Bytes → Bytes → Bool
key_lt [] [] = false
key_lt [] (c ∷ cs) = true
key_lt (b ∷ bs) [] = false
key_lt (b ∷ bs) (c ∷ cs) = if ltb b c then true else if b == c then key_lt bs cs else false

-- `map_value[key] = value`
unfoldable pub insert_entry {ℓ} : {V : Type ℓ} → Bytes → V → List (Bytes × V) → List (Bytes × V)
unfolding key_lt
insert_entry k v [] = (k, v) ∷ []
insert_entry k v ((j, w) ∷ es) =
    if key_lt j k
    then (j, w) ∷ insert_entry k v es
    else if key_lt k j
    then (k, v) ∷ (j, w) ∷ es
    else (j, v) ∷ es

-- The variables of `decoder::run` that `put_decoded_value` is handed by reference; the top of the
-- stack comes first.
pub record Builder : Type 0 where
  pub heap : List Node
  pub result : Option Ref
  pub structures_stack : List Ref
  pub iter_in_map_key : Bool
  pub map_key_temp : Option Ref

abbrev pub node_at : Builder → Ref → Option Node
node_at b r = get_elem? b.heap r

-- `const auto& key = map_key_temp->as_string()`, and the test before it.
unfoldable pub key_of : Builder → Option Ref → Result Bytes
key_of b none = err bad_pointer
key_of b (some r) = elim (node_at b r) [
  | some (scalar (string k)) ↦ ok k
  | none ↦ err bad_pointer
  | _ ↦ err invalid_map_key_type
]

-- `structures_stack.pop_back()` where the container is full.
abbrev pub pop_full : ℕ → ℕ → Ref → List Ref → List Ref
pop_full held size last below = if leb size held then below else last ∷ below

-- The value at `value` enters the container `last`, whose node is given.
unfoldable pub attach_to : Builder → Ref → Ref → List Ref → Node → Result Builder
unfolding key_of
attach_to b value last below (array size items) = ok (record b {
  heap = set b.heap last (array size (items ++ (value ∷ [])));
  structures_stack = pop_full (suc (length items)) size last below;
})
attach_to b value last below (map size entries) = elim b.iter_in_map_key [
  | true ↦ ok (record b { map_key_temp = some value; iter_in_map_key = false })
  | false ↦ key_of b b.map_key_temp >>= λ k.
      let entries' = insert_entry k value entries in
      ok (record b {
        heap = set b.heap last (map size entries');
        structures_stack = pop_full (length entries') size last below;
        iter_in_map_key = true;
      })
]
attach_to b value last below (scalar s) = err invalid_structure_type

-- Everything of `put_decoded_value` before its last `if`.
attach_on : Builder → Ref → List Ref → Result Builder
unfolding attach_to
attach_on b value [] = elim b.result [
  | some _ ↦ err multiple_objects
  | none ↦ ok (record b { result = some value })
]
attach_on b value (last ∷ below) = elim (node_at b last) [
  | none ↦ err bad_pointer
  | some n ↦ attach_to b value last below n
]

-- A new node, made by `std::make_shared`, enters the structure.
unfoldable pub attach : Builder → Node → Result Builder
unfolding attach_on
attach b n = attach_on (record b { heap = b.heap ++ (n ∷ []) }) (length b.heap) b.structures_stack

-- A container that expects items comes on the stack.
unfoldable pub push_open : Node → Ref → Builder → Builder
push_open (scalar s) value b = b
push_open (array size _) value b =
    if ltb 0 size then record b { structures_stack = value ∷ b.structures_stack } else b
push_open (map size _) value b =
    if ltb 0 size then record b { structures_stack = value ∷ b.structures_stack } else b

-- `put_decoded_value`
unfoldable pub put_decoded_value : Builder → Node → Result Builder
unfolding attach push_open
put_decoded_value b n = attach b n >>= λ b'. ok (push_open n (length b.heap) b')

unfoldable pub empty_builder : Builder
empty_builder = record {
  heap = [];
  result = none;
  structures_stack = [];
  iter_in_map_key = true;
  map_key_temp = none;
}
