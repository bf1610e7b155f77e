-- ===== src/Token/Host.antt =====
-- The host of a native contract: the operations of `native_contract_interface` in
-- include/native_contract/native_contract_api.h that the token contract calls, on the state that
-- simplechain/src/simplechain/native_contract.cpp keeps for the called contract. A value read is the
-- value last set, and null before. What was set stays set when the call throws: the evaluator, not
-- the store, drops it.
use uvm.Base.{ℕ, ◌+◌, ◌%◌, ◌^◌, ⊤, Bool, List, [], ◌∷◌, ◌++◌, Option, none, some, if◌then◌else◌}
use uvm.Base.Dict.{Dict, lookup, insert}
use uvm.Base.Int.{ℤ}
use uvm.Cbor.Value.{Bytes, CborObject, scalar, null, string, force_as_int}

-- The exceptions: those of `throw_error` by what their messages say, then those of `std::stoll` and
-- of `force_as_int`.
pub data Error : Type 0 where
  empty_caller not_admin inited_before bad_state : Error
  bad_argument supply_not_positive precision_not_positive bad_precision : Error
  not_enough not_enough_approved too_many_approved : Error
  api_not_found invalid_string_storage invalid_int_storage : Error
  invalid_argument out_of_range not_integer : Error

pub data Result {ℓ} (A : Type ℓ) : Type ℓ where
  ok : A → Result A
  err : Error → Result A

-- The names that `get_current_contract_storage` and `set_current_contract_storage` are called with,
-- and the names of the fast maps.
pub data StorageName : Type 0 where
  name symbol supply precision state admin : StorageName

pub data MapName : Type 0 where
  users allowed : MapName

-- An event with its arguments; their JSON text is not modelled, nor is the text of a result.
pub data Event : Type 0 where
  inited : Bytes → Event
  transfer approved : Bytes → Bytes → ℤ → Event

pub data ApiResult : Type 0 where
  text : Bytes → ApiResult
  number : ℤ → ApiResult
  json : CborObject → ApiResult

pub record Storage : Type 0 where
  pub name_value : CborObject
  pub symbol_value : CborObject
  pub supply_value : CborObject
  pub precision_value : CborObject
  pub state_value : CborObject
  pub admin_value : CborObject

pub record Host : Type 0 where
  pub storage : Storage
  pub users_map : Dict CborObject
  pub allowed_map : Dict CborObject
  pub caller : Bytes
  pub events : List Event
  pub api_result : Option ApiResult
  pub invoker : Option Bytes
  pub gas_used : ℕ

-- A call: a result or an exception, and the state after it.
abbrev pub Action {ℓ} : Type ℓ → Type ℓ
Action A = Host → Result A × Host

module _ {ℓ} {A : Type ℓ} where
  abbrev pub pure : A → Action A
  pure a h = (ok a, h)

  abbrev pub throw_error : Error → Action A
  throw_error e h = (err e, h)

  abbrev pub gets : (Host → A) → Action A
  gets f h = (ok (f h), h)

  abbrev pub or_throw : Option A → Error → Action A
  or_throw none e h = (err e, h)
  or_throw (some a) e h = (ok a, h)

infixl 5 ◌>>=◌ ◌>>◌
abbrev pub ◌>>=◌ {ℓ κ} : {A : Type ℓ} {B : Type κ} → Action A → (A → Action B) → Action B
◌>>=◌ m f h = let (r, h') = m h in elim r [ ok a ↦ f a h' | err e ↦ (err e, h') ]

abbrev pub ◌>>◌ {ℓ κ} : {A : Type ℓ} {B : Type κ} → Action A → Action B → Action B
m >> k = m >>= λ _. k

abbrev pub throw_if : Bool → Error → Action ⊤
throw_if c e h = (if c then err e else ok tt, h)

abbrev pub modify : (Host → Host) → Action ⊤
modify f h = (ok tt, f h)

abbrev pub storage_value : StorageName → Storage → CborObject
storage_value name s = s.name_value
storage_value symbol s = s.symbol_value
storage_value supply s = s.supply_value
storage_value precision s = s.precision_value
storage_value state s = s.state_value
storage_value admin s = s.admin_value

abbrev pub with_storage_value : StorageName → CborObject → Storage → Storage
with_storage_value name v s = record s { name_value = v }
with_storage_value symbol v s = record s { symbol_value = v }
with_storage_value supply v s = record s { supply_value = v }
with_storage_value precision v s = record s { precision_value = v }
with_storage_value state v s = record s { state_value = v }
with_storage_value admin v s = record s { admin_value = v }

unfoldable pub set_current_contract_storage : StorageName → CborObject → Action ⊤
set_current_contract_storage n v =
    modify (λ h. record h { storage = with_storage_value n v h.storage })

abbrev pub as_string : CborObject → Option Bytes
as_string (scalar (string s)) = some s
as_string _ = none

unfoldable pub get_string_current_contract_storage : StorageName → Action Bytes
get_string_current_contract_storage n h =
    or_throw (as_string (storage_value n h.storage)) invalid_string_storage h

unfoldable pub get_int_current_contract_storage : StorageName → Action ℤ
get_int_current_contract_storage n h =
    or_throw (force_as_int (storage_value n h.storage)) invalid_int_storage h

abbrev pub fast_map : MapName → Host → Dict CborObject
fast_map users h = h.users_map
fast_map allowed h = h.allowed_map

abbrev pub or_null : Option CborObject → CborObject
or_null none = scalar null
or_null (some v) = v

unfoldable pub current_fast_map_get : MapName → Bytes → Host → CborObject
current_fast_map_get m k h = or_null (lookup k (fast_map m h))

unfoldable pub current_fast_map_set : MapName → Bytes → CborObject → Action ⊤
current_fast_map_set users k v = modify (λ h. record h { users_map = insert k v h.users_map })
current_fast_map_set allowed k v = modify (λ h. record h { allowed_map = insert k v h.allowed_map })

unfoldable pub caller_address_string : Action Bytes
caller_address_string h = (ok h.caller, h)

unfoldable pub emit_event : Event → Action ⊤
emit_event e = modify (λ h. record h { events = h.events ++ (e ∷ []) })

unfoldable pub set_api_result : ApiResult → Action ⊤
set_api_result r = modify (λ h. record h { api_result = some r })

unfoldable pub set_invoke_result_caller : Action ⊤
set_invoke_result_caller = modify (λ h. record h { invoker = some h.caller })

-- `gas_count_for_api_invoke` is 100 for every call; `gas_used` is a uint64_t.
unfoldable pub add_gas : ℕ → Action ⊤
add_gas gas = modify (λ h. record h { gas_used = (h.gas_used + gas) % 2 ^ 64 })
