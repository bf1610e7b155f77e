-- ===== src/Token/Contract.antt =====
-- `token_native_contract` of src/native_contract/native_token_contract.cpp: one action for each api,
-- in the order of its source. The unused argument `api_name` is left out.
use uvm.Base.{ℕ, zero, ⊤, Bool, true, false, not, ◌||◌, List, [], ◌∷◌, Option, none, some}
use uvm.Base.{if◌then◌else◌, ltb, length, get_elem?, ◌==◌}
use uvm.Base.Dict.{same}
use uvm.Base.Int.{ℤ, pos, negsuc, ◌+ℤ◌, ◌-ℤ◌, ltb_ℤ}
use uvm.Cbor.Value.{Bytes, CborObject, scalar, map, null, string, int, force_as_int}
use uvm.Cbor.Value.{Entries, end, count_entries}
use uvm.Token.Host.{Error, Result, Host, Action, pure, throw_error, gets, or_throw}
use uvm.Token.Host.{◌>>=◌, ◌>>◌, throw_if, name, symbol, supply, precision, state, admin}
use uvm.Token.Host.{users, allowed, text, number, json, inited, transfer, approved}
use uvm.Token.Host.{set_current_contract_storage, get_string_current_contract_storage}
use uvm.Token.Host.{get_int_current_contract_storage, current_fast_map_get, current_fast_map_set}
use uvm.Token.Host.{caller_address_string, emit_event, set_api_result}
use uvm.Token.Host.{
  empty_caller, not_admin, inited_before, bad_state, bad_argument, supply_not_positive,
  precision_not_positive, bad_precision, not_enough, not_enough_approved, too_many_approved,
  not_integer,
}
use uvm.Token.Numbers.{wrap64, positive_number}
use uvm.Cbor.Entries.{find, put, erase}

abbrev pub not_inited_state : Bytes
not_inited_state = b'N' ∷ b'O' ∷ b'T' ∷ b'_' ∷ b'I' ∷ b'N' ∷ b'I' ∷ b'T' ∷ b'E' ∷ b'D' ∷ []

abbrev pub common_state : Bytes
common_state = b'C' ∷ b'O' ∷ b'M' ∷ b'M' ∷ b'O' ∷ b'N' ∷ []

-- `init_api`, run by the chain when the contract is registered
unfoldable pub init_api : Bytes → Action ⊤
unfolding set_current_contract_storage caller_address_string
init_api api_arg = do
  set_current_contract_storage name (scalar (string []))
  set_current_contract_storage symbol (scalar (string []))
  set_current_contract_storage supply (scalar (int (pos 0)))
  set_current_contract_storage precision (scalar (int (pos 0)))
  set_current_contract_storage state (scalar (string not_inited_state))
  caller_addr ← caller_address_string
  throw_if (same caller_addr []) empty_caller
  set_current_contract_storage admin (scalar (string caller_addr))

unfoldable pub check_admin : Action Bytes
unfolding get_string_current_contract_storage caller_address_string
check_admin = do
  caller_addr ← caller_address_string
  admin_addr ← get_string_current_contract_storage admin
  if same admin_addr caller_addr then pure admin_addr else throw_error not_admin

unfoldable pub get_storage_state : Action Bytes
unfolding get_string_current_contract_storage
get_storage_state = get_string_current_contract_storage state

unfoldable pub get_storage_token_name : Action Bytes
unfolding get_string_current_contract_storage
get_storage_token_name = get_string_current_contract_storage name

unfoldable pub get_storage_token_symbol : Action Bytes
unfolding get_string_current_contract_storage
get_storage_token_symbol = get_string_current_contract_storage symbol

unfoldable pub get_storage_supply : Action ℤ
unfolding get_int_current_contract_storage
get_storage_supply = get_int_current_contract_storage supply

unfoldable pub get_storage_precision : Action ℤ
unfolding get_int_current_contract_storage
get_storage_precision = get_int_current_contract_storage precision

-- A value that is no integer counts as 0.
abbrev pub amount_of : Option ℤ → ℤ
amount_of none = pos 0
amount_of (some i) = i

unfoldable pub get_balance_of_user : Bytes → Host → ℤ
unfolding current_fast_map_get
get_balance_of_user owner_addr h =
    amount_of (force_as_int (current_fast_map_get users owner_addr h))

abbrev pub as_entries : CborObject → Entries
as_entries (map es) = es
as_entries _ = end

unfoldable pub get_allowed_of_user : Bytes → Host → Entries
unfolding current_fast_map_get
get_allowed_of_user from_addr h = as_entries (current_fast_map_get allowed from_addr h)

-- `if (get_storage_state() != ...) throw_error(...)`
unfoldable pub require_state : Bytes → Error → Action ⊤
unfolding get_storage_state
require_state s e = do throw_if (not (same (← get_storage_state) s)) e

abbrev pub or_empty : Option Bytes → Bytes
or_empty none = []
or_empty (some s) = s

-- `parsed_args[i]`, read below the size only.
abbrev pub arg : ℕ → List Bytes → Bytes
arg i parsed_args = or_empty (get_elem? parsed_args i)

abbrev pub lift : {A : Type 0} → Result A → Action A
lift r h = (r, h)

abbrev pub token_int : ℤ → CborObject
token_int i = scalar (int i)

-- The stores of `transfer_api` and `transfer_from_api` that move an amount.
unfoldable pub move_amount : Bytes → Bytes → ℤ → Action ⊤
unfolding get_balance_of_user current_fast_map_set
move_amount from_addr to_address amount = do
  from_user_balance ← gets (get_balance_of_user from_addr)
  let from_addr_remain = wrap64 (from_user_balance -ℤ amount)
  current_fast_map_set users from_addr
      (if ltb_ℤ (pos 0) from_addr_remain then token_int from_addr_remain else scalar null)
  to_amount ← gets (get_balance_of_user to_address)
  current_fast_map_set users to_address (token_int (wrap64 (to_amount +ℤ amount)))

-- `allowed_precisions`
abbrev pub is_precision : ℤ → List ℕ → Bool
is_precision p [] = false
is_precision (negsuc n) (q ∷ qs) = false
is_precision (pos n) (q ∷ qs) = if n == q then true else is_precision (pos n) qs

abbrev pub allowed_precisions : List ℕ
allowed_precisions = 1 ∷ 10 ∷ 100 ∷ 1000 ∷ 10000 ∷ 100000 ∷ 1000000 ∷ 10000000 ∷ 100000000 ∷ []

unfoldable pub is_allowed_precision : ℤ → Bool
is_allowed_precision p = is_precision p allowed_precisions

unfoldable pub state_api : Bytes → Action ⊤
unfolding get_storage_state set_api_result
state_api api_arg = do set_api_result (text (← get_storage_state))

unfoldable pub token_name_api : Bytes → Action ⊤
unfolding get_storage_token_name set_api_result
token_name_api api_arg = do set_api_result (text (← get_storage_token_name))

unfoldable pub token_symbol_api : Bytes → Action ⊤
unfolding get_storage_token_symbol set_api_result
token_symbol_api api_arg = do set_api_result (text (← get_storage_token_symbol))

unfoldable pub supply_api : Bytes → Action ⊤
unfolding get_storage_supply set_api_result
supply_api api_arg = do set_api_result (number (← get_storage_supply))

unfoldable pub total_supply_api : Bytes → Action ⊤
unfolding supply_api
total_supply_api api_arg = supply_api api_arg

unfoldable pub precision_api : Bytes → Action ⊤
unfolding get_storage_precision set_api_result
precision_api api_arg = do set_api_result (number (← get_storage_precision))

unfoldable pub balance_of_api : Bytes → Action ⊤
unfolding require_state get_balance_of_user set_api_result
balance_of_api owner_addr = do
  require_state common_state bad_state
  set_api_result (number (← gets (get_balance_of_user owner_addr)))

-- `allowed_data[spender_address]->force_as_int()`, 0 where there is no entry
abbrev pub approved_of : Option CborObject → Action ℤ
approved_of none = pure (pos 0)
approved_of (some v) = or_throw (force_as_int v) not_integer

-- The allowance is set to what remains, and erased at 0.
unfoldable pub lower_allowance : Bytes → ℤ → Entries → Entries
unfolding put erase
lower_allowance spender (pos zero) allowed_data =
    erase spender (put spender (token_int (pos 0)) allowed_data)
lower_allowance spender remain allowed_data = put spender (token_int remain) allowed_data

-- The stores of `init_token_api`, and its event.
unfoldable pub launch : Bytes → Bytes → ℤ → ℤ → Bytes → Action ⊤
unfolding set_current_contract_storage current_fast_map_set caller_address_string emit_event
launch name_arg symbol_arg supply_arg precision_arg supply_str = do
  set_current_contract_storage state (scalar (string common_state))
  set_current_contract_storage precision (token_int precision_arg)
  set_current_contract_storage supply (token_int supply_arg)
  set_current_contract_storage name (scalar (string name_arg))
  set_current_contract_storage symbol (scalar (string symbol_arg))
  caller_addr ← caller_address_string
  current_fast_map_set users caller_addr (token_int supply_arg)
  emit_event (inited supply_str)

-- `boost::split` at commas, `boost::trim`, and what `std::strtod` leaves.
module _ (split : Bytes → List Bytes) (trim strtod_rest : Bytes → Bytes) where
  -- The parsed arguments, when there are enough.
  unfoldable pub parse_args : ℕ → Bytes → Action (List Bytes)
  parse_args n api_arg =
      throw_if (ltb (length (split api_arg)) n) bad_argument >> pure (split api_arg)

  -- `init_token_api` on the four texts of its argument
  unfoldable pub init_token_with : Bytes → Bytes → Bytes → Bytes → Action ⊤
  unfolding is_allowed_precision launch
  init_token_with name_arg symbol_arg supply_str precision_str = do
    throw_if (same name_arg [] || same symbol_arg []) bad_argument
    supply_arg ← lift (positive_number strtod_rest supply_not_positive supply_str)
    precision_arg ← lift (positive_number strtod_rest precision_not_positive precision_str)
    throw_if (not (is_allowed_precision precision_arg)) bad_precision
    launch name_arg symbol_arg supply_arg precision_arg supply_str

  -- arg format: name,symbol,supply,precision
  unfoldable pub init_token_api : Bytes → Action ⊤
  unfolding check_admin require_state parse_args init_token_with
  init_token_api api_arg = do
    check_admin
    require_state not_inited_state inited_before
    parsed_args ← parse_args 4 api_arg
    init_token_with (trim (arg 0 parsed_args)) (trim (arg 1 parsed_args)) (arg 2 parsed_args)
        (arg 3 parsed_args)

  -- arg format: spenderAddress, authorizerAddress
  unfoldable pub approved_balance_from_api : Bytes → Action ⊤
  unfolding require_state parse_args get_allowed_of_user find set_api_result
  approved_balance_from_api api_arg = do
    require_state common_state bad_state
    parsed_args ← parse_args 2 api_arg
    let spender_address = trim (arg 0 parsed_args)
    allowed_data ← gets (get_allowed_of_user (trim (arg 1 parsed_args)))
    approved_amount ← approved_of (find spender_address allowed_data)
    set_api_result (number approved_amount)

  -- arg format: fromAddress
  unfoldable pub all_approved_from_user_api : Bytes → Action ⊤
  unfolding require_state get_allowed_of_user set_api_result
  all_approved_from_user_api api_arg = do
    require_state common_state bad_state
    allowed_data ← gets (get_allowed_of_user (trim api_arg))
    set_api_result (json (map allowed_data))

  -- arg format: toAddress,amount
  unfoldable pub transfer_api : Bytes → Action ⊤
  unfolding require_state parse_args caller_address_string get_balance_of_user move_amount
      emit_event
  transfer_api api_arg = do
    require_state common_state bad_state
    parsed_args ← parse_args 2 api_arg
    let to_address = trim (arg 0 parsed_args)
    amount ← lift (positive_number strtod_rest bad_argument (trim (arg 1 parsed_args)))
    from_addr ← caller_address_string
    from_user_balance ← gets (get_balance_of_user from_addr)
    throw_if (ltb_ℤ from_user_balance amount) not_enough
    move_amount from_addr to_address amount
    emit_event (transfer from_addr to_address amount)

  -- arg format: spenderAddress,amount
  unfoldable pub approve_api : Bytes → Action ⊤
  unfolding require_state parse_args caller_address_string get_allowed_of_user put
      current_fast_map_set emit_event
  approve_api api_arg = do
    require_state common_state bad_state
    parsed_args ← parse_args 2 api_arg
    let spender_address = trim (arg 0 parsed_args)
    amount ← lift (positive_number strtod_rest bad_argument (trim (arg 1 parsed_args)))
    contract_caller ← caller_address_string
    old_allowed ← gets (get_allowed_of_user contract_caller)
    let allowed_data = put spender_address (token_int amount) old_allowed
    throw_if (ltb 1000 (count_entries allowed_data)) too_many_approved
    current_fast_map_set allowed contract_caller (map allowed_data)
    emit_event (approved contract_caller spender_address amount)

  -- arg format: fromAddress,toAddress,amount
  unfoldable pub transfer_from_api : Bytes → Action ⊤
  unfolding require_state parse_args caller_address_string get_balance_of_user get_allowed_of_user
      find lower_allowance move_amount current_fast_map_set emit_event
  transfer_from_api api_arg = do
    require_state common_state bad_state
    parsed_args ← parse_args 3 api_arg
    let from_address = trim (arg 0 parsed_args)
    let to_address = trim (arg 1 parsed_args)
    amount ← lift (positive_number strtod_rest bad_argument (trim (arg 2 parsed_args)))
    from_user_balance ← gets (get_balance_of_user from_address)
    throw_if (ltb_ℤ from_user_balance amount) not_enough
    allowed_data ← gets (get_allowed_of_user from_address)
    contract_caller ← caller_address_string
    entry_value ← or_throw (find contract_caller allowed_data) not_enough_approved
    approved_amount ← or_throw (force_as_int entry_value) not_integer
    throw_if (ltb_ℤ approved_amount amount) not_enough_approved
    move_amount from_address to_address amount
    current_fast_map_set allowed from_address
        (map (lower_allowance contract_caller (wrap64 (approved_amount -ℤ amount)) allowed_data))
    emit_event (transfer from_address to_address amount)
