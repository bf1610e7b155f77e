-- ===== src/Token/Invoke.antt =====
-- `token_native_contract::invoke` of src/native_contract/native_token_contract.cpp, and the names of
-- its apis.
use uvm.Base.{Bool, true, false, ⊤, List, [], ◌∷◌, Option, none, some}
use uvm.Base.Dict.{Dict, lookup}
use uvm.Cbor.Value.{Bytes}
use uvm.Token.Host.{Result, ok, err, Host, Action, ◌>>◌, throw_error, api_not_found}
use uvm.Token.Host.{set_invoke_result_caller, add_gas}
use uvm.Token.Contract.{
  init_api, init_token_api, transfer_api, transfer_from_api, balance_of_api, approve_api,
  approved_balance_from_api, all_approved_from_user_api, state_api, supply_api, precision_api,
  token_name_api, token_symbol_api,
}

-- What the map `apis` of `invoke` binds its keys to.
pub data Api : Type 0 where
  init init_token transfer transfer_from balance_of : Api
  approve approved_balance_from all_approved_from_user state supply : Api
  precision token_name token_symbol : Api

abbrev pub api_table : Dict Api
api_table =
    (b'i' ∷ b'n' ∷ b'i' ∷ b't' ∷ [], Api.init)
    ∷ (b'i' ∷ b'n' ∷ b'i' ∷ b't' ∷ b'_' ∷ b't' ∷ b'o' ∷ b'k' ∷ b'e' ∷ b'n' ∷ [], Api.init_token)
    ∷ (b't' ∷ b'r' ∷ b'a' ∷ b'n' ∷ b's' ∷ b'f' ∷ b'e' ∷ b'r' ∷ [], Api.transfer)
    ∷ (
      b't' ∷ b'r' ∷ b'a' ∷ b'n' ∷ b's' ∷ b'f' ∷ b'e' ∷ b'r' ∷ b'F' ∷ b'r' ∷ b'o' ∷ b'm' ∷ [],
      Api.transfer_from,
    )
    ∷ (b'b' ∷ b'a' ∷ b'l' ∷ b'a' ∷ b'n' ∷ b'c' ∷ b'e' ∷ b'O' ∷ b'f' ∷ [], Api.balance_of)
    ∷ (b'a' ∷ b'p' ∷ b'p' ∷ b'r' ∷ b'o' ∷ b'v' ∷ b'e' ∷ [], Api.approve)
    ∷ (
      b'a' ∷ b'p' ∷ b'p' ∷ b'r' ∷ b'o' ∷ b'v' ∷ b'e' ∷ b'd' ∷ b'B' ∷ b'a' ∷ b'l' ∷ b'a' ∷ b'n'
          ∷ b'c' ∷ b'e' ∷ b'F' ∷ b'r' ∷ b'o' ∷ b'm' ∷ [],
      Api.approved_balance_from,
    )
    ∷ (
      b'a' ∷ b'l' ∷ b'l' ∷ b'A' ∷ b'p' ∷ b'p' ∷ b'r' ∷ b'o' ∷ b'v' ∷ b'e' ∷ b'd' ∷ b'F' ∷ b'r'
          ∷ b'o' ∷ b'm' ∷ b'U' ∷ b's' ∷ b'e' ∷ b'r' ∷ [],
      Api.all_approved_from_user,
    )
    ∷ (b's' ∷ b't' ∷ b'a' ∷ b't' ∷ b'e' ∷ [], Api.state)
    ∷ (b's' ∷ b'u' ∷ b'p' ∷ b'p' ∷ b'l' ∷ b'y' ∷ [], Api.supply)
    ∷ (b'p' ∷ b'r' ∷ b'e' ∷ b'c' ∷ b'i' ∷ b's' ∷ b'i' ∷ b'o' ∷ b'n' ∷ [], Api.precision)
    ∷ (b't' ∷ b'o' ∷ b'k' ∷ b'e' ∷ b'n' ∷ b'N' ∷ b'a' ∷ b'm' ∷ b'e' ∷ [], Api.token_name)
    ∷ (
      b't' ∷ b'o' ∷ b'k' ∷ b'e' ∷ b'n' ∷ b'S' ∷ b'y' ∷ b'm' ∷ b'b' ∷ b'o' ∷ b'l' ∷ [],
      Api.token_symbol,
    )
    ∷ []

-- `offline_apis`
unfoldable pub is_offline : Api → Bool
is_offline Api.init = false
is_offline Api.init_token = false
is_offline Api.transfer = false
is_offline Api.transfer_from = false
is_offline Api.approve = false
is_offline Api.balance_of = true
is_offline Api.approved_balance_from = true
is_offline Api.all_approved_from_user = true
is_offline Api.state = true
is_offline Api.supply = true
is_offline Api.precision = true
is_offline Api.token_name = true
is_offline Api.token_symbol = true

module _ (split : Bytes → List Bytes) (trim strtod_rest : Bytes → Bytes) where
  unfoldable pub call : Api → Bytes → Action ⊤
  unfolding init_api init_token_api transfer_api transfer_from_api balance_of_api approve_api
      approved_balance_from_api all_approved_from_user_api state_api supply_api precision_api
      token_name_api token_symbol_api
  call Api.init api_arg = init_api api_arg
  call Api.init_token api_arg = init_token_api split trim strtod_rest api_arg
  call Api.transfer api_arg = transfer_api split trim strtod_rest api_arg
  call Api.transfer_from api_arg = transfer_from_api split trim strtod_rest api_arg
  call Api.balance_of api_arg = balance_of_api api_arg
  call Api.approve api_arg = approve_api split trim strtod_rest api_arg
  call Api.approved_balance_from api_arg = approved_balance_from_api split trim strtod_rest api_arg
  call Api.all_approved_from_user api_arg =
      all_approved_from_user_api split trim strtod_rest api_arg
  call Api.state api_arg = state_api api_arg
  call Api.supply api_arg = supply_api api_arg
  call Api.precision api_arg = precision_api api_arg
  call Api.token_name api_arg = token_name_api api_arg
  call Api.token_symbol api_arg = token_symbol_api api_arg

  unfoldable pub run_api : Option Api → Bytes → Action ⊤
  unfolding call set_invoke_result_caller add_gas
  run_api none api_arg = throw_error api_not_found
  run_api (some api) api_arg = do call api api_arg; set_invoke_result_caller; add_gas 100

  -- `invoke`
  unfoldable pub invoke : Bytes → Bytes → Action ⊤
  unfolding run_api lookup
  invoke api_name api_arg = run_api (lookup api_name api_table) api_arg

  -- The chain's evaluation of a call: the state that a call has left is kept when it returns, and
  -- dropped when it throws.
  unfoldable pub settle : Host → Result ⊤ × Host → Host
  settle h (ok _, h') = h'
  settle h (err _, _) = h

  -- Calls, each with its caller, api and argument, one after the other.
  unfoldable pub run_calls : List (Bytes × Bytes × Bytes) → Host → Host
  unfolding settle invoke
  run_calls [] h = h
  run_calls ((caller_addr, api_name, api_arg) ∷ calls) h =
      run_calls calls (settle h (invoke api_name api_arg (record h { caller = caller_addr })))
