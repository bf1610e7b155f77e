-- ===== src/Uniswap/Invoke.antt =====
-- `getInfo` and `uniswap_native_contract::invoke` of src/native_contract/native_uniswap_contract.cpp, and
-- calls one after the other.
use Prim.Native.Char.{code}
use Prim.Native.String.{String}
use uvm.Base.{⊤, Bool, true, false, List, [], ◌∷◌, Option, none, some}
use uvm.Base.Dict.{Dict, lookup}
use uvm.Base.Int.{ℤ}
use uvm.Cbor.Value.{Bytes, CborObject, scalar, string, map, end, Entries}
use uvm.Cbor.Entries.{put}
use uvm.Token
use uvm.Token.Contract.{token_int}
use uvm.Token.Host.{json}
use uvm.Uniswap.Host.{
  Action, Result, ◌>>=◌, ◌>>◌, throw_error, super, fee_rate, asset_1_symbol, asset_2_symbol,
  asset_1_pool_amount, asset_2_pool_amount, min_asset1_amount, min_asset2_amount, StorageName, gets,
  storage_value, get_int_storage, api_not_found,
}
use uvm.Uniswap.Contract.{
  init_api, set_min_add_amount_api, init_config_api, withdraw_api, balance_of_asset_api,
}
use uvm.Uniswap.Liquidity.{add_liquidity_api, remove_liquidity_api}
use uvm.Uniswap.Exchange.{
  Deposit, on_deposit_asset_api, get_user_removeable_liquidity_api,
  caculate_pool_share_by_token_api, caculate_exchange_amount_api,
}

abbrev codes : String → Bytes
codes String.[] = []
codes (String.◌∷◌ c s) = code c ∷ codes s

abbrev put_text : Bytes → Bytes → Entries → Entries
put_text k s es = put k (scalar (string s)) es

abbrev put_int : Bytes → ℤ → Entries → Entries
put_int k i es = put k (token_int i) es

-- `CborObject::as_string`, which does not look at the type: an object of another type has an empty `string_val`.
unfoldable pub string_val : CborObject → Bytes
string_val (scalar (string s)) = s
string_val v = []

abbrev token_text : Token.Host.StorageName → Action Bytes
token_text n = super (Token.Host.gets (λ h. string_val (Token.Host.storage_value n h.storage)))

abbrev pool_text : StorageName → Action Bytes
pool_text n = gets (λ p. string_val (storage_value n p.storage))

-- The texts are read as they are; a storage that should be an integer and is not ends the call.
unfoldable pub get_info_api : Bytes → Action ⊤
unfolding string_val get_int_storage put
get_info_api api_arg = do
  admin ← token_text Token.Host.admin
  state ← token_text Token.Host.state
  rate ← pool_text fee_rate
  token_name ← token_text Token.Host.name
  token_symbol ← token_text Token.Host.symbol
  supply_amount ← super (Token.Host.get_int_current_contract_storage Token.Host.supply)
  asset1 ← pool_text asset_1_symbol
  asset2 ← pool_text asset_2_symbol
  pool1 ← get_int_storage asset_1_pool_amount
  pool2 ← get_int_storage asset_2_pool_amount
  min1 ← get_int_storage min_asset1_amount
  min2 ← get_int_storage min_asset2_amount
  let texts = put_text (codes "admin") admin (
      put_text (codes "state") state (
        put_text (codes "fee_rate") rate (
          put_text (codes "token_name") token_name (
            put_text (codes "token_symbol") token_symbol (
              put_text (codes "asset_1_symbol") asset1
                (put_text (codes "asset_2_symbol") asset2 end))))))
  let infos = put_int (codes "supply") supply_amount (
      put_int (codes "asset_1_pool_amount") pool1 (
        put_int (codes "asset_2_pool_amount") pool2 (
          put_int (codes "min_asset1_amount") min1
            (put_int (codes "min_asset2_amount") min2 texts))))
  super (Token.Host.set_api_result (json (map infos)))

-- What the map `apis` of `invoke` binds its keys to; the apis of a token contract are those of its own
-- `invoke`, less `init_token`.
pub data Api : Type 0 where
  of_token : Token.Invoke.Api → Api
  init init_config on_deposit_asset add_liquidity remove_liquidity set_min_add_amount : Api
  withdraw caculate_pool_share_by_token caculate_exchange_amount get_info : Api
  balance_of_asset get_user_removeable_liquidity : Api

abbrev pool_apis : Dict Api
pool_apis =
    (codes "init", init)
    ∷ (codes "init_config", init_config)
    ∷ (codes "transfer", of_token Token.Invoke.Api.transfer)
    ∷ (codes "transferFrom", of_token Token.Invoke.Api.transfer_from)
    ∷ (codes "balanceOf", of_token Token.Invoke.Api.balance_of)
    ∷ (codes "approve", of_token Token.Invoke.Api.approve)
    ∷ (codes "approvedBalanceFrom", of_token Token.Invoke.Api.approved_balance_from)
    ∷ (codes "allApprovedFromUser", of_token Token.Invoke.Api.all_approved_from_user)
    ∷ (codes "state", of_token Token.Invoke.Api.state)
    ∷ (codes "supply", of_token Token.Invoke.Api.supply)
    ∷ (codes "totalSupply", of_token Token.Invoke.Api.supply)
    ∷ (codes "precision", of_token Token.Invoke.Api.precision)
    ∷ (codes "tokenName", of_token Token.Invoke.Api.token_name)
    ∷ (codes "tokenSymbol", of_token Token.Invoke.Api.token_symbol)
    ∷ (codes "on_deposit_asset", on_deposit_asset)
    ∷ (codes "addLiquidity", add_liquidity)
    ∷ (codes "removeLiquidity", remove_liquidity)
    ∷ (codes "setMinAddAmount", set_min_add_amount)
    ∷ (codes "withdraw", withdraw)
    ∷ (codes "caculatePoolShareByToken", caculate_pool_share_by_token)
    ∷ (codes "caculateExchangeAmount", caculate_exchange_amount)
    ∷ (codes "getInfo", get_info)
    ∷ (codes "balanceOfAsset", balance_of_asset)
    ∷ (codes "getUserRemoveableLiquidity", get_user_removeable_liquidity)
    ∷ []

-- `apis`
abbrev api_names : List Bytes
api_names =
    codes "init"
    ∷ codes "init_token"
    ∷ codes "transfer"
    ∷ codes "transferFrom"
    ∷ codes "balanceOf"
    ∷ codes "approve"
    ∷ codes "approvedBalanceFrom"
    ∷ codes "allApprovedFromUser"
    ∷ codes "state"
    ∷ codes "supply"
    ∷ codes "totalSupply"
    ∷ codes "precision"
    ∷ codes "tokenName"
    ∷ codes "tokenSymbol"
    ∷ codes "addLiquidity"
    ∷ codes "removeLiquidity"
    ∷ codes "on_deposit_asset"
    ∷ codes "init_config"
    ∷ codes "withraw"
    ∷ codes "setMinAddAmount"
    ∷ codes "caculateExchangeAmount"
    ∷ codes "getInfo"
    ∷ codes "balanceOfAsset"
    ∷ codes "getUserRemoveableLiquidity"
    ∷ codes "caculatePoolShareByToken"
    ∷ []

-- `offline_apis`
unfoldable pub is_offline : Api → Bool
unfolding Token.Invoke.is_offline
is_offline (of_token api) = Token.Invoke.is_offline api
is_offline init = false
is_offline init_config = false
is_offline on_deposit_asset = false
is_offline add_liquidity = false
is_offline remove_liquidity = false
is_offline set_min_add_amount = false
is_offline withdraw = false
is_offline caculate_pool_share_by_token = true
is_offline caculate_exchange_amount = true
is_offline get_info = true
is_offline balance_of_asset = true
is_offline get_user_removeable_liquidity = true

module _ (split : Bytes → List Bytes) (trim strtod_rest : Bytes → Bytes)
    (fc_to_int64 : Bytes → Token.Host.Result ℤ) (from_json : Bytes → Result Deposit) where
  unfoldable pub call : Api → Bytes → Action ⊤
  unfolding init_api set_min_add_amount_api init_config_api withdraw_api balance_of_asset_api
      add_liquidity_api remove_liquidity_api on_deposit_asset_api get_user_removeable_liquidity_api
      caculate_pool_share_by_token_api caculate_exchange_amount_api get_info_api
  call (of_token api) s = super (Token.Invoke.call split trim strtod_rest api s)
  call init s = init_api s
  call init_config s = init_config_api split trim strtod_rest fc_to_int64 s
  call on_deposit_asset s = on_deposit_asset_api split trim strtod_rest fc_to_int64 from_json s
  call add_liquidity s = add_liquidity_api split trim strtod_rest fc_to_int64 s
  call remove_liquidity s = remove_liquidity_api split trim strtod_rest fc_to_int64 s
  call set_min_add_amount s = set_min_add_amount_api split trim strtod_rest fc_to_int64 s
  call withdraw s = withdraw_api split trim strtod_rest fc_to_int64 s
  call caculate_pool_share_by_token s =
      caculate_pool_share_by_token_api split trim strtod_rest fc_to_int64 s
  call caculate_exchange_amount s =
      caculate_exchange_amount_api split trim strtod_rest fc_to_int64 s
  call get_info s = get_info_api s
  call balance_of_asset s = balance_of_asset_api split trim strtod_rest fc_to_int64 s
  call get_user_removeable_liquidity s = get_user_removeable_liquidity_api s

  unfoldable pub run_api : Option Api → Bytes → Action ⊤
  unfolding call
  run_api none api_arg = throw_error api_not_found
  run_api (some api) api_arg = do
    call api api_arg
    super Token.Host.set_invoke_result_caller
    super (Token.Host.add_gas 100)

  -- `invoke`
  unfoldable pub invoke : Bytes → Bytes → Action ⊤
  unfolding run_api lookup
  invoke api_name api_arg = run_api (lookup api_name pool_apis) api_arg
