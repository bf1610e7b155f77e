-- ===== src/Uniswap/Exchange.antt =====
-- `on_deposit_asset` of src/native_contract/native_uniswap_contract.cpp, which takes a deposit or sells
-- what arrives to the pool, and the apis that only answer.
use uvm.Base.{⊤, Bool, true, false, not, ◌&&◌, ◌||◌, List, [], ◌∷◌, if◌then◌else◌}
use uvm.Base.Dict.{same}
use uvm.Base.Int.{ℤ, pos, ◌+ℤ◌, ◌-ℤ◌, ltb_ℤ}
use uvm.Cbor.Value.{Bytes, CborObject, map, end}
use uvm.Cbor.Entries.{put}
use uvm.Token
use uvm.Token.Numbers.{wrap64, stoll, is_integral}
use uvm.Token.Contract.{arg, token_int}
use uvm.Token.Host.{number, json, supply}
use uvm.Uniswap.Host.{
  Action, Result, ◌>>=◌, ◌>>◌, pure, gets, throw_if, throw_error, of_number, of_token, super,
  fee_rate, asset_1_symbol, asset_2_symbol, asset_1_pool_amount, asset_2_pool_amount, set_storage,
  get_string_storage, get_int_storage, emit, transfer_to_address, exchanged, not_positive,
  bad_symbol, same_symbol, empty_pool, nothing_left, pool_not_enough, nothing_bought, price_not_met,
  bad_pool, bad_argument, supply_exceeded,
}
use uvm.Uniswap.Prices.{get_input_price, fee_on, share_of}
use uvm.Uniswap.Contract.{
  require_common, get_from_address, balance_of_token, require_not_expired, int_arg, parse_args,
  parse_integers, deposit,
}
use uvm.Uniswap.Liquidity.{eq_ℤ}

-- What the JSON argument of `on_deposit_asset` holds.
pub record Deposit : Type 0 where
  pub num : ℤ
  pub symbol : Bytes
  pub param : Bytes

abbrev at_most_zero : ℤ → Bool
at_most_zero n = not (ltb_ℤ (pos 0) n)

-- `get_asset_amount`, for an amount sold to the first pool without its fee.
unfoldable pub bought_amount : ℤ → ℤ → ℤ → ℤ → Action ℤ
bought_amount sold want pool_in pool_out = do
  throw_if (not (ltb_ℤ want pool_out)) pool_not_enough
  get_asset_amount ← of_number (get_input_price sold pool_in pool_out)
  throw_if (at_most_zero get_asset_amount) nothing_bought
  throw_if (ltb_ℤ get_asset_amount want) price_not_met
  pure get_asset_amount

unfoldable store_pools : ℤ → ℤ → Action ⊤
unfolding set_storage
store_pools pool1 pool2 = do
  throw_if (at_most_zero pool1 || at_most_zero pool2) bad_pool
  set_storage asset_1_pool_amount (token_int pool1)
  set_storage asset_2_pool_amount (token_int pool2)

-- `fee`, which has to leave something.
unfoldable pub fee_of : ℤ → Action ℤ
fee_of amount = do
  rate ← get_string_storage fee_rate
  fee ← of_number (fee_on amount rate)
  throw_if (not (ltb_ℤ fee amount)) nothing_left
  pure fee

-- The pool that is sold to where the first asset is sold, or where the second is, and the other.
abbrev pub pool_in : Bool → ℤ → ℤ → ℤ
pool_in first pool1 pool2 = if first then pool1 else pool2

abbrev pub pool_out : Bool → ℤ → ℤ → ℤ
pool_out first pool1 pool2 = if first then pool2 else pool1

-- The pools after the sale.
unfoldable pub store_sale : Bool → ℤ → ℤ → ℤ → ℤ → Action ⊤
unfolding store_pools
store_sale true amount bought pool1 pool2 =
    store_pools (wrap64 (pool1 +ℤ amount)) (wrap64 (pool2 -ℤ bought))
store_sale false amount bought pool1 pool2 =
    store_pools (wrap64 (pool1 -ℤ bought)) (wrap64 (pool2 +ℤ amount))

-- The sale of an amount to the pool, to the exchange of one asset for the other.
unfoldable pub exchange : ℤ → Bytes → Bytes → ℤ → Action ⊤
exchange amount symbol want_symbol want = do
  from_address ← get_from_address
  asset1 ← get_string_storage asset_1_symbol
  pool1 ← get_int_storage asset_1_pool_amount
  pool2 ← get_int_storage asset_2_pool_amount
  throw_if (at_most_zero pool1 || at_most_zero pool2) empty_pool
  fee ← fee_of amount
  let first = same symbol asset1
  bought ←
      bought_amount (wrap64 (amount -ℤ fee)) want (pool_in first pool1 pool2)
        (pool_out first pool1 pool2)
  store_sale first amount bought pool1 pool2
  transfer_to_address from_address want_symbol bought
  emit (exchanged from_address fee symbol amount want_symbol bought)
  super (Token.Host.set_api_result (number bought))

abbrev lift : {A : Type 0} → Result A → Action A
lift r p = (r, p)

-- The JSON object of two amounts
abbrev two_amounts : Bytes → ℤ → Bytes → ℤ → CborObject
two_amounts asset1 amount1 asset2 amount2 =
    map (put asset2 (token_int amount2) (put asset1 (token_int amount1) end))

-- What a number of tokens is worth in both assets.
unfoldable pub shares : ℤ → ℤ → ℤ → ℤ → Action (ℤ × ℤ)
shares tokens supply_amount pool1 pool2 =
    if eq_ℤ tokens supply_amount then pure (pool1, pool2) else (do
      amount1 ← of_number (share_of tokens supply_amount pool1)
      amount2 ← of_number (share_of tokens supply_amount pool2)
      pure (amount1, amount2))

unfoldable pub answer_shares : ℤ → Action ⊤
unfolding get_string_storage get_int_storage shares put
answer_shares tokens = do
  asset1 ← get_string_storage asset_1_symbol
  asset2 ← get_string_storage asset_2_symbol
  pool1 ← get_int_storage asset_1_pool_amount
  pool2 ← get_int_storage asset_2_pool_amount
  supply_amount ← super (Token.Host.get_int_current_contract_storage supply)
  (amount1, amount2) ← shares tokens supply_amount pool1 pool2
  super (Token.Host.set_api_result (json (two_amounts asset1 amount1 asset2 amount2)))

unfoldable pub answer_nothing : Action ⊤
unfolding get_string_storage put
answer_nothing = do
  asset1 ← get_string_storage asset_1_symbol
  asset2 ← get_string_storage asset_2_symbol
  super (Token.Host.set_api_result (json (two_amounts asset1 (pos 0) asset2 (pos 0))))

-- args: address
unfoldable pub get_user_removeable_liquidity_api : Bytes → Action ⊤
unfolding require_common balance_of_token answer_shares answer_nothing
get_user_removeable_liquidity_api addr = do
  require_common
  token_balance ← gets (balance_of_token addr)
  if at_most_zero token_balance then answer_nothing else answer_shares token_balance

module _ (split : Bytes → List Bytes) (trim strtod_rest : Bytes → Bytes)
    (fc_to_int64 : Bytes → Token.Host.Result ℤ) where
  -- args: tokenAmount
  unfoldable pub caculate_pool_share_by_token_api : Bytes → Action ⊤
  unfolding require_common get_string_storage get_int_storage shares put
  caculate_pool_share_by_token_api api_arg = do
    require_common
    asset1 ← get_string_storage asset_1_symbol
    asset2 ← get_string_storage asset_2_symbol
    pool1 ← get_int_storage asset_1_pool_amount
    pool2 ← get_int_storage asset_2_pool_amount
    supply_amount ← super (Token.Host.get_int_current_contract_storage supply)
    throw_if (not (is_integral strtod_rest api_arg)) bad_argument
    tokens ← of_token (stoll api_arg)
    throw_if (at_most_zero tokens) not_positive
    throw_if (ltb_ℤ supply_amount tokens) supply_exceeded
    (amount1, amount2) ← shares tokens supply_amount pool1 pool2
    super (Token.Host.set_api_result (json (two_amounts asset1 amount1 asset2 amount2)))

  -- want_sell_asset_symbol,want_sell_asset_amount,want_buy_asset_symbol
  unfoldable pub caculate_exchange_amount_api : Bytes → Action ⊤
  unfolding require_common parse_args get_string_storage get_int_storage
  caculate_exchange_amount_api api_arg = do
    require_common
    args ← parse_args split trim strtod_rest fc_to_int64 3 api_arg
    throw_if (not (is_integral strtod_rest (arg 1 args))) bad_argument
    amount ← of_token (stoll (arg 1 args))
    throw_if (at_most_zero amount) not_positive
    asset1 ← get_string_storage asset_1_symbol
    asset2 ← get_string_storage asset_2_symbol
    pool1 ← get_int_storage asset_1_pool_amount
    pool2 ← get_int_storage asset_2_pool_amount
    throw_if (at_most_zero pool1 || at_most_zero pool2) empty_pool
    rate ← get_string_storage fee_rate
    fee ← of_number (fee_on amount rate)
    let sold = wrap64 (amount -ℤ fee)
    bought ←
        (if not (ltb_ℤ fee amount)
          then pure (pos 0)
          else if same (arg 0 args) asset1 && same (arg 2 args) asset2
          then of_number (get_input_price sold pool1 pool2)
          else if same (arg 0 args) asset2 && same (arg 2 args) asset1
          then of_number (get_input_price sold pool2 pool1)
          else throw_error bad_symbol)
    super (Token.Host.set_api_result (number bought))

  -- want_buy_asset_symbol,min_want_buy_asset_amount,expired_blocknum
  unfoldable pub exchange_for : ℤ → Bytes → Bytes → Bytes → Bytes → Action ⊤
  unfolding parse_args parse_integers require_not_expired exchange
  exchange_for amount symbol param asset1 asset2 = do
    args ← parse_args split trim strtod_rest fc_to_int64 3 param
    ns ← parse_integers split trim strtod_rest fc_to_int64 (arg 1 args ∷ arg 2 args ∷ [])
    throw_if (at_most_zero (int_arg 0 ns)) not_positive
    throw_if (at_most_zero (int_arg 1 ns)) not_positive
    require_not_expired (int_arg 1 ns)
    let want_symbol = arg 0 args
    throw_if (not (same want_symbol asset1) && not (same want_symbol asset2)) bad_symbol
    throw_if (same want_symbol symbol) same_symbol
    exchange amount symbol want_symbol (int_arg 0 ns)

  -- `fc::json::from_string` and the reading of its three fields
  module _ (from_json : Bytes → Result Deposit) where
    unfoldable pub on_deposit_asset_api : Bytes → Action ⊤
    unfolding require_common get_string_storage deposit exchange_for
    on_deposit_asset_api api_args = do
      require_common
      arginfo ← lift (from_json api_args)
      throw_if (at_most_zero arginfo.num) not_positive
      asset1 ← get_string_storage asset_1_symbol
      asset2 ← get_string_storage asset_2_symbol
      throw_if (not (same arginfo.symbol asset1) && not (same arginfo.symbol asset2)) bad_symbol
      if same arginfo.param []
          then deposit arginfo.num arginfo.symbol
          else exchange_for arginfo.num arginfo.symbol arginfo.param asset1 asset2
