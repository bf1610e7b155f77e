-- ===== src/Uniswap/Liquidity.antt =====
-- `addLiquidity` and `removeLiquidity` of src/native_contract/native_uniswap_contract.cpp, and what an
-- exchange and the questions about the pool calculate.
use uvm.Base.{
  ◌*◌, ◌+◌, ⊤, Bool, true, false, not, ◌&&◌, ◌||◌, List, [], some, none, if◌then◌else◌, ◌==◌,
}
use uvm.Base.Int.{ℤ, pos, negsuc, ◌+ℤ◌, ◌-ℤ◌, ltb_ℤ}
use uvm.Cbor.Value.{Bytes, CborObject, force_as_int}
use uvm.Token
use uvm.Token.Numbers.{wrap64}
use uvm.Token.Contract.{token_int}
use uvm.Token.Host.{number, users, supply}
use uvm.Uniswap.Host.{
  Action, ◌>>=◌, ◌>>◌, pure, gets, throw_if, or_throw, throw_error, of_number, super,
  asset_1_symbol, asset_2_symbol, asset_1_pool_amount, asset_2_pool_amount, min_asset1_amount,
  min_asset2_amount, set_storage, get_string_storage, get_int_storage, fast_map_get, fast_map_set,
  emit, liquidity_added, liquidity_removed, liquidity_token_minted, liquidity_token_destoryed,
  transfer, not_positive, below_minimum, price_moved, not_enough, not_unified, no_tokens, too_large,
  not_enough_liquidity, empty_pool, bad_remove_amount, token,
}
use uvm.Uniswap.Prices.{asset2_for, tokens_for, share_of}
use uvm.Uniswap.Contract.{
  require_common, get_from_address, amount_or_zero, require_balance, balance_of_token,
  require_not_expired, int_arg, parse_args, parse_integers,
}

abbrev pub is_zero : ℤ → Bool
is_zero (pos n) = n == 0
is_zero (negsuc n) = false

abbrev pub eq_ℤ : ℤ → ℤ → Bool
eq_ℤ (pos m) (pos n) = m == n
eq_ℤ (negsuc m) (negsuc n) = m == n
eq_ℤ (pos m) (negsuc n) = false
eq_ℤ (negsuc m) (pos n) = false

abbrev pub is_integer : CborObject → Bool
is_integer v = elim (force_as_int v) [ some i ↦ true | none ↦ false ]

abbrev pub max_asset_amount : ℤ
max_asset_amount = pos 4000000000000000

abbrev times_1000 : ℤ → ℤ
times_1000 (pos n) = pos (n * 1000)
times_1000 (negsuc n) = negsuc (n * 1000 + 999)

unfoldable pub store_reserves : ℤ → ℤ → ℤ → Action ⊤
unfolding set_storage
store_reserves pool1 pool2 supply_amount = do
  set_storage asset_1_pool_amount (token_int pool1)
  set_storage asset_2_pool_amount (token_int pool2)
  super (Token.Host.set_current_contract_storage supply (token_int supply_amount))

-- `caculate_asset2_amount`, which an empty pool takes as it is offered.
unfoldable pub needed_asset2 : ℤ → ℤ → ℤ → ℤ → Action ℤ
needed_asset2 x max_asset2 pool1 pool2 = do
  amount ←
      (if not (is_zero pool1) && not (is_zero pool2)
        then of_number (asset2_for x pool2 pool1)
        else pure max_asset2)
  throw_if (ltb_ℤ max_asset2 amount) price_moved
  pure amount

-- `token_amount`
unfoldable pub new_tokens : ℤ → ℤ → ℤ → ℤ → Action ℤ
new_tokens x pool1 pool2 supply_amount =
    if is_zero pool1 && is_zero pool2 && is_zero supply_amount
    then pure (wrap64 (times_1000 x))
    else if not (is_zero pool1) && not (is_zero pool2) && not (is_zero supply_amount)
    then of_number (tokens_for x supply_amount pool1)
    else throw_error not_unified

-- The balances of both assets are lowered by the amounts.
unfoldable pub pay_in : Bytes → Bytes → Bytes → ℤ → ℤ → Action ⊤
unfolding require_balance fast_map_set
pay_in from_address asset1 asset2 amount1 amount2 = do
  balance1 ← require_balance from_address asset1
  balance2 ← require_balance from_address asset2
  throw_if (ltb_ℤ balance1 amount1 || ltb_ℤ balance2 amount2) not_enough
  fast_map_set from_address asset1 (token_int (wrap64 (balance1 -ℤ amount1)))
  fast_map_set from_address asset2 (token_int (wrap64 (balance2 -ℤ amount2)))

-- `addLiquidity_api` from where the amounts are known.
unfoldable pub add_liquidity : ℤ → ℤ → Action ⊤
add_liquidity x max_asset2 = do
  pool1 ← get_int_storage asset_1_pool_amount
  pool2 ← get_int_storage asset_2_pool_amount
  amount2 ← needed_asset2 x max_asset2 pool1 pool2
  from_address ← get_from_address
  asset1 ← get_string_storage asset_1_symbol
  asset2 ← get_string_storage asset_2_symbol
  pay_in from_address asset1 asset2 x amount2
  supply_amount ← super (Token.Host.get_int_current_contract_storage supply)
  token_amount ← new_tokens x pool1 pool2 supply_amount
  throw_if (not (ltb_ℤ (pos 0) token_amount)) no_tokens
  let pool1' = wrap64 (pool1 +ℤ x)
  throw_if (ltb_ℤ max_asset_amount pool1') too_large
  store_reserves pool1' (wrap64 (pool2 +ℤ amount2)) (wrap64 (supply_amount +ℤ token_amount))
  token_balance ← gets (balance_of_token from_address)
  super (
      Token.Host.current_fast_map_set users from_address
        (token_int (wrap64 (token_balance +ℤ token_amount))))
  emit (liquidity_added asset1 x asset2 amount2)
  emit (liquidity_token_minted token_amount)
  super (Token.Host.set_api_result (number token_amount))
  emit (transfer [] from_address token_amount)

-- What tokens are paid with: the whole pool for the whole supply, else a part of each asset.
unfoldable pub removed_amounts : ℤ → ℤ → ℤ → ℤ → Action (ℤ × ℤ)
removed_amounts destroyed pool1 pool2 supply_amount =
    if eq_ℤ supply_amount destroyed then pure (pool1, pool2) else (do
      amount1 ← of_number (share_of destroyed supply_amount pool1)
      amount2 ← of_number (share_of destroyed supply_amount pool2)
      pure (amount1, amount2))

-- The balances are raised by the amounts. The balance of the second asset, where there is one, is read
-- from the object of the first.
unfoldable pub pay_back : Bytes → Bytes → Bytes → ℤ → ℤ → Action ⊤
unfolding fast_map_get fast_map_set
pay_back from_address asset1 asset2 amount1 amount2 = do
  value1 ← gets (fast_map_get from_address asset1)
  value2 ← gets (fast_map_get from_address asset2)
  balance2 ←
      (if is_integer value2
        then or_throw (force_as_int value1) (token Token.Host.Error.not_integer)
        else pure (pos 0))
  fast_map_set from_address asset1 (token_int (wrap64 (amount_or_zero value1 +ℤ amount1)))
  fast_map_set from_address asset2 (token_int (wrap64 (balance2 +ℤ amount2)))

-- A pool and the supply are 0 together.
abbrev pub unified : ℤ → ℤ → ℤ → Bool
unified pool1 pool2 supply_amount =
    (is_zero pool1 && is_zero pool2 && is_zero supply_amount)
    || (not (is_zero pool1) && not (is_zero pool2) && not (is_zero supply_amount))

-- `removeLiquidity_api` from where the amounts are known.
unfoldable pub remove_liquidity : ℤ → ℤ → ℤ → Action ⊤
remove_liquidity destroyed min1 min2 = do
  from_address ← get_from_address
  token_balance ← gets (balance_of_token from_address)
  throw_if (ltb_ℤ token_balance destroyed) not_enough_liquidity
  pool1 ← get_int_storage asset_1_pool_amount
  pool2 ← get_int_storage asset_2_pool_amount
  supply_amount ← super (Token.Host.get_int_current_contract_storage supply)
  throw_if
      (not (ltb_ℤ (pos 0) pool1) || not (ltb_ℤ (pos 0) supply_amount) || not (ltb_ℤ (pos 0) pool2))
      empty_pool
  throw_if (ltb_ℤ pool1 min1 || ltb_ℤ pool2 min2) bad_remove_amount
  (amount1, amount2) ← removed_amounts destroyed pool1 pool2 supply_amount
  throw_if (ltb_ℤ amount1 min1 || ltb_ℤ amount2 min2) below_minimum
  asset1 ← get_string_storage asset_1_symbol
  asset2 ← get_string_storage asset_2_symbol
  pay_back from_address asset1 asset2 amount1 amount2
  let pool1' = wrap64 (pool1 -ℤ amount1)
  let pool2' = wrap64 (pool2 -ℤ amount2)
  let supply' = wrap64 (supply_amount -ℤ destroyed)
  throw_if (not (unified pool1' pool2' supply')) not_unified
  store_reserves pool1' pool2' supply'
  super (
      Token.Host.current_fast_map_set users from_address
        (token_int (wrap64 (token_balance -ℤ destroyed))))
  emit (liquidity_removed asset1 amount1 asset2 amount2)
  emit (liquidity_token_destoryed destroyed)

module _ (split : Bytes → List Bytes) (trim strtod_rest : Bytes → Bytes)
    (fc_to_int64 : Bytes → Token.Host.Result ℤ) where
  -- add_asset1_amount,max_add_asset2_amount,expired_blocknum
  unfoldable pub add_liquidity_api : Bytes → Action ⊤
  unfolding require_common parse_args parse_integers require_not_expired get_int_storage
      add_liquidity
  add_liquidity_api api_arg = do
    require_common
    parsed_args ← parse_args split trim strtod_rest fc_to_int64 3 api_arg
    ns ← parse_integers split trim strtod_rest fc_to_int64 parsed_args
    throw_if (not (ltb_ℤ (pos 0) (int_arg 0 ns)) || not (ltb_ℤ (pos 0) (int_arg 1 ns))) not_positive
    throw_if (not (ltb_ℤ (pos 0) (int_arg 2 ns))) not_positive
    require_not_expired (int_arg 2 ns)
    min1 ← get_int_storage min_asset1_amount
    throw_if (ltb_ℤ (int_arg 0 ns) min1) below_minimum
    min2 ← get_int_storage min_asset2_amount
    throw_if (ltb_ℤ (int_arg 1 ns) min2) below_minimum
    add_liquidity (int_arg 0 ns) (int_arg 1 ns)

  -- destory_token_amount,min_remove_asset1_amount,min_remove_asset2_amount,expired_blocknum
  unfoldable pub remove_liquidity_api : Bytes → Action ⊤
  unfolding require_common parse_args parse_integers require_not_expired remove_liquidity
  remove_liquidity_api api_arg = do
    require_common
    parsed_args ← parse_args split trim strtod_rest fc_to_int64 4 api_arg
    ns ← parse_integers split trim strtod_rest fc_to_int64 parsed_args
    throw_if
        (ltb_ℤ (int_arg 1 ns) (pos 0)
          || ltb_ℤ (int_arg 2 ns) (pos 0)
          || not (ltb_ℤ (pos 0) (int_arg 0 ns))
          || not (ltb_ℤ (pos 0) (int_arg 3 ns)))
        not_positive
    require_not_expired (int_arg 3 ns)
    remove_liquidity (int_arg 0 ns) (int_arg 1 ns) (int_arg 2 ns)
