-- ===== src/Uniswap/Contract.antt =====
-- `uniswap_native_contract` of src/native_contract/native_uniswap_contract.cpp: its configuration, the
-- deposits and withdrawals of assets, and what the two larger apis share.
use uvm.Base.{ℕ, zero, ⊤, Bool, true, not, ◌&&◌, ◌||◌, List, [], ◌∷◌, length, ◌==◌, leb, get_elem?}
use uvm.Base.Dict.{same}
use uvm.Base.Int.{ℤ, pos, negsuc, ◌+ℤ◌, ◌-ℤ◌, ltb_ℤ}
use uvm.Cbor.Value.{Bytes, CborObject, scalar, null, string, force_as_int}
use uvm.Token
use uvm.Token.Numbers.{wrap64, stoll, is_numeric, is_integral}
use uvm.Token.Contract.{not_inited_state, common_state, arg, token_int}
use uvm.Token.Host.{number}
use uvm.Safe.Number.{SafeNumber}
use uvm.Safe.Number.Arithmetic.{create_int64}
use uvm.Safe.Number.Comparison
use uvm.Safe.Number.Text.{create_of_string}
use uvm.Uniswap.Host.{
  Pool, Action, ◌>>=◌, ◌>>◌, pure, gets, throw_if, or_throw, of_token, of_number, super, fee_rate,
  asset_1_symbol, asset_2_symbol, asset_1_pool_amount, asset_2_pool_amount, min_asset1_amount,
  min_asset2_amount, set_storage, fast_map_get, fast_map_set, emit, transfer_to_address,
  set_min_add_amount, inited, deposited, withdrawed, bad_state, inited_before, bad_argument,
  not_positive, same_assets, bad_fee_rate, expired, no_balance, not_enough, bad_symbol,
}

unfoldable pub init_api : Bytes → Action ⊤
unfolding set_storage
init_api api_arg = do
  super (Token.Contract.init_api api_arg)
  set_storage fee_rate (scalar (string (b'0' ∷ b'.' ∷ b'0' ∷ [])))
  set_storage asset_1_symbol (scalar (string []))
  set_storage asset_2_symbol (scalar (string []))
  set_storage asset_1_pool_amount (token_int (pos 0))
  set_storage asset_2_pool_amount (token_int (pos 0))
  set_storage min_asset1_amount (token_int (pos 0))
  set_storage min_asset2_amount (token_int (pos 0))

-- `if (get_storage_state() != common_state_of_contract) throw_error(...)`
unfoldable pub require_common : Action ⊤
require_common = do
  state ← super Token.Contract.get_storage_state
  throw_if (not (same state common_state)) bad_state

-- `get_from_address` and `caller_address_string`
unfoldable pub get_from_address : Action Bytes
get_from_address = super Token.Host.caller_address_string

-- `if (balance->is_integer()) amount = balance->force_as_int()`, after `amount = 0`
abbrev pub amount_or_zero : CborObject → ℤ
amount_or_zero v = Token.Contract.amount_of (force_as_int v)

unfoldable pub balance_of_asset : Bytes → Bytes → Pool → ℤ
unfolding fast_map_get
balance_of_asset addr symbol p = amount_or_zero (fast_map_get addr symbol p)

-- The balance, which has to be there.
unfoldable pub require_balance : Bytes → Bytes → Action ℤ
unfolding fast_map_get
require_balance addr symbol p = or_throw (force_as_int (fast_map_get addr symbol p)) no_balance p

-- The liquidity tokens of a user.
unfoldable pub balance_of_token : Bytes → Pool → ℤ
balance_of_token addr p = Token.Contract.get_balance_of_user addr p.base

-- `expired_blocknum`, against the head block
unfoldable pub require_not_expired : ℤ → Action ⊤
require_not_expired (pos n) p = throw_if (leb n p.head_block) expired p
require_not_expired (negsuc n) p = throw_if true expired p

-- The assets: what arrives is put to the balance of the caller.
unfoldable pub deposit : ℤ → Bytes → Action ⊤
unfolding balance_of_asset fast_map_set get_from_address emit
deposit amount symbol = do
  from_address ← get_from_address
  user_balance ← gets (balance_of_asset from_address symbol)
  fast_map_set from_address symbol (token_int (wrap64 (user_balance +ℤ amount)))
  emit (deposited from_address symbol amount)

abbrev pub balance_value : ℤ → CborObject
balance_value (pos zero) = scalar null
balance_value new_balance = token_int new_balance

-- `withdraw_api` past its checks; a balance of 0 is set to null.
unfoldable pub pay_out : Bytes → Bytes → ℤ → Action ⊤
unfolding require_balance fast_map_set transfer_to_address emit
pay_out from_address symbol amount = do
  bal ← require_balance from_address symbol
  throw_if (ltb_ℤ bal amount) not_enough
  let new_balance = wrap64 (bal -ℤ amount)
  fast_map_set from_address symbol (balance_value new_balance)
  transfer_to_address from_address symbol amount
  emit (withdrawed from_address symbol amount)

abbrev pub int_arg : ℕ → List ℤ → ℤ
int_arg i ns = Token.Contract.amount_of (get_elem? ns i)

abbrev is_positive : ℤ → Bool
is_positive n = ltb_ℤ (pos 0) n

unfoldable pub stoll_all : List Bytes → Token.Host.Result (List ℤ)
stoll_all [] = Token.Host.ok []
stoll_all (s ∷ ss) = elim (stoll s) [
  | Token.Host.ok n ↦ elim (stoll_all ss) [
    | Token.Host.ok ns ↦ Token.Host.ok (n ∷ ns)
    | Token.Host.err e ↦ Token.Host.err e
  ]
  | Token.Host.err e ↦ Token.Host.err e
]

-- `boost::split` at commas, `boost::trim`, what `std::strtod` leaves, and `fc::to_int64`.
module _ (split : Bytes → List Bytes) (trim strtod_rest : Bytes → Bytes)
    (fc_to_int64 : Bytes → Token.Host.Result ℤ) where
  -- The parsed arguments, when there are n.
  unfoldable pub parse_args : ℕ → Bytes → Action (List Bytes)
  parse_args n api_arg =
      throw_if (not (length (split api_arg) == n)) bad_argument >> pure (split api_arg)

  unfoldable pub all_integral : List Bytes → Bool
  all_integral [] = true
  all_integral (s ∷ ss) = is_integral strtod_rest s && all_integral ss

  -- The numbers among the arguments: first all are tested, then all are read.
  unfoldable pub parse_integers : List Bytes → Action (List ℤ)
  unfolding all_integral stoll_all
  parse_integers texts =
      throw_if (not (all_integral texts)) bad_argument >> of_token (stoll_all texts)

  -- min_asset1_amount,min_asset2_amount
  unfoldable pub set_min_add_amount_api : Bytes → Action ⊤
  unfolding require_common parse_args parse_integers set_storage emit
  set_min_add_amount_api api_arg = do
    super Token.Contract.check_admin
    require_common
    parsed_args ← parse_args 2 api_arg
    amounts ← parse_integers parsed_args
    throw_if (not (is_positive (int_arg 0 amounts)) || not (is_positive (int_arg 1 amounts)))
        not_positive
    set_storage min_asset1_amount (token_int (int_arg 0 amounts))
    set_storage min_asset2_amount (token_int (int_arg 1 amounts))
    emit (set_min_add_amount api_arg)

  -- The stores of `init_config_api`, and its event.
  unfoldable configure : Bytes → Bytes → ℤ → ℤ → Bytes → Bytes → Bytes → Action ⊤
  unfolding set_storage emit
  configure asset1 asset2 min1 min2 feestr token_name token_symbol = do
    set_storage fee_rate (scalar (string feestr))
    set_storage asset_1_symbol (scalar (string asset1))
    set_storage asset_2_symbol (scalar (string asset2))
    set_storage min_asset1_amount (token_int min1)
    set_storage min_asset2_amount (token_int min2)
    super (Token.Host.set_current_contract_storage Token.Host.state (scalar (string common_state)))
    super (Token.Host.set_current_contract_storage Token.Host.name (scalar (string token_name)))
    super (Token.Host.set_current_contract_storage Token.Host.symbol (scalar (string token_symbol)))
    super (Token.Host.set_current_contract_storage Token.Host.precision (token_int (pos 1)))
    emit (inited asset1 asset2 feestr token_name token_symbol min1 min2)

  -- The test of the fee rate in `init_config_api`.
  unfoldable check_fee_rate : SafeNumber → Action ⊤
  check_fee_rate rate = do
    zero_rate ← of_number (create_int64 (pos 0))
    one_rate ← of_number (create_int64 (pos 1))
    below ← of_number (Comparison.lt rate zero_rate)
    above ← of_number (Comparison.gte rate one_rate)
    throw_if (below || above) bad_fee_rate

  -- asset1,asset2,min_asset1_amount,min_asset2_amount,fee_rate,token_name,token_symbol
  unfoldable pub init_config_api : Bytes → Action ⊤
  unfolding parse_args all_integral stoll_all check_fee_rate configure
  init_config_api api_arg = do
    super Token.Contract.check_admin
    state ← super Token.Contract.get_storage_state
    throw_if (not (same state not_inited_state)) inited_before
    args ← parse_args 7 api_arg
    let asset1 = trim (arg 0 args)
    let asset2 = trim (arg 1 args)
    throw_if (same asset1 [] || same asset2 []) bad_argument
    throw_if (same asset1 asset2) same_assets
    let feestr = arg 4 args
    let min_texts = arg 2 args ∷ arg 3 args ∷ []
    throw_if (not (all_integral min_texts) || not (is_numeric strtod_rest feestr)) bad_argument
    mins ← of_token (stoll_all min_texts)
    let positive = is_positive (int_arg 0 mins) && is_positive (int_arg 1 mins)
    rate ← of_number (create_of_string feestr)
    throw_if (not positive) not_positive
    check_fee_rate rate
    let token_name = trim (arg 5 args)
    let token_symbol = trim (arg 6 args)
    throw_if (same token_name [] || same token_symbol []) bad_argument
    configure asset1 asset2 (int_arg 0 mins) (int_arg 1 mins) feestr token_name token_symbol

  -- args: amount,symbol
  unfoldable pub withdraw_api : Bytes → Action ⊤
  unfolding require_common parse_args get_from_address pay_out
  withdraw_api api_arg = do
    require_common
    parsed_args ← parse_args 2 api_arg
    throw_if (not (is_integral strtod_rest (arg 0 parsed_args))) bad_argument
    amount ← of_token (fc_to_int64 (arg 0 parsed_args))
    throw_if (not (is_positive amount)) not_positive
    throw_if (same (arg 1 parsed_args) []) bad_symbol
    from_address ← get_from_address
    pay_out from_address (arg 1 parsed_args) amount

  -- args: address,symbol
  unfoldable pub balance_of_asset_api : Bytes → Action ⊤
  unfolding require_common parse_args balance_of_asset
  balance_of_asset_api api_arg = do
    require_common
    parsed_args ← parse_args 2 api_arg
    bal ← gets (balance_of_asset (arg 0 parsed_args) (arg 1 parsed_args))
    super (Token.Host.set_api_result (number bal))
