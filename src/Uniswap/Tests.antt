-- ===== src/Uniswap/Tests.antt =====
-- A small pool, and the theorems on it at concrete inputs.
use uvm.Base.{ℕ, ◌+◌, ◌-◌, ◌*◌, ◌/◌, ◌≡◌, ◌≤◌, ◌<◌, refl, arith, [], ◌∷◌, none, inr, true}
use uvm.Base.Dict.{same, lookup}
use uvm.Base.Int.{ℤ, pos, ◌+ℤ◌, ◌-ℤ◌}
use uvm.Cbor.Value.{Bytes, scalar, string, force_as_int}
use uvm.Token
use uvm.Token.Host.{Host}
use uvm.Token.Contract.{common_state, token_int}
use uvm.Token.Balances.{IsLedger, total, value}
use uvm.Token.Supply.{IsSound}
use uvm.Token.Numbers.{wrap64, is_integral, stoll}
use uvm.Safe.Word.{done}
use uvm.Uniswap.Host.{Result, Pool, ok, full_key, fast_map_get, changed}
use uvm.Uniswap.Contract.{balance_of_asset, deposit, withdraw_api}
use uvm.Uniswap.Prices.{get_input_price, asset2_for, tokens_for, share_of, fee_on}
use uvm.Uniswap.Invoke.{Api, call, is_offline}
use uvm.Uniswap.Offline.{Answered, call-Answered}
use uvm.Uniswap.Exchange.{Deposit, on_deposit_asset_api}
use uvm.Uniswap.Liquidity.{add_liquidity, remove_liquidity}
use uvm.Uniswap.Rates.{get_input_price_lem, tokens_for_lem}
use uvm.Uniswap.Parts.{tokens_for-share_of}
use uvm.Uniswap.Changes.{changed_lem}
use uvm.Uniswap.ChangeLists.{change_at}
use uvm.Uniswap.Balances.{deposit-ok, withdraw_api-ok}
use uvm.Uniswap.Selling.{HasPools, after_sale}
use uvm.Uniswap.Orders.{IsOrder, on_deposit_asset_api-ok}
use uvm.Token.Texts.{split_commas, trim_spaces, after_digits}
use uvm.Uniswap.Adding.{after_add, add_liquidity-ok}
use uvm.Uniswap.Reserves.{HasReserves, HasBalances}
use uvm.Uniswap.Removing.{after_remove, remove_liquidity-ok}
use uvm.Uniswap.Shares.{add_liquidity-IsSound, remove_liquidity-IsSound}

abbrev gold : Bytes
gold = b'g' ∷ []

abbrev iron : Bytes
iron = b'i' ∷ []

abbrev carol : Bytes
carol = b'c' ∷ []

abbrev dave : Bytes
dave = b'd' ∷ []

abbrev pool_address : Bytes
pool_address = b'p' ∷ []

-- "0.003"
abbrev three_permille : Bytes
three_permille = b'0' ∷ b'.' ∷ b'0' ∷ b'0' ∷ b'3' ∷ []

abbrev fifty : Bytes
fifty = b'5' ∷ b'0' ∷ []

-- Stand-ins for `fc::to_int64` and the reading of a deposit: an order to sell 100 gold, "i,150,9".
abbrev no_int64 : Bytes → Token.Host.Result ℤ
no_int64 text = Token.Host.err Token.Host.Error.not_integer

-- "40,g", and what `fc::to_int64` reads of its amount
abbrev forty_gold : Bytes
forty_gold = b'4' ∷ b'0' ∷ b',' ∷ b'g' ∷ []

abbrev forty_of : Bytes → Token.Host.Result ℤ
forty_of text = Token.Host.ok (pos 40)

abbrev order_text : Bytes
order_text = b'i' ∷ b',' ∷ b'1' ∷ b'5' ∷ b'0' ∷ b',' ∷ b'9' ∷ []

abbrev read_order : Bytes → Result Deposit
read_order text = ok (record { num = pos 100; symbol = gold; param = order_text })

-- Carol holds 50 of 500 tokens of a pool of 1000 gold and 2000 iron, and 300 of each beside it.
abbrev ledger : Host
ledger = record {
  storage = record {
    name_value = scalar (string gold);
    symbol_value = scalar (string iron);
    supply_value = token_int (pos 500);
    precision_value = token_int (pos 1);
    state_value = scalar (string common_state);
    admin_value = scalar (string dave);
  };
  users_map = (carol, token_int (pos 50)) ∷ (dave, token_int (pos 450)) ∷ [];
  allowed_map = [];
  caller = carol;
  events = [];
  api_result = none;
  invoker = none;
  gas_used = 0;
}

abbrev market : Pool
market = record {
  base = ledger;
  storage = record {
    fee_rate_value = scalar (string three_permille);
    asset_1_symbol_value = scalar (string gold);
    asset_2_symbol_value = scalar (string iron);
    asset_1_pool_amount_value = token_int (pos 1000);
    asset_2_pool_amount_value = token_int (pos 2000);
    min_asset1_amount_value = token_int (pos 1);
    min_asset2_amount_value = token_int (pos 1);
  };
  assets =
      (full_key carol gold, token_int (pos 300)) ∷ (full_key carol iron, token_int (pos 310)) ∷ [];
  events = [];
  contract_address = pool_address;
  head_block = 7;
  asset_ids = (gold, 1) ∷ (iron, 2) ∷ [];
  balance_changes = [];
}

market-HasPools : HasPools market gold three_permille 1000 2000
unfolding force_as_int
market-HasPools = record {
  asset1_is = refl;
  pool1_is = refl;
  pool2_is = refl;
  rate_is = refl;
  some1 = omega arith;
  some2 = omega arith;
  small1 = omega arith;
  small2 = omega arith;
}

market-HasReserves : HasReserves market gold iron 1000 2000 500
unfolding force_as_int
market-HasReserves = record {
  asset1_is = refl;
  asset2_is = refl;
  pool1_is = refl;
  pool2_is = refl;
  total_is = refl;
  some1 = omega arith;
  some2 = omega arith;
  some_total = omega arith;
  small1 = omega arith;
  small2 = omega arith;
  small = omega arith;
}

market-HasBalances : HasBalances market gold iron 300 310 50
unfolding force_as_int fast_map_get lookup same Token.Contract.get_balance_of_user
market-HasBalances = record {
  balance1_is = refl;
  balance2_is = refl;
  held_is = refl;
  room1 = omega arith;
  room2 = omega arith;
  room = omega arith;
}

market-IsSound : IsSound market.base
unfolding IsLedger total value lookup same force_as_int ◌+ℤ◌
market-IsSound =
    (pos 500, refl, refl, omega arith, (omega arith, refl, (omega arith, refl, tt)), inr refl)

-- The fee on 100, and what 50 of the tokens are worth.
rates_example :
    (fee_on (pos 100) three_permille ≡ done (pos 1))
    × (share_of (pos 50) (pos 500) (pos 1000) ≡ done (pos 100))
    × (share_of (pos 50) (pos 500) (pos 2000) ≡ done (pos 200))
unfolding share_of fee_on uvm.Safe.Number.Text.create_of_string uvm.Safe.Number.Text.read_loop
    uvm.Safe.Number.create uvm.Safe.Number.compress_number uvm.Safe.Number.shorten
    uvm.Safe.Uint128.gt uvm.Safe.Uint128.add_word uvm.Safe.Uint128.add uvm.Safe.Uint128.Multi.multi
    uvm.Safe.Uint128.Multi.combine uvm.Safe.Uint128.Multi.move_carry uvm.Safe.Uint128.Multi.add_rows
    uvm.Safe.Uint128.Multi.products uvm.Safe.Number.drop_digits uvm.Safe.Number.strip
    uvm.Safe.Uint128.Divmod.divmod uvm.Safe.Number.restore_digits ◌+ℤ◌ ◌-ℤ◌
    uvm.Safe.Number.Arithmetic.create_int64 uvm.Safe.Number.Arithmetic.drop_top_bit
    uvm.Safe.Number.Arithmetic.fit_product uvm.Safe.Number.Arithmetic.is_zero
    uvm.Safe.Number.Arithmetic.multiply uvm.Safe.Number.Arithmetic.to_int64
    uvm.Safe.Number.Comparison.eq uvm.Safe.Number.Comparison.ne uvm.Safe.Uint128.Divmod.add_low_bit
    uvm.Safe.Uint128.Divmod.bits uvm.Safe.Uint128.Divmod.count_bits uvm.Safe.Uint128.Divmod.div_loop
    uvm.Safe.Uint128.Divmod.div_step uvm.Safe.Uint128.Divmod.subtract_divisor
    uvm.Safe.Uint128.bit_and uvm.Safe.Uint128.bit_or uvm.Safe.Uint128.eq uvm.Safe.Uint128.ge
    uvm.Safe.Uint128.lt uvm.Safe.Uint128.minus uvm.Safe.Uint128.shift_left
    uvm.Safe.Uint128.shift_right uvm.Safe.Uint256.Divmod.add_low_bit uvm.Safe.Uint256.Divmod.bits
    uvm.Safe.Uint256.Divmod.count_bits uvm.Safe.Uint256.Divmod.div_loop
    uvm.Safe.Uint256.Divmod.div_step uvm.Safe.Uint256.Divmod.divmod
    uvm.Safe.Uint256.Divmod.subtract_divisor uvm.Safe.Uint256.Multi.add_rows
    uvm.Safe.Uint256.Multi.combine uvm.Safe.Uint256.Multi.move_carry uvm.Safe.Uint256.Multi.multi
    uvm.Safe.Uint256.Multi.products uvm.Safe.Uint256.add uvm.Safe.Uint256.bit_and
    uvm.Safe.Uint256.eq uvm.Safe.Uint256.ge uvm.Safe.Uint256.gt uvm.Safe.Uint256.minus
    uvm.Safe.Uint256.shift_left uvm.Safe.Uint256.shift_right wrap64 uvm.Uniswap.Prices.rounded_up
    uvm.Safe.Number.Arithmetic.div uvm.Safe.Number.Arithmetic.div_to
    uvm.Safe.Number.Arithmetic.div_digits uvm.Safe.Uint128.Multi.multi_word
    uvm.Safe.Number.Arithmetic.place_quotient
rates_example = (refl, refl, refl)

get_input_price_lem_example :
    get_input_price (pos 99) (pos 1000) (pos 2000) ≡ done (pos (99 * 2000 / (1000 + 99)))
get_input_price_lem_example =
    get_input_price_lem 99 1000 2000 (omega arith) (omega arith) (omega arith) (omega arith)
      (omega arith) (omega arith) (omega arith)

tokens_for-share_of_example :
    (r : ℕ) × (share_of (pos 50) (pos (500 + 50)) (pos (1000 + 100)) ≡ done (pos r)) × (r ≤ 100)
tokens_for-share_of_example =
    tokens_for-share_of 100 500 1000 50 (omega arith) (omega arith) (omega arith) (omega arith)
      (omega arith) (omega arith) (omega arith)
      (tokens_for_lem 100 500 1000 (omega arith) (omega arith) (omega arith) (omega arith)
        (omega arith) (omega arith) (omega arith) (omega arith))
      (omega arith)

changed_lem_example :
    (change_at pool_address 2 (changed pool_address carol 2 (pos 180) [])
      ≡ wrap64 (change_at pool_address 2 [] -ℤ pos 180))
    × (change_at carol 2 (changed pool_address carol 2 (pos 180) [])
        ≡ wrap64 (change_at carol 2 [] +ℤ pos 180))
    × (change_at carol 1 (changed pool_address carol 2 (pos 180) []) ≡ change_at carol 1 [])
unfolding same
changed_lem_example = changed_lem pool_address carol 2 (pos 180) [] carol 1 refl refl refl

deposit-ok_example :
    (p' : Pool) × (deposit (pos 40) gold market ≡ (ok tt, p'))
    × (balance_of_asset carol gold p' ≡ pos (300 + 40))
    × (balance_of_asset carol iron p' ≡ balance_of_asset carol iron market)
    × (p'.balance_changes ≡ market.balance_changes)
unfolding balance_of_asset same lookup force_as_int
deposit-ok_example = deposit-ok 40 300 gold carol iron market refl (omega arith) refl

withdraw_api-ok_example :
    (p' : Pool) × (withdraw_api split_commas trim_spaces after_digits forty_of forty_gold market
      ≡ (ok tt, p'))
    × (balance_of_asset carol gold p' ≡ pos (300 - 40))
    × (balance_of_asset carol iron p' ≡ balance_of_asset carol iron market)
    × (change_at pool_address 1 p'.balance_changes ≡ wrap64 (change_at pool_address 1 [] -ℤ pos 40))
    × (change_at carol 1 p'.balance_changes ≡ wrap64 (change_at carol 1 [] +ℤ pos 40))
unfolding fast_map_get same lookup force_as_int is_integral
withdraw_api-ok_example =
    withdraw_api-ok split_commas trim_spaces after_digits forty_of 40 300 1 forty_gold
      (b'4' ∷ b'0' ∷ []) gold carol iron market refl refl refl refl (omega arith) refl refl
      (omega arith) (omega arith) refl refl refl

market-IsOrder : IsOrder market gold iron gold iron 100 150 9
unfolding same
market-IsOrder = record {
  common = refl;
  asset2_is = refl;
  sold = refl;
  bought = refl;
  two_assets = refl;
  some_amount = omega arith;
  some_want = omega arith;
  some_block = omega arith;
  in_time = omega arith;
}

on_deposit_asset_api-ok_example :
    (on_deposit_asset_api split_commas trim_spaces after_digits no_int64 read_order [] market
      ≡ (ok tt, after_sale market 1100 1820 2 gold 100 1 iron 180))
    × (1000 * 2000 < 1100 * 1820)
unfolding same lookup is_integral stoll
on_deposit_asset_api-ok_example =
    on_deposit_asset_api-ok split_commas trim_spaces after_digits no_int64 read_order true 100 1 150
      9 1000 2000 2 gold iron gold iron three_permille [] order_text (b'1' ∷ b'5' ∷ b'0' ∷ [])
      (b'9' ∷ []) market market-IsOrder refl refl refl refl refl refl refl market-HasPools
      (record {
        fee_is = rates_example.0;
        left = omega arith;
        small = omega arith;
        met = omega arith;
        some_price = omega arith;
      })
      refl refl

add_liquidity-ok_example :
    (add_liquidity (pos 100) (pos 250) market
      ≡ (ok tt, after_add market gold iron 100 250 1000 2000 500 300 310 50 200 50))
    × (50 * 1000 ≤ 100 * 500)
    × (100 * 2000 ≤ 200 * 1000)
add_liquidity-ok_example =
    add_liquidity-ok market gold iron 100 250 1000 2000 500 300 310 50 market-HasReserves
      market-HasBalances (omega arith) (omega arith) (omega arith) (omega arith) (omega arith)
      (omega arith) (omega arith) (omega arith)

remove_liquidity-ok_example :
    (remove_liquidity (pos 50) (pos 90) (pos 190) market
      ≡ (ok tt, after_remove market gold iron 50 90 190 1000 2000 500 300 310 50 100 200))
    × (100 * 500 ≤ 50 * 1000)
    × (200 * 500 ≤ 50 * 2000)
    × (100 < 1000)
    × (200 < 2000)
remove_liquidity-ok_example =
    remove_liquidity-ok market gold iron 50 90 190 1000 2000 500 300 310 50 100 200
      market-HasReserves market-HasBalances (omega arith) (omega arith) (omega arith) (omega arith)
      (omega arith) rates_example.1 rates_example.2

add_liquidity-IsSound_example :
    (p' : Pool) × (add_liquidity (pos 100) (pos 250) market ≡ (ok tt, p')) × IsSound p'.base
add_liquidity-IsSound_example =
    add_liquidity-IsSound market gold iron 100 250 1000 2000 500 300 310 50 market-IsSound refl
      market-HasReserves market-HasBalances (omega arith) (omega arith) (omega arith) (omega arith)
      (omega arith) (omega arith) (omega arith)

remove_liquidity-IsSound_example :
    (p' : Pool) × (remove_liquidity (pos 50) (pos 90) (pos 190) market ≡ (ok tt, p'))
    × IsSound p'.base
remove_liquidity-IsSound_example =
    remove_liquidity-IsSound market gold iron 50 90 190 1000 2000 500 300 310 50 100 200
      market-IsSound refl market-HasReserves market-HasBalances (omega arith) (omega arith)
      (omega arith) (omega arith) (omega arith) rates_example.1 rates_example.2

-- What 50 tokens are worth, asked at the market.
call-Answered_example :
    Answered market
      (call split_commas trim_spaces after_digits no_int64 read_order
        Api.caculate_pool_share_by_token fifty market).1
unfolding is_offline
call-Answered_example =
    call-Answered split_commas trim_spaces after_digits no_int64 read_order
      Api.caculate_pool_share_by_token fifty market refl
