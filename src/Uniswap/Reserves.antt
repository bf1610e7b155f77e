-- ===== src/Uniswap/Reserves.antt =====
-- The reserves of a pool and what a caller has of them in src/native_contract/native_uniswap_contract.cpp, read and
-- stored.
use uvm.Base.{ℕ, ◌*◌, ◌^◌, ◌≤◌, ◌<◌, ◌≡◌, refl, ap, ◌∙◌, some}
use uvm.Base.Dict.{lookup, insert}
use uvm.Base.Int.{ℤ, pos}
use uvm.Cbor.Value.{Bytes, force_as_int}
use uvm.Token
use uvm.Token.Contract.{token_int}
use uvm.Token.Host.{number, as_string, supply}
use uvm.Uniswap.Host.{Pool, ok, gets, full_key, fast_map_get, super, ◌>>=◌}
use uvm.Uniswap.Contract.{balance_of_token}
use uvm.Uniswap.Liquidity.{store_reserves}

-- The reserves, the supply, and what the caller has.
pub record HasReserves (p : Pool) (asset1 asset2 : Bytes) (pool1 pool2 total : ℕ) : Type 0 where
  pub asset1_is : as_string p.storage.asset_1_symbol_value ≡ some asset1
  pub asset2_is : as_string p.storage.asset_2_symbol_value ≡ some asset2
  pub pool1_is : force_as_int p.storage.asset_1_pool_amount_value ≡ some (pos pool1)
  pub pool2_is : force_as_int p.storage.asset_2_pool_amount_value ≡ some (pos pool2)
  pub total_is : force_as_int p.base.storage.supply_value ≡ some (pos total)
  pub some1 : 0 < pool1
  pub some2 : 0 < pool2
  pub some_total : 0 < total
  pub small1 : pool1 ≤ 4 * 10 ^ 15
  pub small2 : pool2 ≤ 4 * 10 ^ 15
  pub small : total ≤ 10 ^ 16

pub record HasBalances (p : Pool) (asset1 asset2 : Bytes) (balance1 balance2 held : ℕ)
    : Type 0 where
  pub balance1_is : force_as_int (fast_map_get p.base.caller asset1 p) ≡ some (pos balance1)
  pub balance2_is : force_as_int (fast_map_get p.base.caller asset2 p) ≡ some (pos balance2)
  pub held_is : Token.Contract.get_balance_of_user p.base.caller p.base ≡ pos held
  pub room1 : balance1 < 2 ^ 62
  pub room2 : balance2 < 2 ^ 62
  pub room : held < 2 ^ 62

-- The state in which the pools, the supply, the balances of the caller and the tokens that it holds are
-- the given numbers, with more events.
abbrev pub settled : Pool → Bytes → Bytes → ℕ → ℕ → ℕ → ℕ → ℕ → ℕ → Pool
settled p asset1 asset2 pool1 pool2 total balance1 balance2 held = record p {
  base = record p.base {
    storage = record p.base.storage { supply_value = token_int (pos total) };
    users_map = insert p.base.caller (token_int (pos held)) p.base.users_map;
  };
  storage = record p.storage {
    asset_1_pool_amount_value = token_int (pos pool1);
    asset_2_pool_amount_value = token_int (pos pool2);
  };
  assets =
      insert (full_key p.base.caller asset2) (token_int (pos balance2))
        (insert (full_key p.base.caller asset1) (token_int (pos balance1)) p.assets);
}

pub supply-run :
    (i : ℤ) (p : Pool)
    → force_as_int p.base.storage.supply_value ≡ some i
    → super (Token.Host.get_int_current_contract_storage supply) p ≡ (ok i, p)
unfolding Token.Host.get_int_current_contract_storage
supply-run i p e = rw (e) refl

pub held-run :
    (addr : Bytes) (n : ℤ) (p p' : Pool)
    → Token.Contract.get_balance_of_user addr p.base ≡ n
    → p'.base.users_map ≡ p.base.users_map
    → gets (balance_of_token addr) p' ≡ (ok n, p')
unfolding balance_of_token Token.Contract.get_balance_of_user
held-run addr n p p' h e =
    ap
      (λ m. (ok (Token.Contract.amount_of (force_as_int (Token.Host.or_null (lookup addr m)))), p'))
      e
    ∙ ap (λ i. (ok i, p')) h

pub store_reserves-run :
    (a b s : ℤ) (p : Pool)
    → store_reserves a b s p ≡ (
      ok tt,
      record p {
        base = record p.base { storage = record p.base.storage { supply_value = token_int s } };
        storage = record p.storage {
          asset_1_pool_amount_value = token_int a;
          asset_2_pool_amount_value = token_int b;
        };
      },
    )
unfolding store_reserves ◌>>=◌ Token.Host.set_current_contract_storage
store_reserves-run a b s p = refl
