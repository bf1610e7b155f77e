-- ===== src/Uniswap/Orders.antt =====
-- `on_deposit_asset` of src/native_contract/native_uniswap_contract.cpp with an order to exchange what arrives.
use uvm.Base.{
  ℕ, ◌-◌, ◌*◌, ◌<◌, ◌≡◌, refl, ap, ◌∙◌, arith, Bool, true, false, not, ◌&&◌, some, List, [], ◌∷◌,
  leb,
}
use uvm.Base.Dict.{same, lookup}
use uvm.Base.Int.{ℤ, pos, ltb_ℤ}
use uvm.Cbor.Value.{Bytes}
use uvm.Token
use uvm.Token.Host.{as_string}
use uvm.Token.Contract.{common_state}
use uvm.Token.Numbers.{is_integral, stoll}
use uvm.Uniswap.Host.{Pool, Result, ok, asset_1_symbol, asset_2_symbol, ◌>>=◌}
use uvm.Uniswap.Contract.{require_not_expired, parse_integers, all_integral, stoll_all}
use uvm.Uniswap.Exchange.{Deposit, exchange, exchange_for, on_deposit_asset_api}
use uvm.Uniswap.Pools.{new_pool1, new_pool2, sold_to, bought_from, price}
use uvm.Uniswap.Selling.{HasPools, CanSell, after_sale, exchange-ok}
use uvm.Uniswap.Runs.{require_common-run, parse_args-run, bind-run, pass-run, get_string-run}

module _ (split : Bytes → List Bytes) (trim strtod_rest : Bytes → Bytes)
    (fc_to_int64 : Bytes → Token.Host.Result ℤ) where
  -- Two texts of integers
  parse_integers-run :
      (text1 text2 : Bytes) (n1 n2 : ℤ) (p : Pool)
      → is_integral strtod_rest text1 ≡ true
      → is_integral strtod_rest text2 ≡ true
      → stoll text1 ≡ Token.Host.ok n1
      → stoll text2 ≡ Token.Host.ok n2
      → parse_integers split trim strtod_rest fc_to_int64 (text1 ∷ text2 ∷ []) p
        ≡ (ok (n1 ∷ n2 ∷ []), p)
  unfolding parse_integers all_integral stoll_all ◌>>=◌
  parse_integers-run text1 text2 n1 n2 p i1 i2 e1 e2 =
      let integral : not (all_integral split trim strtod_rest fc_to_int64 (text1 ∷ text2 ∷ []))
          ≡ false =
        rw (i1, i2) refl in
      let numbers : stoll_all (text1 ∷ text2 ∷ []) ≡ Token.Host.ok (n1 ∷ n2 ∷ []) =
        rw (e1, stoll_all) (rw (e2, stoll_all) refl) in
      rw (integral, numbers) refl

not_expired-run : (n : ℕ) (p : Pool) → p.head_block < n → require_not_expired (pos n) p ≡ (ok tt, p)
unfolding require_not_expired
not_expired-run n p lt =
    let later : leb n p.head_block ≡ false = ground (arith, lt) in rw (later) refl

positive : (n : ℕ) → 0 < n → not (ltb_ℤ (pos 0) (pos n)) ≡ false
positive n p = ground (arith, p)

-- An order to sell one asset of the pool for the other, as the host passes it on.
pub record IsOrder (p : Pool) (symbol want_symbol asset1 asset2 : Bytes) (amount want block : ℕ)
    : Type 0 where
  pub common : as_string p.base.storage.state_value ≡ some common_state
  pub asset2_is : as_string p.storage.asset_2_symbol_value ≡ some asset2
  pub sold : not (same symbol asset1) && not (same symbol asset2) ≡ false
  pub bought : not (same want_symbol asset1) && not (same want_symbol asset2) ≡ false
  pub two_assets : same want_symbol symbol ≡ false
  pub some_amount : 0 < amount
  pub some_want : 0 < want
  pub some_block : 0 < block
  pub in_time : p.head_block < block

module _ (split : Bytes → List Bytes) (trim strtod_rest : Bytes → Bytes)
    (fc_to_int64 : Bytes → Token.Host.Result ℤ) (from_json : Bytes → Result Deposit) where
  exchange_for-run :
      (amount want block : ℕ) (symbol want_symbol asset1 asset2 param want_text block_text : Bytes)
      (p : Pool)
      → IsOrder p symbol want_symbol asset1 asset2 amount want block
      → split param ≡ want_symbol ∷ want_text ∷ block_text ∷ []
      → is_integral strtod_rest want_text ≡ true
      → is_integral strtod_rest block_text ≡ true
      → stoll want_text ≡ Token.Host.ok (pos want)
      → stoll block_text ≡ Token.Host.ok (pos block)
      → exchange_for split trim strtod_rest fc_to_int64 (pos amount) symbol param asset1 asset2 p
        ≡ exchange (pos amount) symbol want_symbol (pos want) p
  unfolding exchange_for
  exchange_for-run amount want block symbol want_symbol asset1 asset2 param want_text block_text p o
        args i1 i2 e1 e2 =
      bind-run _ _ (parse_args-run split trim strtod_rest fc_to_int64 3 param _ p args refl) (
        bind-run _ _
          (parse_integers-run split trim strtod_rest fc_to_int64 want_text block_text (pos want)
            (pos block) p i1 i2 e1 e2)
          (bind-run _ _ (pass-run _ _ (positive want o.some_want)) (
            bind-run _ _ (pass-run _ _ (positive block o.some_block)) (
              bind-run _ _ (not_expired-run block p o.in_time) (
                bind-run _ _ (pass-run _ _ o.bought)
                  (bind-run _ _ (pass-run _ _ o.two_assets) refl))))))

  on_deposit_asset_api-run :
      (amount want block : ℕ)
      (symbol want_symbol asset1 asset2 api_args param want_text block_text : Bytes) (p : Pool)
      → IsOrder p symbol want_symbol asset1 asset2 amount want block
      → as_string p.storage.asset_1_symbol_value ≡ some asset1
      → from_json api_args ≡ ok (record { num = pos amount; symbol = symbol; param = param })
      → same param [] ≡ false
      → split param ≡ want_symbol ∷ want_text ∷ block_text ∷ []
      → is_integral strtod_rest want_text ≡ true
      → is_integral strtod_rest block_text ≡ true
      → stoll want_text ≡ Token.Host.ok (pos want)
      → stoll block_text ≡ Token.Host.ok (pos block)
      → on_deposit_asset_api split trim strtod_rest fc_to_int64 from_json api_args p
        ≡ exchange (pos amount) symbol want_symbol (pos want) p
  unfolding on_deposit_asset_api
  on_deposit_asset_api-run amount want block symbol want_symbol asset1 asset2 api_args param
        want_text block_text p o asset1_is json some_param args i1 i2 e1 e2 =
      bind-run _ _ (require_common-run p o.common) (
        bind-run _ _ (ap {B = Result Deposit × Pool} (λ r. (r, p)) json) (
          bind-run _ _ (pass-run _ _ (positive amount o.some_amount)) (
            bind-run _ _ (get_string-run asset_1_symbol asset1 p asset1_is) (
              bind-run _ _ (get_string-run asset_2_symbol asset2 p o.asset2_is) (
                bind-run _ _ (pass-run _ _ o.sold) (
                  rw (some_param) (
                    exchange_for-run amount want block symbol want_symbol asset1 asset2 param
                      want_text block_text p o args i1 i2 e1 e2)))))))

  -- A deposit that orders an exchange, of either asset for the other, in time, with texts that read as the amount
  -- wanted and the last block, on pools and for an amount of at most 10 ^ 16, with a fee that leaves something and a price of at
  -- least what is wanted: it returns, the pool that is sold to gains the whole amount and the other loses the price of
  -- the amount without its fee, the host is told to pay that price to the caller, and the product of the pools grows.
  pub on_deposit_asset_api-ok :
      (first : Bool) (amount fee want block pool1 pool2 id : ℕ)
      (symbol want_symbol asset1 asset2 rate api_args param want_text block_text : Bytes) (p : Pool)
      → IsOrder p symbol want_symbol asset1 asset2 amount want block
      → from_json api_args ≡ ok (record { num = pos amount; symbol = symbol; param = param })
      → same param [] ≡ false
      → split param ≡ want_symbol ∷ want_text ∷ block_text ∷ []
      → is_integral strtod_rest want_text ≡ true
      → is_integral strtod_rest block_text ≡ true
      → stoll want_text ≡ Token.Host.ok (pos want)
      → stoll block_text ≡ Token.Host.ok (pos block)
      → HasPools p asset1 rate pool1 pool2
      → CanSell amount fee
          (sold_to first pool1 pool2)
          (bought_from first pool1 pool2)
          (pos want)
          rate
      → lookup want_symbol p.asset_ids ≡ some id
      → same symbol asset1 ≡ first
      → (on_deposit_asset_api split trim strtod_rest fc_to_int64 from_json api_args p ≡ (
        ok tt,
        after_sale p
            (new_pool1 first pool1 amount
              (price (amount - fee) (sold_to first pool1 pool2) (bought_from first pool1 pool2)))
            (new_pool2 first pool2 amount
              (price (amount - fee) (sold_to first pool1 pool2) (bought_from first pool1 pool2)))
            id
            symbol
            amount
            fee
            want_symbol
            (price (amount - fee) (sold_to first pool1 pool2) (bought_from first pool1 pool2)),
      ))
        × (pool1 * pool2
            < new_pool1 first pool1 amount
                (price (amount - fee) (sold_to first pool1 pool2) (bought_from first pool1 pool2))
              * new_pool2 first pool2 amount (
                  price (amount - fee) (sold_to first pool1 pool2) (bought_from first pool1 pool2)))
  on_deposit_asset_api-ok first amount fee want block pool1 pool2 id symbol want_symbol asset1
        asset2 rate api_args param want_text block_text p o json some_param args i1 i2 e1 e2 h c
        id_is which =
      let (run, grown) =
        exchange-ok first amount fee pool1 pool2 id symbol want_symbol asset1 rate (pos want) p h c
          id_is which in
      (
        on_deposit_asset_api-run amount want block symbol want_symbol asset1 asset2 api_args param
              want_text block_text p o h.asset1_is json some_param args i1 i2 e1 e2
            ∙ run,
        grown,
      )
