-- ===== src/Uniswap/Selling.antt =====
-- An exchange of src/native_contract/native_uniswap_contract.cpp never lowers the product of the two pools.
use uvm.Base.{
  ℕ, ◌+◌, ◌-◌, ◌*◌, ◌^◌, ◌≤◌, ◌<◌, ◌≡◌, refl, arith, Bool, true, false, not, ◌||◌, some, [], ◌∷◌,
  ◌++◌,
}
use native.Mathlib.Nat.{mul-le-mul}
use uvm.Base.Dict.{lookup, same}
use uvm.Base.Int.{ℤ, pos, ◌≤ℤ◌, ◌-ℤ◌, ltb_ℤ}
use uvm.Cbor.Value.{Bytes, force_as_int}
use uvm.Token
use uvm.Token.Contract.{token_int}
use uvm.Token.Numbers.{wrap64}
use uvm.Token.Host.{number, as_string}
use uvm.Safe.Word.{done}
use uvm.Uniswap.Host.{
  ◌>>=◌, Pool, ok, asset_1_symbol, asset_1_pool_amount, asset_2_pool_amount, exchanged, changed,
  fee_rate,
}
use uvm.Uniswap.Prices.{fee_on}
use uvm.Uniswap.Rates.{get_input_price_lem}
use uvm.Uniswap.Runs.{
  bind-run, pass-run, number-run, get_string-run, get_int-run, caller-run, transfer-run, emit-run,
}
use uvm.Uniswap.Pools.{
  price, price-lt, product-lt, wrap_add, wrap_sub, new_pool1, new_pool2, sold_to, bought_from,
  sold_to-pos, sold_to-small, pool_in-pos, pool_out-pos, new_pools-product,
}
use uvm.Uniswap.Exchange.{exchange, bought_amount, fee_of, store_sale}

bought_amount-ok :
    (x a b : ℕ) (want : ℤ) (p : Pool)
    → 0 < x
    → 0 < a
    → 0 < b
    → x ≤ 10 ^ 16
    → a ≤ 10 ^ 16
    → b ≤ 10 ^ 16
    → want ≤ℤ pos (price x a b)
    → 0 < price x a b
    → bought_amount (pos x) want (pos a) (pos b) p ≡ (ok (pos (price x a b)), p)
unfolding bought_amount ◌>>=◌
bought_amount-ok x a b want p px pa pb hx ha hb fits some_price =
    let product : x * b ≤ 10 ^ 16 * 10 ^ 16 =
      mul-le-mul {n₁ = x} {m₁ = b} {n₂ = 10 ^ 16} {m₂ = 10 ^ 16} hx hb in
    let run =
      get_input_price_lem x a b px pa pb (omega arith) (omega arith) (omega arith)
        (omega (arith, product)) in
    let below = price-lt x a b pa pb in
    let enough : ltb_ℤ want (pos b) ≡ true = ground (arith, fits, below) in
    let wanted : ltb_ℤ (pos (price x a b)) want ≡ false = ground (arith, fits) in
    let some_bought : ltb_ℤ (pos 0) (pos (price x a b)) ≡ true = ground (arith, some_price) in
    rw (enough, run, some_bought, wanted, bought_amount) refl

-- The pools of a contract, the name of its first asset and its fee rate.
pub record HasPools (p : Pool) (asset1 rate : Bytes) (pool1 pool2 : ℕ) : Type 0 where
  pub asset1_is : as_string p.storage.asset_1_symbol_value ≡ some asset1
  pub pool1_is : force_as_int p.storage.asset_1_pool_amount_value ≡ some (pos pool1)
  pub pool2_is : force_as_int p.storage.asset_2_pool_amount_value ≡ some (pos pool2)
  pub rate_is : as_string p.storage.fee_rate_value ≡ some rate
  pub some1 : 0 < pool1
  pub some2 : 0 < pool2
  pub small1 : pool1 ≤ 10 ^ 16
  pub small2 : pool2 ≤ 10 ^ 16

-- The state after a sale: the pools, what the host owes and is told, and the result.
abbrev pub after_sale : Pool → ℕ → ℕ → ℕ → Bytes → ℕ → ℕ → Bytes → ℕ → Pool
after_sale p q1 q2 id symbol amount fee want_symbol bought = record p {
  base = record p.base { api_result = some (number (pos bought)) };
  storage = record p.storage {
    asset_1_pool_amount_value = token_int (pos q1);
    asset_2_pool_amount_value = token_int (pos q2);
  };
  events =
      p.events
      ++ (exchanged p.base.caller (pos fee) symbol (pos amount) want_symbol (pos bought) ∷ []);
  balance_changes = changed p.contract_address p.base.caller id (pos bought) p.balance_changes;
}

-- What a sale from one pool to the other needs.
pub record CanSell (amount fee a b : ℕ) (want : ℤ) (rate : Bytes) : Type 0 where
  pub fee_is : fee_on (pos amount) rate ≡ done (pos fee)
  pub left : fee < amount
  pub small : amount ≤ 10 ^ 16
  pub met : want ≤ℤ pos (price (amount - fee) a b)
  pub some_price : 0 < price (amount - fee) a b

fee_of-run :
    (amount fee : ℕ) (rate : Bytes) (p : Pool)
    → as_string p.storage.fee_rate_value ≡ some rate
    → fee_on (pos amount) rate ≡ done (pos fee)
    → fee < amount
    → fee_of (pos amount) p ≡ (ok (pos fee), p)
unfolding fee_of
fee_of-run amount fee rate p rate_is fee_is left =
    let some_left : not (ltb_ℤ (pos fee) (pos amount)) ≡ false = ground (arith, left) in
    bind-run _ _ (get_string-run fee_rate rate p rate_is)
      (bind-run _ _ (number-run fee_is) (bind-run _ _ (pass-run _ _ some_left) refl))

fee_on-pos : (amount : ℤ) (fee : ℕ) (rate : Bytes) → fee_on amount rate ≡ done (pos fee) → 0 < fee
unfolding fee_on
fee_on-pos amount fee rate h = ground (arith, h)

store_sale-run :
    (first : Bool) (amount bought pool1 pool2 : ℕ) (p : Pool)
    → 0 < sold_to first pool1 pool2
    → bought < bought_from first pool1 pool2
    → amount ≤ 10 ^ 16
    → pool1 ≤ 10 ^ 16
    → pool2 ≤ 10 ^ 16
    → store_sale first (pos amount) (pos bought) (pos pool1) (pos pool2) p ≡ (
      ok tt,
      record p {
        storage = record p.storage {
          asset_1_pool_amount_value = token_int (pos (new_pool1 first pool1 amount bought));
          asset_2_pool_amount_value = token_int (pos (new_pool2 first pool2 amount bought));
        };
      },
    )
unfolding store_sale ◌>>=◌
store_sale-run true amount bought a b p pa below hx ha hb =
    let still : not (ltb_ℤ (pos 0) (pos (a + amount))) || not (ltb_ℤ (pos 0) (pos (b - bought)))
        ≡ false =
      ground (arith, pa, below) in
    rw (wrap_add a amount (omega arith), wrap_sub b bought (omega arith) (omega arith), still) refl
store_sale-run false amount bought a b p pb below hx ha hb =
    let still : not (ltb_ℤ (pos 0) (pos (a - bought))) || not (ltb_ℤ (pos 0) (pos (b + amount)))
        ≡ false =
      ground (arith, pb, below) in
    rw (wrap_sub a bought (omega arith) (omega arith), wrap_add b amount (omega arith), still) refl

module _ (first : Bool) (amount fee pool1 pool2 id : ℕ) (symbol want_symbol asset1 rate : Bytes)
    (want : ℤ) (p : Pool) where
  -- The amount bought.
  abbrev bought : ℕ
  bought = price (amount - fee) (sold_to first pool1 pool2) (bought_from first pool1 pool2)

  exchange-run :
      HasPools p asset1 rate pool1 pool2
      → CanSell amount fee (sold_to first pool1 pool2) (bought_from first pool1 pool2) want rate
      → lookup want_symbol p.asset_ids ≡ some id
      → same symbol asset1 ≡ first
      → exchange (pos amount) symbol want_symbol want p ≡ (
        ok tt,
        after_sale p
            (new_pool1 first pool1 amount bought)
            (new_pool2 first pool2 amount bought)
            id
            symbol
            amount
            fee
            want_symbol
            bought,
      )
  unfolding exchange Token.Host.set_api_result
  exchange-run h c id_is which =
      let (pa, pb) = sold_to-pos first pool1 pool2 h.some1 h.some2 in
      let (ha, hb) = sold_to-small first pool1 pool2 (10 ^ 16) h.small1 h.small2 in
      let sold : wrap64 (pos amount -ℤ pos fee) ≡ pos (amount - fee) =
        wrap_sub amount fee (omega (arith, c.left)) (omega (arith, c.small)) in
      let buy =
        bought_amount-ok (amount - fee) _ _ want p (omega (arith, c.left)) pa pb
          (omega (arith, c.small)) ha hb c.met c.some_price in
      let some_pools : not (ltb_ℤ (pos 0) (pos pool1)) || not (ltb_ℤ (pos 0) (pos pool2)) ≡ false =
        ground (arith, h.some1, h.some2) in
      let stored =
        store_sale-run first amount bought pool1 pool2 p pa (price-lt _ _ _ pa pb) c.small h.small1
          h.small2 in
      bind-run _ _ (caller-run p) (
        bind-run _ _ (get_string-run asset_1_symbol asset1 p h.asset1_is) (
          bind-run _ _ (get_int-run asset_1_pool_amount (pos pool1) p h.pool1_is) (
            bind-run _ _ (get_int-run asset_2_pool_amount (pos pool2) p h.pool2_is) (
              bind-run _ _ (pass-run _ _ some_pools) (
                bind-run _ _ (fee_of-run amount fee rate p h.rate_is c.fee_is c.left) (
                  rw (which, sold, pool_in-pos first pool1 pool2, pool_out-pos first pool1 pool2)
                    (bind-run _ _ buy (
                      bind-run _ _ stored (
                        bind-run _ _
                          (transfer-run p.base.caller want_symbol id (pos bought) _ id_is)
                          (bind-run _ _ (emit-run _ _) refl))))))))))

  -- An exchange of an asset for the other, with pools and an amount of at most 10 ^ 16, a fee that
  -- leaves something, and a price of at least what is wanted and more than 0: it returns, the pool that is
  -- sold to gains the whole amount and the other loses the price of the amount without its fee, the host
  -- is told to pay that price to the caller, and the product of the pools grows.
  pub exchange-ok :
      HasPools p asset1 rate pool1 pool2
      → CanSell amount fee (sold_to first pool1 pool2) (bought_from first pool1 pool2) want rate
      → lookup want_symbol p.asset_ids ≡ some id
      → same symbol asset1 ≡ first
      → (exchange (pos amount) symbol want_symbol want p ≡ (
        ok tt,
        after_sale p
            (new_pool1 first pool1 amount bought)
            (new_pool2 first pool2 amount bought)
            id
            symbol
            amount
            fee
            want_symbol
            bought,
      ))
        × (pool1 * pool2
            < new_pool1 first pool1 amount bought * new_pool2 first pool2 amount bought)
  exchange-ok h c id_is which =
      let (pa, pb) = sold_to-pos first pool1 pool2 h.some1 h.some2 in
      (
        exchange-run h c id_is which,
        new_pools-product first pool1 pool2 amount bought (
            product-lt amount fee (sold_to first pool1 pool2) (bought_from first pool1 pool2)
              (fee_on-pos (pos amount) fee rate c.fee_is) c.left pa pb),
      )
