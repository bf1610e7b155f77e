-- ===== src/Uniswap/Adding.antt =====
-- `addLiquidity` of src/native_contract/native_uniswap_contract.cpp on pools that are not empty.
use uvm.Base.{
  ℕ, ◌+◌, ◌-◌, ◌*◌, ◌/◌, ◌^◌, ◌≤◌, ◌<◌, ◌≡◌, refl, arith, true, false, not, ◌&&◌, ◌||◌, some, [],
  ◌∷◌, ◌++◌,
}
use native.Mathlib.Nat.{div-mul-le_self, mul-le-mul}
use uvm.Base.Dict.{insert}
use uvm.Base.Int.{pos, ltb_ℤ}
use uvm.Cbor.Value.{Bytes}
use uvm.Token
use uvm.Token.Contract.{token_int}
use uvm.Token.Host.{number, as_string, supply}
use uvm.Safe.Word.{done}
use uvm.Uniswap.Host.{
  Pool, ok, full_key, fast_map_set, asset_1_symbol, asset_2_symbol, asset_1_pool_amount,
  asset_2_pool_amount, liquidity_added, liquidity_token_minted, transfer, ◌>>=◌,
}
use uvm.Uniswap.Prices.{asset2_for, tokens_for}
use uvm.Uniswap.Pools.{wrap_add, wrap_sub}
use uvm.Uniswap.Rates.{asset2_for_lem, tokens_for_lem}
use uvm.Uniswap.Rounding.{asset2_for-ceiling, ceiling-bounds}
use uvm.Uniswap.Runs.{
  balance-run, bind-run, pass-run, get_string-run, get_int-run, caller-run, emit-run,
}
use uvm.Uniswap.Liquidity.{
  is_zero, max_asset_amount, add_liquidity, needed_asset2, new_tokens, pay_in,
}
use uvm.Uniswap.Reserves.{
  HasReserves, HasBalances, settled, supply-run, held-run, store_reserves-run,
}

pay_in-run :
    (asset1 asset2 : Bytes) (amount1 amount2 balance1 balance2 held : ℕ) (p : Pool)
    → HasBalances p asset1 asset2 balance1 balance2 held
    → amount1 ≤ balance1
    → amount2 ≤ balance2
    → pay_in p.base.caller asset1 asset2 (pos amount1) (pos amount2) p ≡ (
      ok tt,
      record p {
        assets = insert (full_key p.base.caller asset2) (token_int (pos (balance2 - amount2))) (
            insert (full_key p.base.caller asset1) (token_int (pos (balance1 - amount1))) p.assets);
      },
    )
unfolding pay_in fast_map_set
pay_in-run asset1 asset2 amount1 amount2 balance1 balance2 held p h le1 le2 =
    let enough : ltb_ℤ (pos balance1) (pos amount1) || ltb_ℤ (pos balance2) (pos amount2) ≡ false =
      ground (arith, le1, le2) in
    bind-run _ _ (balance-run _ _ _ p h.balance1_is) (
      bind-run _ _ (balance-run _ _ _ p h.balance2_is) (
        bind-run _ _ (pass-run _ _ enough) (
          rw
            (
              wrap_sub balance1 amount1 le1 (omega (arith, h.room1)),
              wrap_sub balance2 amount2 le2 (omega (arith, h.room2)),
            )
            (bind-run _ _ refl refl))))

needed_asset2-run :
    (x max2 a b r : ℕ) (p : Pool)
    → 0 < a
    → 0 < b
    → asset2_for (pos x) (pos b) (pos a) ≡ done (pos r)
    → r ≤ max2
    → needed_asset2 (pos x) (pos max2) (pos a) (pos b) p ≡ (ok (pos r), p)
unfolding needed_asset2 ◌>>=◌
needed_asset2-run x max2 a b r p pa pb run le =
    let some_pools : not (is_zero (pos a)) && not (is_zero (pos b)) ≡ true =
      ground (arith, pa, pb) in
    let fits : ltb_ℤ (pos max2) (pos r) ≡ false = ground (arith, le) in
    rw (some_pools, run, fits) refl

new_tokens-run :
    (x a b s t : ℕ) (p : Pool)
    → 0 < a
    → 0 < b
    → 0 < s
    → tokens_for (pos x) (pos s) (pos a) ≡ done (pos t)
    → new_tokens (pos x) (pos a) (pos b) (pos s) p ≡ (ok (pos t), p)
unfolding new_tokens
new_tokens-run x a b s t p pa pb ps run =
    let some_pools : not (is_zero (pos a)) && not (is_zero (pos b)) && not (is_zero (pos s))
        ≡ true =
      ground (arith, pa, pb, ps) in
    let not_empty : is_zero (pos a) && is_zero (pos b) && is_zero (pos s) ≡ false =
      ground (arith, pa) in
    rw (some_pools, not_empty, run) refl

module _ (p : Pool) (asset1 asset2 : Bytes)
    (x max2 pool1 pool2 total balance1 balance2 held amount2 minted : ℕ) where
  -- The state after an addition.
  abbrev pub after_add : Pool
  after_add =
      let p' =
        settled p asset1 asset2 (pool1 + x) (pool2 + amount2) (total + minted) (balance1 - x)
          (balance2 - amount2) (held + minted) in
      record p' {
        base = record p'.base { api_result = some (number (pos minted)) };
        events =
            ((p.events ++ (liquidity_added asset1 (pos x) asset2 (pos amount2) ∷ []))
              ++ (liquidity_token_minted (pos minted) ∷ []))
            ++ (transfer [] p.base.caller (pos minted) ∷ []);
      }

  add_liquidity-run :
      HasReserves p asset1 asset2 pool1 pool2 total
      → HasBalances p asset1 asset2 balance1 balance2 held
      → pool1 + x ≤ 4 * 10 ^ 15
      → x ≤ balance1
      → amount2 ≤ max2
      → amount2 ≤ balance2
      → 0 < minted
      → minted < 2 ^ 62
      → asset2_for (pos x) (pos pool2) (pos pool1) ≡ done (pos amount2)
      → tokens_for (pos x) (pos total) (pos pool1) ≡ done (pos minted)
      → add_liquidity (pos x) (pos max2) p ≡ (ok tt, after_add)
  unfolding add_liquidity Token.Host.set_api_result Token.Host.current_fast_map_set
  add_liquidity-run h b room le1 le2 enough some_minted minted_room run2 run_t =
      let in_bounds : ltb_ℤ max_asset_amount (pos (pool1 + x)) ≡ false = ground arith in
      let positive : not (ltb_ℤ (pos 0) (pos minted)) ≡ false = ground (arith, some_minted) in
      bind-run _ _ (get_int-run asset_1_pool_amount (pos pool1) p h.pool1_is) (
        bind-run _ _ (get_int-run asset_2_pool_amount (pos pool2) p h.pool2_is) (
          bind-run _ _ (needed_asset2-run x max2 pool1 pool2 amount2 p h.some1 h.some2 run2 le2) (
            bind-run _ _ (caller-run p) (
              bind-run _ _ (get_string-run asset_1_symbol asset1 p h.asset1_is) (
                bind-run _ _ (get_string-run asset_2_symbol asset2 p h.asset2_is) (
                  bind-run _ _
                    (pay_in-run asset1 asset2 x amount2 balance1 balance2 held p b le1 enough)
                    (bind-run _ _ (supply-run (pos total) _ h.total_is) (
                      bind-run _ _
                        (new_tokens-run x pool1 pool2 total minted _ h.some1 h.some2 h.some_total
                          run_t)
                        (bind-run _ _ (pass-run _ _ positive) (
                          rw
                            (
                              wrap_add pool1 x (omega arith),
                              wrap_add pool2 amount2 (omega (arith, h.small2, b.room2)),
                              wrap_add total minted (omega (arith, h.small)),
                            )
                            (bind-run _ _ (pass-run _ _ in_bounds) (
                              bind-run _ _ (store_reserves-run _ _ _ _) (
                                bind-run _ _ (held-run p.base.caller (pos held) p _ b.held_is refl)
                                  (rw (wrap_add held minted (omega (arith, b.room))) (
                                    bind-run _ _ refl (
                                      bind-run _ _ (emit-run _ _) (
                                        bind-run _ _ (emit-run _ _)
                                          (bind-run _ _ refl (emit-run _ _)))))))))))))))))))

-- An addition returns, with the proportion of the second asset rounded down or up.
pub add_liquidity-returns :
    (p : Pool) (asset1 asset2 : Bytes) (x max2 pool1 pool2 total balance1 balance2 held : ℕ)
    → HasReserves p asset1 asset2 pool1 pool2 total
    → HasBalances p asset1 asset2 balance1 balance2 held
    → 0 < x
    → pool1 + x ≤ 4 * 10 ^ 15
    → x ≤ balance1
    → x * pool2 / pool1 < max2
    → max2 ≤ balance2
    → 0 < x * total / pool1
    → x * total / pool1 < 2 ^ 62
    → (amount2 : ℕ) × (add_liquidity (pos x) (pos max2) p ≡ (
      ok tt,
      after_add p asset1 asset2 x max2 pool1 pool2 total balance1 balance2 held amount2
          (x * total / pool1),
    ))
add_liquidity-returns p asset1 asset2 x max2 pool1 pool2 total balance1 balance2 held h b px room
      le1 le2 enough some_minted minted_room =
    let product : x * pool2 ≤ 10 ^ 16 * 10 ^ 16 =
      mul-le-mul {n₁ = x} {m₁ = pool2} {n₂ = 10 ^ 16} {m₂ = 10 ^ 16} (omega arith)
        (omega (arith, h.small2)) in
    let product' : x * total ≤ 10 ^ 16 * 10 ^ 16 =
      mul-le-mul {n₁ = x} {m₁ = total} {n₂ = 10 ^ 16} {m₂ = 10 ^ 16} (omega arith) h.small in
    let (amount2, run2, low, high) =
      asset2_for_lem x pool2 pool1 px h.some2 h.some1 (omega arith) (omega (arith, h.small2))
        (omega (arith, h.small1)) (omega (arith, product)) (omega (arith, b.room2)) in
    let run_t =
      tokens_for_lem x total pool1 px h.some_total h.some1 (omega arith) (omega (arith, h.small))
        (omega (arith, h.small1)) (omega (arith, product')) minted_room in
    (
      amount2,
      add_liquidity-run p asset1 asset2 x max2 pool1 pool2 total balance1 balance2 held amount2
          (x * total / pool1) h b room le1 (omega arith) (omega arith) some_minted minted_room run2
          run_t,
    )

-- The state after adding an amount x > 0 of the first asset: the caller pays x of the first asset and x *
-- pool2 / pool1, rounded up, of the second, and gets x * supply / pool1 tokens, rounded down; so it pays no
-- less than its proportion of the second asset and gets no more than its share of the supply. It is for
-- pools that are not empty and, the first one also after the addition, at most 4 * 10 ^ 15, a supply above
-- 0 and at most 10 ^ 16, a caller who has at least x of the first asset and max2 of the second stored,
-- balances and tokens of the caller below 2 ^ 62, x * pool2 / pool1 below max2 and below 10 ^ 16, and at
-- least 1 and fewer than 2 ^ 62 tokens.
pub add_liquidity-ok :
    (p : Pool) (asset1 asset2 : Bytes) (x max2 pool1 pool2 total balance1 balance2 held : ℕ)
    → HasReserves p asset1 asset2 pool1 pool2 total
    → HasBalances p asset1 asset2 balance1 balance2 held
    → 0 < x
    → pool1 + x ≤ 4 * 10 ^ 15
    → x ≤ balance1
    → x * pool2 / pool1 < max2
    → x * pool2 / pool1 < 10 ^ 16
    → max2 ≤ balance2
    → 0 < x * total / pool1
    → x * total / pool1 < 2 ^ 62
    → (add_liquidity (pos x) (pos max2) p ≡ (
      ok tt,
      after_add p asset1 asset2 x max2 pool1 pool2 total balance1 balance2 held
          ((x * pool2 + (pool1 - 1)) / pool1)
          (x * total / pool1),
    ))
      × (x * total / pool1 * pool1 ≤ x * total)
      × (x * pool2 ≤ (x * pool2 + (pool1 - 1)) / pool1 * pool1)
add_liquidity-ok p asset1 asset2 x max2 pool1 pool2 total balance1 balance2 held h b px room le1 le2
      small2 enough some_minted minted_room =
    let product : x * pool2 ≤ 10 ^ 16 * 10 ^ 16 =
      mul-le-mul {n₁ = x} {m₁ = pool2} {n₂ = 10 ^ 16} {m₂ = 10 ^ 16} (omega arith)
        (omega (arith, h.small2)) in
    let product' : x * total ≤ 10 ^ 16 * 10 ^ 16 =
      mul-le-mul {n₁ = x} {m₁ = total} {n₂ = 10 ^ 16} {m₂ = 10 ^ 16} (omega arith) h.small in
    let (above, below) = ceiling-bounds (x * pool2) pool1 h.some1 in
    let run2 =
      asset2_for-ceiling x pool2 pool1 px h.some2 h.some1 (omega arith) (omega (arith, h.small2))
        (omega (arith, h.small1)) (omega (arith, product)) small2 in
    let run_t =
      tokens_for_lem x total pool1 px h.some_total h.some1 (omega arith) (omega (arith, h.small))
        (omega (arith, h.small1)) (omega (arith, product')) minted_room in
    (
      add_liquidity-run p asset1 asset2 x max2 pool1 pool2 total balance1 balance2 held _
          (x * total / pool1) h b room le1 (omega arith) (omega arith) some_minted minted_room run2
          run_t,
      div-mul-le_self (x * total) pool1,
      above,
    )
