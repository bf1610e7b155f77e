-- ===== src/Uniswap/Removing.antt =====
-- `removeLiquidity` of src/native_contract/native_uniswap_contract.cpp where a part of the supply is given back.
use uvm.Base.{
  ℕ, ◌+◌, ◌-◌, ◌*◌, ◌^◌, ◌≤◌, ◌<◌, ◌≡◌, refl, sym, subst, ◌∙◌, arith, true, false, not, ◌||◌, [],
  ◌∷◌, ◌++◌,
}
use uvm.Base.Dict.{insert}
use uvm.Base.Int.{pos, ltb_ℤ}
use uvm.Cbor.Value.{Bytes}
use uvm.Token
use uvm.Token.Contract.{token_int}
use uvm.Safe.Word.{done}
use uvm.Uniswap.Host.{
  Pool, ok, full_key, fast_map_get, fast_map_set, asset_1_symbol, asset_2_symbol,
  asset_1_pool_amount, asset_2_pool_amount, liquidity_removed, liquidity_token_destoryed,
}
use uvm.Uniswap.Prices.{share_of}
use uvm.Uniswap.Pools.{wrap_add, wrap_sub}
use uvm.Uniswap.Parts.{share_of_lem}
use uvm.Uniswap.Runs.{
  gets-run, bind-run, pass-run, number-run, get_string-run, get_int-run, caller-run, emit-run,
}
use uvm.Uniswap.Reserves.{
  HasReserves, HasBalances, settled, supply-run, held-run, store_reserves-run,
}
use uvm.Uniswap.Liquidity.{eq_ℤ, is_integer, unified, remove_liquidity, removed_amounts, pay_back}

removed_amounts-run :
    (destroyed pool1 pool2 total r1 r2 : ℕ) (p : Pool)
    → destroyed < total
    → share_of (pos destroyed) (pos total) (pos pool1) ≡ done (pos r1)
    → share_of (pos destroyed) (pos total) (pos pool2) ≡ done (pos r2)
    → removed_amounts (pos destroyed) (pos pool1) (pos pool2) (pos total) p
      ≡ (ok (pos r1, pos r2), p)
unfolding removed_amounts
removed_amounts-run destroyed pool1 pool2 total r1 r2 p lt run1 run2 =
    let part : eq_ℤ (pos total) (pos destroyed) ≡ false = ground (arith, lt) in
    rw (part) (bind-run _ _ (number-run run1) (bind-run _ _ (number-run run2) refl))

-- The balance of the second asset becomes that of the first and its amount.
pay_back-run :
    (asset1 asset2 : Bytes) (amount1 amount2 balance1 balance2 held : ℕ) (p : Pool)
    → HasBalances p asset1 asset2 balance1 balance2 held
    → amount1 < 2 ^ 62
    → amount2 < 2 ^ 62
    → pay_back p.base.caller asset1 asset2 (pos amount1) (pos amount2) p ≡ (
      ok tt,
      record p {
        assets = insert (full_key p.base.caller asset2) (token_int (pos (balance1 + amount2))) (
            insert (full_key p.base.caller asset1) (token_int (pos (balance1 + amount1))) p.assets);
      },
    )
unfolding pay_back fast_map_set
pay_back-run asset1 asset2 amount1 amount2 balance1 balance2 held p h small1 small2 =
    let second : is_integer (fast_map_get p.base.caller asset2 p) ≡ true =
      rw (h.balance2_is, is_integer) refl in
    bind-run _ _ (gets-run (fast_map_get p.base.caller asset1) p) (
      bind-run _ _ (gets-run (fast_map_get p.base.caller asset2) p) (
        rw (h.balance1_is, second, wrap_add balance1 amount1 (omega (arith, h.room1)))
          (bind-run _ _ refl
            (bind-run _ _ refl (rw (wrap_add balance1 amount2 (omega (arith, h.room1))) refl)))))

-- Less than the whole pool is paid for less than the whole supply.
part-lt : (r s t p : ℕ) → r * s ≤ t * p → t < s → 0 < p → r < p
part-lt r s t p le lt pp = grind arith

share_of-part :
    (t s p r : ℕ)
    → 0 < t
    → t < s
    → 0 < p
    → s < 2 ^ 63
    → p ≤ 10 ^ 16
    → share_of (pos t) (pos s) (pos p) ≡ done (pos r)
    → (r * s ≤ t * p) × (r < p)
share_of-part t s p r pt lt pp hs hp run =
    let (r', run', le) = share_of_lem t s p pt lt pp hs hp in
    let e : r' ≡ r = done_pos (sym run' ∙ run) in
    let le' : r * s ≤ t * p = subst (λ n. n * s ≤ t * p) e le in (le', part-lt r s t p le' lt pp)
  where
    done_pos : {m n : ℕ} → done (pos m) ≡ done (pos n) → m ≡ n
    done_pos h = ground (arith, h)

module _ (p : Pool) (asset1 asset2 : Bytes)
    (destroyed min1 min2 pool1 pool2 total balance1 balance2 held amount1 amount2 : ℕ) where
  abbrev pub after_remove : Pool
  after_remove =
      let p' =
        settled p asset1 asset2 (pool1 - amount1) (pool2 - amount2) (total - destroyed)
          (balance1 + amount1) (balance1 + amount2) (held - destroyed) in
      record p' {
        events =
            (p.events ++ (liquidity_removed asset1 (pos amount1) asset2 (pos amount2) ∷ []))
            ++ (liquidity_token_destoryed (pos destroyed) ∷ []);
      }

  remove_liquidity-run :
      HasReserves p asset1 asset2 pool1 pool2 total
      → HasBalances p asset1 asset2 balance1 balance2 held
      → destroyed < total
      → destroyed ≤ held
      → min1 ≤ amount1
      → min2 ≤ amount2
      → amount1 < pool1
      → amount2 < pool2
      → share_of (pos destroyed) (pos total) (pos pool1) ≡ done (pos amount1)
      → share_of (pos destroyed) (pos total) (pos pool2) ≡ done (pos amount2)
      → remove_liquidity (pos destroyed) (pos min1) (pos min2) p ≡ (ok tt, after_remove)
  unfolding remove_liquidity Token.Host.current_fast_map_set
  remove_liquidity-run h b lt le fits1 fits2 below1 below2 run1 run2 =
      let has : ltb_ℤ (pos held) (pos destroyed) ≡ false = ground (arith, le) in
      let some_pools : not (ltb_ℤ (pos 0) (pos pool1))
            || not (ltb_ℤ (pos 0) (pos total))
            || not (ltb_ℤ (pos 0) (pos pool2))
          ≡ false =
        ground (arith, h.some1, h.some2, h.some_total) in
      let mins : ltb_ℤ (pos pool1) (pos min1) || ltb_ℤ (pos pool2) (pos min2) ≡ false =
        ground (arith, fits1, fits2, below1, below2) in
      let mins' : ltb_ℤ (pos amount1) (pos min1) || ltb_ℤ (pos amount2) (pos min2) ≡ false =
        ground (arith, fits1, fits2) in
      let same : not
            (unified (pos (pool1 - amount1)) (pos (pool2 - amount2)) (pos (total - destroyed)))
          ≡ false =
        ground (arith, below1, below2, lt) in
      bind-run _ _ (caller-run p) (
        bind-run _ _ (held-run p.base.caller (pos held) p p b.held_is refl) (
          bind-run _ _ (pass-run _ _ has) (
            bind-run _ _ (get_int-run asset_1_pool_amount (pos pool1) p h.pool1_is) (
              bind-run _ _ (get_int-run asset_2_pool_amount (pos pool2) p h.pool2_is) (
                bind-run _ _ (supply-run (pos total) p h.total_is) (
                  bind-run _ _ (pass-run _ _ some_pools) (
                    bind-run _ _ (pass-run _ _ mins) (
                      bind-run _ _
                        (removed_amounts-run destroyed pool1 pool2 total amount1 amount2 p lt run1
                          run2)
                        (bind-run _ _ (pass-run _ _ mins') (
                          bind-run _ _ (get_string-run asset_1_symbol asset1 p h.asset1_is) (
                            bind-run _ _ (get_string-run asset_2_symbol asset2 p h.asset2_is) (
                              bind-run _ _
                                (pay_back-run asset1 asset2 amount1 amount2 balance1 balance2 held p
                                  b (omega (arith, h.small1)) (omega (arith, h.small2)))
                                (rw
                                  (
                                    wrap_sub pool1 amount1 (omega arith) (omega (arith, h.small1)),
                                    wrap_sub pool2 amount2 (omega arith) (omega (arith, h.small2)),
                                    wrap_sub total destroyed (omega arith) (omega (arith, h.small)),
                                  )
                                  (bind-run _ _ (pass-run _ _ same) (
                                    bind-run _ _ (store_reserves-run _ _ _ _) (
                                      rw (wrap_sub held destroyed le (omega (arith, b.room))) (
                                        bind-run _ _ refl (
                                          bind-run _ _ (emit-run _ _)
                                            (emit-run _ _)))))))))))))))))))

  -- The state after removing liquidity for a part of the supply, more than 0 and less than all of it, that
  -- the caller holds: no more than that part is paid of either pool, and something is left in both. The
  -- integer that is stored as balance of the second asset is replaced by the balance of the first asset and
  -- what is paid of the second. It is for pools that are not empty and at most 4 * 10 ^ 15, a supply of at
  -- most 10 ^ 16, minima not above the amounts that share_of gives for the two pools, a non-negative
  -- integer stored as balance of the caller for both assets, and balances and tokens of the caller below 2
  -- ^ 62.
  pub remove_liquidity-ok :
      HasReserves p asset1 asset2 pool1 pool2 total
      → HasBalances p asset1 asset2 balance1 balance2 held
      → 0 < destroyed
      → destroyed < total
      → destroyed ≤ held
      → min1 ≤ amount1
      → min2 ≤ amount2
      → share_of (pos destroyed) (pos total) (pos pool1) ≡ done (pos amount1)
      → share_of (pos destroyed) (pos total) (pos pool2) ≡ done (pos amount2)
      → (remove_liquidity (pos destroyed) (pos min1) (pos min2) p ≡ (ok tt, after_remove))
        × (amount1 * total ≤ destroyed * pool1)
        × (amount2 * total ≤ destroyed * pool2)
        × (amount1 < pool1)
        × (amount2 < pool2)
  remove_liquidity-ok h b pd lt le fits1 fits2 run1 run2 =
      let (part1, below1) =
        share_of-part destroyed total pool1 amount1 pd lt h.some1 (omega (arith, h.small))
          (omega (arith, h.small1)) run1 in
      let (part2, below2) =
        share_of-part destroyed total pool2 amount2 pd lt h.some2 (omega (arith, h.small))
          (omega (arith, h.small2)) run2 in
      (
        remove_liquidity-run h b lt le fits1 fits2 below1 below2 run1 run2,
        part1,
        part2,
        below1,
        below2,
      )
