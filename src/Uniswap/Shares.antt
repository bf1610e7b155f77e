-- ===== src/Uniswap/Shares.antt =====
-- The tokens of src/native_contract/native_uniswap_contract.cpp against their supply, over additions and
-- removals of liquidity.
use uvm.Base.{ℕ, ◌+◌, ◌-◌, ◌*◌, ◌/◌, ◌^◌, ◌≤◌, ◌<◌, ◌≡◌, refl, ◌∙◌, arith, inr, some}
use uvm.Base.Dict.{insert}
use uvm.Base.Int.{ℤ, pos, ◌+ℤ◌, parts, int_laws}
use uvm.Cbor.Value.{Bytes, CborObject, scalar, string, force_as_int}
use uvm.Token
use uvm.Token.Contract.{token_int, common_state}
use uvm.Token.Balances.{total, balance, value-token_int, total-insert, insert-IsLedger}
use uvm.Token.Supply.{IsSound}
use uvm.Safe.Word.{done}
use uvm.Uniswap.Host.{Pool, ok}
use uvm.Uniswap.Prices.{share_of}
use uvm.Uniswap.Adding.{after_add, add_liquidity-returns}
use uvm.Uniswap.Reserves.{HasReserves, HasBalances}
use uvm.Uniswap.Removing.{after_remove, remove_liquidity-ok}
use uvm.Uniswap.Liquidity.{add_liquidity, remove_liquidity}

read-token_int : (v : CborObject) (m n : ℤ) → v ≡ token_int m → force_as_int v ≡ some n → m ≡ n
unfolding force_as_int
read-token_int v m n e h = ground (arith, e, h)

new_total :
    (t' b t v : ℤ) (n n' held held' : ℕ)
    → t' +ℤ b ≡ t +ℤ v
    → t ≡ pos n
    → b ≡ pos held
    → v ≡ pos held'
    → n' + held ≡ n + held'
    → t' ≡ pos n'
new_total t' b t v n n' held held' e et eb ev same =
    omega (int_laws, parts e, parts et, parts eb, parts ev, same)

-- The supply and the tokens of one user change by the same number.
resupplied-IsSound :
    (h : Token.Host.Host) (addr : Bytes) (n n' held held' : ℕ)
    → IsSound h
    → force_as_int h.storage.supply_value ≡ some (pos n)
    → h.storage.state_value ≡ scalar (string common_state)
    → Token.Contract.get_balance_of_user addr h ≡ pos held
    → n' + held ≡ n + held'
    → n' < 2 ^ 63
    → IsSound (record h {
      storage = record h.storage { supply_value = token_int (pos n') };
      users_map = insert addr (token_int (pos held')) h.users_map;
    })
unfolding balance Token.Contract.get_balance_of_user
resupplied-IsSound h addr n n' held held' (m, supply_is, sum, small, ledger, _) n_is common held_is
      same fits =
    let e : m ≡ pos n = read-token_int h.storage.supply_value m (pos n) supply_is n_is in
    let grown = total-insert addr (token_int (pos held')) h.users_map in
    let old : balance addr h.users_map ≡ pos held = held_is in
    let new = value-token_int (pos held') in
    let sum' : total (insert addr (token_int (pos held')) h.users_map) ≡ pos n' =
      new_total _ _ _ _ n n' held held' grown (sum ∙ e) old new same in
    (
      pos n',
      refl,
      sum',
      omega int_laws,
      insert-IsLedger addr _ h.users_map (omega int_laws) ledger,
      inr common,
    )

-- Adding liquidity returns, and the supply stays the sum of the tokens of all users, on a sound state with
-- the state common. It is for pools that are not empty and, the first one also after the addition, at most
-- 4 * 10 ^ 15, a supply above 0 and at most 10 ^ 16, a caller who has at least the added x > 0 of the first
-- asset and max2 of the second stored, balances and tokens of the caller below 2 ^ 62, x * pool2 / pool1
-- below max2, and x * supply / pool1, the tokens, at least 1 and below 2 ^ 62.
pub add_liquidity-IsSound :
    (p : Pool) (asset1 asset2 : Bytes) (x max2 pool1 pool2 supply_amount balance1 balance2 held : ℕ)
    → IsSound p.base
    → p.base.storage.state_value ≡ scalar (string common_state)
    → HasReserves p asset1 asset2 pool1 pool2 supply_amount
    → HasBalances p asset1 asset2 balance1 balance2 held
    → 0 < x
    → pool1 + x ≤ 4 * 10 ^ 15
    → x ≤ balance1
    → x * pool2 / pool1 < max2
    → max2 ≤ balance2
    → 0 < x * supply_amount / pool1
    → x * supply_amount / pool1 < 2 ^ 62
    → (p' : Pool) × (add_liquidity (pos x) (pos max2) p ≡ (ok tt, p')) × IsSound p'.base
add_liquidity-IsSound p asset1 asset2 x max2 pool1 pool2 supply_amount balance1 balance2 held sound
      common h b px room le1 le2 enough some_minted minted_room =
    let (amount2, run) =
      add_liquidity-returns p asset1 asset2 x max2 pool1 pool2 supply_amount balance1 balance2 held
        h b px room le1 le2 enough some_minted minted_room in
    (
      after_add p asset1 asset2 x max2 pool1 pool2 supply_amount balance1 balance2 held amount2
          (x * supply_amount / pool1),
      run,
      resupplied-IsSound p.base p.base.caller supply_amount
          (supply_amount + x * supply_amount / pool1) held (held + x * supply_amount / pool1) sound
          h.total_is common b.held_is (omega arith) (omega (arith, h.small, minted_room)),
    )

-- Removing liquidity for a part of the supply, more than 0 and less than all of it, that the caller holds,
-- returns, and the supply stays the sum of the tokens of all users, on a sound state with the state common.
-- It is for pools that are not empty and at most 4 * 10 ^ 15, a supply of at most 10 ^ 16, minima not above
-- the amounts that share_of gives for the two pools, a non-negative integer stored as balance of the caller
-- for both assets, and balances and tokens of the caller below 2 ^ 62.
pub remove_liquidity-IsSound :
    (p : Pool) (asset1 asset2 : Bytes)
    (destroyed min1 min2 pool1 pool2 supply_amount balance1 balance2 held amount1 amount2 : ℕ)
    → IsSound p.base
    → p.base.storage.state_value ≡ scalar (string common_state)
    → HasReserves p asset1 asset2 pool1 pool2 supply_amount
    → HasBalances p asset1 asset2 balance1 balance2 held
    → 0 < destroyed
    → destroyed < supply_amount
    → destroyed ≤ held
    → min1 ≤ amount1
    → min2 ≤ amount2
    → share_of (pos destroyed) (pos supply_amount) (pos pool1) ≡ done (pos amount1)
    → share_of (pos destroyed) (pos supply_amount) (pos pool2) ≡ done (pos amount2)
    → (p' : Pool) × (remove_liquidity (pos destroyed) (pos min1) (pos min2) p ≡ (ok tt, p'))
      × IsSound p'.base
remove_liquidity-IsSound p asset1 asset2 destroyed min1 min2 pool1 pool2 supply_amount balance1
      balance2 held amount1 amount2 sound common h b pd lt le fits1 fits2 run1 run2 =
    let (run, _, _, _, _) =
      remove_liquidity-ok p asset1 asset2 destroyed min1 min2 pool1 pool2 supply_amount balance1
        balance2 held amount1 amount2 h b pd lt le fits1 fits2 run1 run2 in
    (
      after_remove p asset1 asset2 destroyed min1 min2 pool1 pool2 supply_amount balance1 balance2
          held amount1 amount2,
      run,
      resupplied-IsSound p.base p.base.caller supply_amount (supply_amount - destroyed) held
          (held - destroyed) sound h.total_is common b.held_is (omega arith)
          (omega (arith, h.small)),
    )
