-- ===== src/Uniswap/Balances.antt =====
-- Deposits and withdrawals of src/native_contract/native_uniswap_contract.cpp against the balances that it stores and
-- the changes that the host is told.
use uvm.Base.{
  ℕ, zero, suc, ◌+◌, ◌-◌, ◌^◌, ◌≤◌, ◌<◌, ◌≡◌, refl, ap, ◌∙◌, arith, true, false, some, [], ◌∷◌,
  ◌++◌,
}
use uvm.Base.Dict.{insert, lookup, same, lookup-insert_self, lookup-insert_ne}
use uvm.Base.Int.{ℤ, pos, ◌+ℤ◌, ◌-ℤ◌, ltb_ℤ}
use uvm.Cbor.Value.{Bytes, CborObject, force_as_int}
use uvm.Token
use uvm.Token.Contract.{token_int}
use uvm.Token.Numbers.{wrap64}
use uvm.Uniswap.Host.{
  Pool, ok, err, not_enough, full_key, fast_map_get, fast_map_set, changed, deposited, withdrawed,
}
use uvm.Base.{not, List}
use uvm.Token.Host.{as_string}
use uvm.Token.Contract.{common_state}
use uvm.Token.Numbers.{is_integral}
use uvm.Uniswap.Host.{of_token}
use uvm.Uniswap.Contract.{withdraw_api, balance_of_asset, balance_value, deposit, pay_out}
use uvm.Uniswap.Pools.{wrap_add, wrap_sub}
use uvm.Uniswap.Changes.{changed-both}
use uvm.Uniswap.ChangeLists.{change_at}
use uvm.Uniswap.Runs.{
  require_common-run, parse_args-run, balance-run, stop-run, refuse-run, bind-run, pass-run,
  caller-run, emit-run, gets-run, transfer-run,
}

-- The balance that a stored value stands for.
stored_balance :
    (addr symbol : Bytes) (v : CborObject) (p p' : Pool)
    → p'.assets ≡ insert (full_key addr symbol) v p.assets
    → balance_of_asset addr symbol p' ≡ Token.Contract.amount_of (force_as_int v)
unfolding balance_of_asset
stored_balance addr symbol v p p' e =
    rw (e, lookup-insert_self (full_key addr symbol) v p.assets) refl

other_balance :
    (addr symbol a s : Bytes) (v : CborObject) (p p' : Pool)
    → p'.assets ≡ insert (full_key addr symbol) v p.assets
    → same (full_key addr symbol) (full_key a s) ≡ false
    → balance_of_asset a s p' ≡ balance_of_asset a s p
unfolding balance_of_asset
other_balance addr symbol a s v p p' e ne =
    rw (e, lookup-insert_ne (full_key a s) (full_key addr symbol) v p.assets ne) refl

balance_value-amount :
    (n : ℕ) → Token.Contract.amount_of (force_as_int (balance_value (pos n))) ≡ pos n
unfolding force_as_int
balance_value-amount zero = refl
balance_value-amount (suc n) = refl

-- The states after a deposit and after a withdrawal.
abbrev after_deposit : Pool → Bytes → ℕ → ℕ → Pool
after_deposit p symbol amount balance = record p {
  assets = insert (full_key p.base.caller symbol) (token_int (pos (balance + amount))) p.assets;
  events = p.events ++ (deposited p.base.caller symbol (pos amount) ∷ []);
}

abbrev after_pay_out : Pool → Bytes → Bytes → ℕ → ℕ → ℕ → Pool
after_pay_out p addr symbol id amount balance = record p {
  assets = insert (full_key addr symbol) (balance_value (pos (balance - amount))) p.assets;
  events = p.events ++ (withdrawed addr symbol (pos amount) ∷ []);
  balance_changes = changed p.contract_address addr id (pos amount) p.balance_changes;
}

-- A deposit of an amount to a balance, neither of them negative and their sum below 2 ^ 63, returns, raises
-- the balance of the caller by the amount, and changes no other balance and no change of the host.
pub deposit-ok :
    (amount balance : ℕ) (symbol a s : Bytes) (p : Pool)
    → balance_of_asset p.base.caller symbol p ≡ pos balance
    → balance + amount < 2 ^ 63
    → same (full_key p.base.caller symbol) (full_key a s) ≡ false
    → (p' : Pool) × (deposit (pos amount) symbol p ≡ (ok tt, p'))
      × (balance_of_asset p.base.caller symbol p' ≡ pos (balance + amount))
      × (balance_of_asset a s p' ≡ balance_of_asset a s p)
      × (p'.balance_changes ≡ p.balance_changes)
unfolding deposit fast_map_set force_as_int
deposit-ok amount balance symbol a s p has fits ne =
    let v = token_int (pos (balance + amount)) in
    let e : wrap64 (balance_of_asset p.base.caller symbol p +ℤ pos amount)
        ≡ pos (balance + amount) =
      ap (λ i. wrap64 (i +ℤ pos amount)) has ∙ wrap_add balance amount fits in
    let p' = after_deposit p symbol amount balance in
    (
      p',
      bind-run _ _ (caller-run p) (
          bind-run _ _ (gets-run (balance_of_asset p.base.caller symbol) p)
            (rw (e) (bind-run _ _ refl (emit-run _ _)))),
      stored_balance p.base.caller symbol v p p' refl,
      other_balance p.base.caller symbol a s v p p' refl ne,
      refl,
    )

-- A withdrawal of at most the stored balance lowers it by the amount and leaves the other balances; the host is told to
-- lower the change of the contract for the asset and to raise the one of the address by it.
pay_out-ok :
    (amount balance id : ℕ) (addr symbol a s : Bytes) (p : Pool)
    → force_as_int (fast_map_get addr symbol p) ≡ some (pos balance)
    → amount ≤ balance
    → balance < 2 ^ 63
    → lookup symbol p.asset_ids ≡ some id
    → same addr p.contract_address ≡ false
    → same (full_key addr symbol) (full_key a s) ≡ false
    → (p' : Pool) × (pay_out addr symbol (pos amount) p ≡ (ok tt, p'))
      × (balance_of_asset addr symbol p' ≡ pos (balance - amount))
      × (balance_of_asset a s p' ≡ balance_of_asset a s p)
      × (change_at p.contract_address id p'.balance_changes
          ≡ wrap64 (change_at p.contract_address id p.balance_changes -ℤ pos amount))
      × (change_at addr id p'.balance_changes
          ≡ wrap64 (change_at addr id p.balance_changes +ℤ pos amount))
unfolding pay_out fast_map_set
pay_out-ok amount balance id addr symbol a s p has le fits id_is other ne =
    let v = balance_value (pos (balance - amount)) in
    let enough : ltb_ℤ (pos balance) (pos amount) ≡ false = ground (arith, le) in
    let (paid, got) =
      changed-both p.contract_address addr id (pos amount) p.balance_changes
        (ground (arith, other)) in
    let p' = after_pay_out p addr symbol id amount balance in
    (
      p',
      bind-run _ _ (balance-run addr symbol (pos balance) p has) (
          bind-run _ _ (pass-run _ _ enough) (
            rw (wrap_sub balance amount le fits) (
              bind-run _ _ refl
                (bind-run _ _ (transfer-run addr symbol id (pos amount) _ id_is) (emit-run _ _))))),
      stored_balance addr symbol v p p' refl ∙ balance_value-amount (balance - amount),
      other_balance addr symbol a s v p p' refl ne,
      paid,
      got,
    )

-- A withdrawal of more than the stored balance throws and changes nothing.
pay_out-not_enough :
    (amount balance : ℕ) (addr symbol : Bytes) (p : Pool)
    → force_as_int (fast_map_get addr symbol p) ≡ some (pos balance)
    → balance < amount
    → pay_out addr symbol (pos amount) p ≡ (err not_enough, p)
unfolding pay_out
pay_out-not_enough amount balance addr symbol p has lt =
    let enough : ltb_ℤ (pos balance) (pos amount) ≡ true = ground (arith, lt) in
    bind-run _ _ (balance-run addr symbol (pos balance) p has)
      (stop-run _ _ (refuse-run _ _ enough))

-- A withdrawal whose texts read as a positive amount of at most the stored balance and as an asset that the host
-- knows, by a caller other than the contract: it returns, it lowers that balance of the caller by the amount and no other
-- balance, and the host is told to lower the change of the contract for the asset and to raise the one of the
-- caller by the amount.
pub withdraw_api-ok :
    (split : Bytes → List Bytes) (trim strtod_rest : Bytes → Bytes)
    (fc_to_int64 : Bytes → Token.Host.Result ℤ) (amount balance id : ℕ)
    (api_arg amount_text symbol a s : Bytes) (p : Pool)
    → as_string p.base.storage.state_value ≡ some common_state
    → split api_arg ≡ amount_text ∷ symbol ∷ []
    → is_integral strtod_rest amount_text ≡ true
    → fc_to_int64 amount_text ≡ Token.Host.ok (pos amount)
    → 0 < amount
    → same symbol [] ≡ false
    → force_as_int (fast_map_get p.base.caller symbol p) ≡ some (pos balance)
    → amount ≤ balance
    → balance < 2 ^ 63
    → lookup symbol p.asset_ids ≡ some id
    → same p.base.caller p.contract_address ≡ false
    → same (full_key p.base.caller symbol) (full_key a s) ≡ false
    → (p' : Pool) × (withdraw_api split trim strtod_rest fc_to_int64 api_arg p ≡ (ok tt, p'))
      × (balance_of_asset p.base.caller symbol p' ≡ pos (balance - amount))
      × (balance_of_asset a s p' ≡ balance_of_asset a s p)
      × (change_at p.contract_address id p'.balance_changes
          ≡ wrap64 (change_at p.contract_address id p.balance_changes -ℤ pos amount))
      × (change_at p.base.caller id p'.balance_changes
          ≡ wrap64 (change_at p.base.caller id p.balance_changes +ℤ pos amount))
unfolding withdraw_api
withdraw_api-ok split trim strtod_rest fc_to_int64 amount balance id api_arg amount_text symbol a s
      p common args integral read some_amount named has le fits id_is other ne =
    let (p', run, lowered, other_kept, paid, got) =
      pay_out-ok amount balance id p.base.caller symbol a s p has le fits id_is other ne in
    let is_whole : not (is_integral strtod_rest amount_text) ≡ false = rw (integral) refl in
    let positive : not (ltb_ℤ (pos 0) (pos amount)) ≡ false = ground (arith, some_amount) in
    (
      p',
      bind-run _ _ (require_common-run p common) (
          bind-run _ _ (parse_args-run split trim strtod_rest fc_to_int64 2 api_arg _ p args refl) (
            bind-run _ _ (pass-run _ _ is_whole) (
              bind-run _ _ (ap (λ r. of_token r p) read) (
                bind-run _ _ (pass-run _ _ positive)
                  (bind-run _ _ (pass-run _ _ named) (bind-run _ _ (caller-run p) run)))))),
      lowered,
      other_kept,
      paid,
      got,
    )
