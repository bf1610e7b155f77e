-- ===== src/Uniswap/Offline.antt =====
-- The apis that `offline_apis` of src/native_contract/native_uniswap_contract.cpp lists: what they change.
use uvm.Base.{
  ℕ, ◌≡◌, refl, ap, ◌∙◌, not, ◌&&◌, Bool, true, false, List, Option, none, some, if◌then◌else◌,
}
use uvm.Base.Dict.{same}
use uvm.Base.Int.{ℤ, pos, ltb_ℤ, ◌-ℤ◌}
use uvm.Cbor.Value.{Bytes, force_as_int}
use uvm.Token
use uvm.Token.Host.{Host, as_string, supply, admin, state, name, symbol}
use uvm.Token.Numbers.{wrap64}
use uvm.Token.Contract.{arg}
use uvm.Uniswap.Prices.{share_of, get_input_price}
use uvm.Uniswap.Liquidity.{eq_ℤ}
use uvm.Token.Offline.{OnlyResult, call-OnlyResult}
use uvm.Safe.Word.{Outcome, done, domain_error, invalid_argument, no_fuel}
use uvm.Uniswap.Host.{
  Pool, Action, Result, Error, StorageName, ok, err, after, pure, throw_error, or_throw, of_token,
  of_number, super, bad_symbol, asset_1_symbol, asset_2_symbol, asset_1_pool_amount,
  asset_2_pool_amount, fee_rate, min_asset1_amount, min_asset2_amount, storage_value,
  get_string_storage, get_int_storage, ◌>>=◌,
}
use uvm.Uniswap.Contract.{require_common, parse_args, balance_of_asset_api}
use uvm.Uniswap.Exchange.{
  Deposit, answer_nothing, answer_shares, shares, get_user_removeable_liquidity_api,
  caculate_pool_share_by_token_api, caculate_exchange_amount_api,
}
use uvm.Uniswap.Invoke.{Api, call, is_offline, get_info_api}

-- Nothing but the result of the call changes.
abbrev pub Answered : Pool → Pool → Type 0
Answered p p' =
    (x : Option Token.Host.ApiResult) × (p' ≡ record p { base = record p.base { api_result = x } })

-- Whatever the state, and also where it throws, the call changes its result at most.
abbrev OnlyAnswers : {A : Type 0} → Action A → Type 0
OnlyAnswers m = (p : Pool) → Answered p (m p).1

kept : (p : Pool) → Answered p p
kept p = (p.base.api_result, refl)

Answered-trans : (p p' p'' : Pool) → Answered p p' → Answered p' p'' → Answered p p''
Answered-trans p p' p'' (x, e) (y, e') =
    (y, e' ∙ ap {A = Pool} (λ q. record q { base = record q.base { api_result = y } }) e)

after-Answered :
    {A B : Type 0} (f : A → Action B) (p : Pool) (r : Result A × Pool)
    → Answered p r.1
    → ((a : A) → OnlyAnswers (f a))
    → Answered p (after f r).1
after-Answered f p (ok a, p') e next = Answered-trans p p' _ e (next a p')
after-Answered f p (err x, p') e next = e

bind-OnlyAnswers :
    {A B : Type 0} (m : Action A) (f : A → Action B)
    → OnlyAnswers m
    → ((a : A) → OnlyAnswers (f a))
    → OnlyAnswers (m >>= f)
unfolding ◌>>=◌
bind-OnlyAnswers m f first next p = after-Answered f p (m p) (first p) next

of_token-OnlyAnswers : {A : Type 0} (r : Token.Host.Result A) → OnlyAnswers (of_token r)
of_token-OnlyAnswers (Token.Host.ok a) p = kept p
of_token-OnlyAnswers (Token.Host.err e) p = kept p

of_number-OnlyAnswers : {A : Type 0} (o : Outcome A) → OnlyAnswers (of_number o)
of_number-OnlyAnswers (done a) p = kept p
of_number-OnlyAnswers domain_error p = kept p
of_number-OnlyAnswers invalid_argument p = kept p
of_number-OnlyAnswers no_fuel p = kept p

if_OnlyAnswers :
    {A : Type 0} (c : Bool) (m n : Action A)
    → OnlyAnswers m
    → OnlyAnswers n
    → OnlyAnswers (if c then m else n)
if_OnlyAnswers true m n p q = p
if_OnlyAnswers false m n p q = q

or_throw-Answered :
    {A : Type 0} (o : Option A) (e : Error) (p : Pool) → Answered p (or_throw o e p).1
or_throw-Answered none e p = kept p
or_throw-Answered (some a) e p = kept p

get_string-OnlyAnswers : (n : StorageName) → OnlyAnswers (get_string_storage n)
unfolding get_string_storage
get_string-OnlyAnswers n p = or_throw-Answered (as_string (storage_value n p.storage)) _ p

get_int-OnlyAnswers : (n : StorageName) → OnlyAnswers (get_int_storage n)
unfolding get_int_storage
get_int-OnlyAnswers n p = or_throw-Answered (force_as_int (storage_value n p.storage)) _ p

-- Readings of the token contract
base_kept : (p : Pool) (h : Host) → h ≡ p.base → Answered p (record p { base = h })
base_kept p h e = (p.base.api_result, ap {A = Host} (λ b. record p { base = b }) e)

token_or_throw-kept :
    {A : Type 0} (o : Option A) (e : Token.Host.Error) (h : Host)
    → (Token.Host.or_throw o e h).1 ≡ h
token_or_throw-kept none e h = refl
token_or_throw-kept (some a) e h = refl

token_string-OnlyAnswers :
    (n : Token.Host.StorageName)
    → OnlyAnswers (super (Token.Host.get_string_current_contract_storage n))
unfolding Token.Host.get_string_current_contract_storage
token_string-OnlyAnswers n p =
    base_kept p _
      (token_or_throw-kept (as_string (Token.Host.storage_value n p.base.storage)) _ p.base)

token_int-OnlyAnswers :
    (n : Token.Host.StorageName)
    → OnlyAnswers (super (Token.Host.get_int_current_contract_storage n))
unfolding Token.Host.get_int_current_contract_storage
token_int-OnlyAnswers n p =
    base_kept p _
      (token_or_throw-kept (force_as_int (Token.Host.storage_value n p.base.storage)) _ p.base)

set_api_result-OnlyAnswers :
    (r : Token.Host.ApiResult) → OnlyAnswers (super (Token.Host.set_api_result r))
unfolding Token.Host.set_api_result
set_api_result-OnlyAnswers r p = (some r, refl)

require_common-OnlyAnswers : OnlyAnswers require_common
unfolding require_common Token.Contract.get_storage_state
require_common-OnlyAnswers = bind-OnlyAnswers _ _ (token_string-OnlyAnswers state) (λ s. kept)

shares-OnlyAnswers : (tokens total pool1 pool2 : ℤ) → OnlyAnswers (shares tokens total pool1 pool2)
unfolding shares
shares-OnlyAnswers tokens total pool1 pool2 =
    if_OnlyAnswers (eq_ℤ tokens total) (pure (pool1, pool2))
      (of_number (share_of tokens total pool1) >>= λ amount1.
        of_number (share_of tokens total pool2) >>= λ amount2. pure (amount1, amount2))
      kept
      (bind-OnlyAnswers _ _ (of_number-OnlyAnswers _)
        (λ amount1. bind-OnlyAnswers _ _ (of_number-OnlyAnswers _) (λ amount2. kept)))

answer_nothing-OnlyAnswers : OnlyAnswers answer_nothing
unfolding answer_nothing
answer_nothing-OnlyAnswers = bind-OnlyAnswers _ _ (get_string-OnlyAnswers asset_1_symbol) (λ asset1.
    bind-OnlyAnswers _ _ (get_string-OnlyAnswers asset_2_symbol)
      (λ asset2. set_api_result-OnlyAnswers _))

answer_shares-OnlyAnswers : (tokens : ℤ) → OnlyAnswers (answer_shares tokens)
unfolding answer_shares
answer_shares-OnlyAnswers tokens =
    bind-OnlyAnswers _ _ (get_string-OnlyAnswers asset_1_symbol) (λ asset1.
      bind-OnlyAnswers _ _ (get_string-OnlyAnswers asset_2_symbol) (λ asset2.
        bind-OnlyAnswers _ _ (get_int-OnlyAnswers asset_1_pool_amount) (λ pool1.
          bind-OnlyAnswers _ _ (get_int-OnlyAnswers asset_2_pool_amount) (λ pool2.
            bind-OnlyAnswers _ _ (token_int-OnlyAnswers supply) (λ total.
              bind-OnlyAnswers _ _ (shares-OnlyAnswers tokens total pool1 pool2)
                (λ amounts. set_api_result-OnlyAnswers _))))))

get_user_removeable_liquidity_api-OnlyAnswers :
    (addr : Bytes) → OnlyAnswers (get_user_removeable_liquidity_api addr)
unfolding get_user_removeable_liquidity_api
get_user_removeable_liquidity_api-OnlyAnswers addr =
    bind-OnlyAnswers _ _ require_common-OnlyAnswers (λ _.
      bind-OnlyAnswers _ _ kept (λ token_balance.
        if_OnlyAnswers (not (ltb_ℤ (pos 0) token_balance)) answer_nothing
          (answer_shares token_balance) answer_nothing-OnlyAnswers
          (answer_shares-OnlyAnswers token_balance)))

get_info_api-OnlyAnswers : (api_arg : Bytes) → OnlyAnswers (get_info_api api_arg)
unfolding get_info_api
get_info_api-OnlyAnswers api_arg = bind-OnlyAnswers _ _ kept (λ a. bind-OnlyAnswers _ _ kept (λ s.
    bind-OnlyAnswers _ _ kept (λ rate. bind-OnlyAnswers _ _ kept (λ token_name.
      bind-OnlyAnswers _ _ kept (λ token_symbol.
        bind-OnlyAnswers _ _ (token_int-OnlyAnswers supply) (λ total.
          bind-OnlyAnswers _ _ kept (λ asset1. bind-OnlyAnswers _ _ kept (λ asset2.
            bind-OnlyAnswers _ _ (get_int-OnlyAnswers asset_1_pool_amount) (λ pool1.
              bind-OnlyAnswers _ _ (get_int-OnlyAnswers asset_2_pool_amount) (λ pool2.
                bind-OnlyAnswers _ _ (get_int-OnlyAnswers min_asset1_amount) (λ min1.
                  bind-OnlyAnswers _ _ (get_int-OnlyAnswers min_asset2_amount)
                    (λ min2. set_api_result-OnlyAnswers _))))))))))))

module _ (split : Bytes → List Bytes) (trim strtod_rest : Bytes → Bytes)
    (fc_to_int64 : Bytes → Token.Host.Result ℤ) where
  parse_args-OnlyAnswers :
      (n : ℕ) (s : Bytes) → OnlyAnswers (parse_args split trim strtod_rest fc_to_int64 n s)
  unfolding parse_args
  parse_args-OnlyAnswers n s = bind-OnlyAnswers _ _ kept (λ _. kept)

  balance_of_asset_api-OnlyAnswers :
      (s : Bytes) → OnlyAnswers (balance_of_asset_api split trim strtod_rest fc_to_int64 s)
  unfolding balance_of_asset_api
  balance_of_asset_api-OnlyAnswers s = bind-OnlyAnswers _ _ require_common-OnlyAnswers (λ _.
      bind-OnlyAnswers _ _ (parse_args-OnlyAnswers 2 s)
        (λ args. bind-OnlyAnswers _ _ kept (λ bal. set_api_result-OnlyAnswers _)))

  caculate_pool_share_by_token_api-OnlyAnswers :
      (s : Bytes)
      → OnlyAnswers (caculate_pool_share_by_token_api split trim strtod_rest fc_to_int64 s)
  unfolding caculate_pool_share_by_token_api
  caculate_pool_share_by_token_api-OnlyAnswers s =
      bind-OnlyAnswers _ _ require_common-OnlyAnswers (λ _.
        bind-OnlyAnswers _ _ (get_string-OnlyAnswers asset_1_symbol) (λ asset1.
          bind-OnlyAnswers _ _ (get_string-OnlyAnswers asset_2_symbol) (λ asset2.
            bind-OnlyAnswers _ _ (get_int-OnlyAnswers asset_1_pool_amount) (λ pool1.
              bind-OnlyAnswers _ _ (get_int-OnlyAnswers asset_2_pool_amount) (λ pool2.
                bind-OnlyAnswers _ _ (token_int-OnlyAnswers supply) (λ total.
                  bind-OnlyAnswers _ _ kept (λ _.
                    bind-OnlyAnswers _ _ (of_token-OnlyAnswers _) (λ tokens.
                      bind-OnlyAnswers _ _ kept (λ _. bind-OnlyAnswers _ _ kept (λ _.
                        bind-OnlyAnswers _ _ (shares-OnlyAnswers tokens total pool1 pool2)
                          (λ amounts. set_api_result-OnlyAnswers _)))))))))))

  caculate_exchange_amount_api-OnlyAnswers :
      (s : Bytes) → OnlyAnswers (caculate_exchange_amount_api split trim strtod_rest fc_to_int64 s)
  unfolding caculate_exchange_amount_api
  caculate_exchange_amount_api-OnlyAnswers s = bind-OnlyAnswers _ _ require_common-OnlyAnswers (λ _.
      bind-OnlyAnswers _ _ (parse_args-OnlyAnswers 3 s) (λ args. bind-OnlyAnswers _ _ kept (λ _.
        bind-OnlyAnswers _ _ (of_token-OnlyAnswers _) (λ amount. bind-OnlyAnswers _ _ kept (λ _.
          bind-OnlyAnswers _ _ (get_string-OnlyAnswers asset_1_symbol) (λ asset1.
            bind-OnlyAnswers _ _ (get_string-OnlyAnswers asset_2_symbol) (λ asset2.
              bind-OnlyAnswers _ _ (get_int-OnlyAnswers asset_1_pool_amount) (λ pool1.
                bind-OnlyAnswers _ _ (get_int-OnlyAnswers asset_2_pool_amount) (λ pool2.
                  bind-OnlyAnswers _ _ kept (λ _.
                    bind-OnlyAnswers _ _ (get_string-OnlyAnswers fee_rate) (λ rate.
                      bind-OnlyAnswers _ _ (of_number-OnlyAnswers _) (λ fee.
                        bind-OnlyAnswers _ _
                          (if_OnlyAnswers (not (ltb_ℤ fee amount)) (pure (pos 0))
                            (if same (arg 0 args) asset1 && same (arg 2 args) asset2
                              then of_number (get_input_price (wrap64 (amount -ℤ fee)) pool1 pool2)
                              else if same (arg 0 args) asset2 && same (arg 2 args) asset1
                              then of_number (get_input_price (wrap64 (amount -ℤ fee)) pool2 pool1)
                              else throw_error bad_symbol)
                            kept
                            (if_OnlyAnswers (same (arg 0 args) asset1 && same (arg 2 args) asset2)
                              (of_number (get_input_price (wrap64 (amount -ℤ fee)) pool1 pool2))
                              (if same (arg 0 args) asset2 && same (arg 2 args) asset1
                                then of_number
                                    (get_input_price (wrap64 (amount -ℤ fee)) pool2 pool1)
                                else throw_error bad_symbol)
                              (of_number-OnlyAnswers _)
                              (if_OnlyAnswers (same (arg 0 args) asset2 && same (arg 2 args) asset1)
                                (of_number (get_input_price (wrap64 (amount -ℤ fee)) pool2 pool1))
                                (throw_error bad_symbol) (of_number-OnlyAnswers _) kept)))
                          (λ bought. set_api_result-OnlyAnswers _)))))))))))))

token_call-Answered :
    {A : Type 0} (p : Pool) (r : Token.Host.Result A × Host)
    → Token.Outcomes.Outcome p.base (OnlyResult p.base) r
    → Answered p (record p { base = r.1 })
token_call-Answered p (Token.Host.ok a, h) (r, e) =
    (some r, ap {A = Host} (λ b. record p { base = b }) e)
token_call-Answered p (Token.Host.err x, h) e = base_kept p h e

module _ (split : Bytes → List Bytes) (trim strtod_rest : Bytes → Bytes)
    (fc_to_int64 : Bytes → Token.Host.Result ℤ) (from_json : Bytes → Result Deposit) where
  -- A call of an api that `offline_apis` lists changes the result of the call at most, in every state, for every
  -- argument, and also where it throws.
  pub call-Answered :
      (api : Api) (api_arg : Bytes) (p : Pool)
      → is_offline api ≡ true
      → Answered p (call split trim strtod_rest fc_to_int64 from_json api api_arg p).1
  unfolding call is_offline
  call-Answered (Api.of_token api) s p e =
      token_call-Answered p (Token.Invoke.call split trim strtod_rest api s p.base)
        (call-OnlyResult split trim strtod_rest api s p.base e)
  call-Answered Api.init s p e = cc
  call-Answered Api.init_config s p e = cc
  call-Answered Api.on_deposit_asset s p e = cc
  call-Answered Api.add_liquidity s p e = cc
  call-Answered Api.remove_liquidity s p e = cc
  call-Answered Api.set_min_add_amount s p e = cc
  call-Answered Api.withdraw s p e = cc
  call-Answered Api.caculate_pool_share_by_token s p e =
      caculate_pool_share_by_token_api-OnlyAnswers split trim strtod_rest fc_to_int64 s p
  call-Answered Api.caculate_exchange_amount s p e =
      caculate_exchange_amount_api-OnlyAnswers split trim strtod_rest fc_to_int64 s p
  call-Answered Api.get_info s p e = get_info_api-OnlyAnswers s p
  call-Answered Api.balance_of_asset s p e =
      balance_of_asset_api-OnlyAnswers split trim strtod_rest fc_to_int64 s p
  call-Answered Api.get_user_removeable_liquidity s p e =
      get_user_removeable_liquidity_api-OnlyAnswers s p
