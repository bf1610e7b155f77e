-- ===== src/Token/Offline.antt =====
-- The offline apis: what their calls change.
use uvm.Base.{◌≡◌, refl, true, none, some, List, Option}
use uvm.Cbor.Value.{Bytes, CborObject, Entries, map, force_as_int}
use uvm.Token.Host.{
  Host, ApiResult, Action, Error, StorageName, or_throw, storage_value, ◌>>=◌, text, number, json,
  gets, bad_state, set_api_result, get_int_current_contract_storage,
}
use uvm.Token.Contract.{
  arg, approved_of, require_state, parse_args, common_state, get_balance_of_user,
  get_allowed_of_user, balance_of_api, approved_balance_from_api, all_approved_from_user_api,
  state_api, supply_api, precision_api, token_name_api, token_symbol_api, get_storage_state,
  get_storage_supply, get_storage_precision, get_storage_token_name, get_storage_token_symbol,
}
use uvm.Cbor.Entries.{find}
use uvm.Token.Invoke.{Api, is_offline, call}
use uvm.Token.Outcomes.{
  Outcome, Reads, bind-Outcome, get_string-Reads, require_state-Reads, parse_args-Reads,
}

-- A result is set, and nothing else changes.
abbrev pub OnlyResult : Host → Host → Type 0
OnlyResult h h' = (r : ApiResult) × (h' ≡ record h { api_result = some r })

or_throw-Reads : {A : Type 0} (o : Option A) (e : Error) (h : Host) → Reads (or_throw o e) h
or_throw-Reads none e h = refl
or_throw-Reads (some a) e h = refl

get_int-Reads : (n : StorageName) (h : Host) → Reads (get_int_current_contract_storage n) h
unfolding get_int_current_contract_storage
get_int-Reads n h = or_throw-Reads (force_as_int (storage_value n h.storage)) _ h

approved_of-Reads : (o : Option CborObject) (h : Host) → Reads (approved_of o) h
approved_of-Reads none h = refl
approved_of-Reads (some v) h = or_throw-Reads (force_as_int v) _ h

-- A reading of the state, and the result that is made from what it gives.
answer-OnlyResult :
    {A : Type 0} (m : Action A) (r : A → ApiResult) (h : Host)
    → Reads m h
    → Outcome h (OnlyResult h) ((m >>= λ a. set_api_result (r a)) h)
unfolding set_api_result
answer-OnlyResult m r h reads =
    bind-Outcome m (λ a. set_api_result (r a)) h (OnlyResult h) reads (λ a _. (r a, refl))

module _ (split : Bytes → List Bytes) (trim strtod_rest : Bytes → Bytes) where
  state_api-OnlyResult :
      (api_arg : Bytes) (h : Host) → Outcome h (OnlyResult h) (state_api api_arg h)
  unfolding state_api get_storage_state
  state_api-OnlyResult api_arg h =
      answer-OnlyResult get_storage_state text h (get_string-Reads StorageName.state h)

  token_name_api-OnlyResult :
      (api_arg : Bytes) (h : Host) → Outcome h (OnlyResult h) (token_name_api api_arg h)
  unfolding token_name_api get_storage_token_name
  token_name_api-OnlyResult api_arg h =
      answer-OnlyResult get_storage_token_name text h (get_string-Reads StorageName.name h)

  token_symbol_api-OnlyResult :
      (api_arg : Bytes) (h : Host) → Outcome h (OnlyResult h) (token_symbol_api api_arg h)
  unfolding token_symbol_api get_storage_token_symbol
  token_symbol_api-OnlyResult api_arg h =
      answer-OnlyResult get_storage_token_symbol text h (get_string-Reads StorageName.symbol h)

  supply_api-OnlyResult :
      (api_arg : Bytes) (h : Host) → Outcome h (OnlyResult h) (supply_api api_arg h)
  unfolding supply_api get_storage_supply
  supply_api-OnlyResult api_arg h =
      answer-OnlyResult get_storage_supply number h (get_int-Reads StorageName.supply h)

  precision_api-OnlyResult :
      (api_arg : Bytes) (h : Host) → Outcome h (OnlyResult h) (precision_api api_arg h)
  unfolding precision_api get_storage_precision
  precision_api-OnlyResult api_arg h =
      answer-OnlyResult get_storage_precision number h (get_int-Reads StorageName.precision h)

  balance_of_api-OnlyResult :
      (api_arg : Bytes) (h : Host) → Outcome h (OnlyResult h) (balance_of_api api_arg h)
  unfolding balance_of_api
  balance_of_api-OnlyResult api_arg h =
      bind-Outcome (require_state common_state bad_state)
        (λ _. gets (get_balance_of_user api_arg) >>= λ n. set_api_result (number n)) h
        (OnlyResult h) (require_state-Reads common_state bad_state h)
        (λ _ _. answer-OnlyResult (gets (get_balance_of_user api_arg)) number h refl)

  all_approved_from_user_api-OnlyResult :
      (api_arg : Bytes) (h : Host)
      → Outcome h (OnlyResult h) (all_approved_from_user_api split trim strtod_rest api_arg h)
  unfolding all_approved_from_user_api
  all_approved_from_user_api-OnlyResult api_arg h =
      let of_user = gets (get_allowed_of_user (trim api_arg)) in
      bind-Outcome (require_state common_state bad_state)
        (λ _. of_user >>= λ entries. set_api_result (json (map entries))) h (OnlyResult h)
        (require_state-Reads common_state bad_state h)
        (λ _ _. answer-OnlyResult of_user (λ entries. json (map entries)) h refl)

  approved_balance_from_api-OnlyResult :
      (api_arg : Bytes) (h : Host)
      → Outcome h (OnlyResult h) (approved_balance_from_api split trim strtod_rest api_arg h)
  unfolding approved_balance_from_api
  approved_balance_from_api-OnlyResult api_arg h =
      let amount = λ (args : List Bytes).
        λ (entries : Entries). approved_of (find (trim (arg 0 args)) entries) in
      let of_user = λ (args : List Bytes). gets (get_allowed_of_user (trim (arg 1 args))) in
      let last = λ (args : List Bytes).
        λ (entries : Entries). amount args entries >>= λ n. set_api_result (number n) in
      let parsed = parse_args split trim strtod_rest 2 api_arg in
      bind-Outcome (require_state common_state bad_state)
        (λ _. parsed >>= λ args. of_user args >>= last args) h (OnlyResult h)
        (require_state-Reads common_state bad_state h)
        (λ _ _.
          bind-Outcome parsed (λ args. of_user args >>= last args) h (OnlyResult h)
            (parse_args-Reads split trim strtod_rest 2 api_arg h)
            (λ args _. bind-Outcome (of_user args) (last args) h (OnlyResult h) refl (λ entries _.
              answer-OnlyResult (amount args entries) number h
                (approved_of-Reads (find (trim (arg 0 args)) entries) h))))

  -- A call of an api that offline_apis lists throws and changes nothing, or returns with a result set and
  -- nothing else changed.
  pub call-OnlyResult :
      (api : Api) (api_arg : Bytes) (h : Host)
      → is_offline api ≡ true
      → Outcome h (OnlyResult h) (call split trim strtod_rest api api_arg h)
  unfolding call is_offline
  call-OnlyResult Api.init api_arg h e = cc
  call-OnlyResult Api.init_token api_arg h e = cc
  call-OnlyResult Api.transfer api_arg h e = cc
  call-OnlyResult Api.transfer_from api_arg h e = cc
  call-OnlyResult Api.approve api_arg h e = cc
  call-OnlyResult Api.state api_arg h e = state_api-OnlyResult api_arg h
  call-OnlyResult Api.token_name api_arg h e = token_name_api-OnlyResult api_arg h
  call-OnlyResult Api.token_symbol api_arg h e = token_symbol_api-OnlyResult api_arg h
  call-OnlyResult Api.supply api_arg h e = supply_api-OnlyResult api_arg h
  call-OnlyResult Api.precision api_arg h e = precision_api-OnlyResult api_arg h
  call-OnlyResult Api.balance_of api_arg h e = balance_of_api-OnlyResult api_arg h
  call-OnlyResult Api.all_approved_from_user api_arg h e =
      all_approved_from_user_api-OnlyResult api_arg h
  call-OnlyResult Api.approved_balance_from api_arg h e =
      approved_balance_from_api-OnlyResult api_arg h
