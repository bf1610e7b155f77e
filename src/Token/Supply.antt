-- ===== src/Token/Supply.antt =====
-- The supply of a token contract, over sequences of calls.
use uvm.Base.{⊤, ◌≡◌, ◌≢◌, refl, ap, arith, ◌⊎◌, inl, inr, false, List, [], ◌∷◌, All}
use uvm.Base.{Option, none, some, ◌∙◌}
use uvm.Base.Dict.{same, lookup}
use uvm.Base.Int.{ℤ, pos, parts, ◌≤ℤ◌, int_laws}
use uvm.Cbor.Value.{Bytes, CborObject, scalar, string}
use uvm.Token.Host.{◌>>◌}
use uvm.Token.Host.{
  Result, ok, err, Host, set_current_contract_storage, caller_address_string,
  set_invoke_result_caller, add_gas,
}
use uvm.Token.Numbers.{positive_number-le_max}
use uvm.Token.Contract.{common_state, not_inited_state, token_int, init_api}
use uvm.Token.Invoke.{is_offline, Api, api_table, call, run_api, invoke, settle, run_calls}
use uvm.Token.Outcomes.{Outcome, Outcome-map}
use uvm.Token.Offline.{OnlyResult, call-OnlyResult}
use uvm.Token.Balances.{
  total, IsLedger, int64_max, value-token_int, total-insert, insert-IsLedger, balance_nonneg,
  balance_le_total,
}
use uvm.Token.Moves.{Moved, after_move-Moved}
use uvm.Token.Transfers.{IsFunded, Transferred, transfer_api-Transferred}
use uvm.Token.Spending.{Spent, spent, transfer_from_api-Spent}
use uvm.Token.Granting.{Inited, init_token_api-Inited, approve_api-Approved}

-- The stored supply is the sum of the balances, it fits an int64_t, no balance is negative, and
-- before `init_token` the supply is 0.
abbrev pub IsSound : Host → Type 0
IsSound h =
    (amount : ℤ) × (h.storage.supply_value ≡ token_int amount)
    × (total h.users_map ≡ amount)
    × (amount ≤ℤ int64_max)
    × IsLedger h.users_map
    × ((amount ≡ pos 0) ⊎ (h.storage.state_value ≡ scalar (string common_state)))

keeps-IsSound :
    (h h' : Host) → IsSound h → h'.storage ≡ h.storage → h'.users_map ≡ h.users_map → IsSound h'
keeps-IsSound h h' s e f = rw (e, f) s

common-ne-not_inited :
    (v : CborObject) → v ≡ scalar (string common_state) → v ≡ scalar (string not_inited_state) → ⊥
common-ne-not_inited v e f = ground arith

OnlyResult-IsSound : (h h' : Host) → IsSound h → OnlyResult h h' → IsSound h'
OnlyResult-IsSound h h' s (r, e) =
    keeps-IsSound h h' s (ap {A = Host} (λ x. x.storage) e) (ap {A = Host} (λ x. x.users_map) e)

module _ (split : Bytes → List Bytes) (trim strtod_rest : Bytes → Bytes) where
  Moved-IsSound :
      (from_addr to_address : Bytes) (amount : ℤ) (h h' : Host)
      → IsSound h
      → h'.storage ≡ h.storage
      → Moved from_addr to_address amount h.users_map h'.users_map
      → IsSound h'
  Moved-IsSound from_addr to_address amount h h' (n, e, t, small, valid, started) same_storage m =
      rw same_storage (n, e, m.1 ∙ t, small, m.0, started)

  sound-IsFunded : (h : Host) → IsSound h → IsFunded h
  sound-IsFunded h (n, e, t, small, valid, started) = (valid, rw t small)

  Transferred-IsSound :
      (from_addr to_address : Bytes) (parsed : Result ℤ) (h h' : Host)
      → IsSound h
      → Transferred split trim strtod_rest from_addr to_address parsed h h'
      → IsSound h'
  Transferred-IsSound from_addr to_address parsed h h' s (amount, _, m, e) =
      Moved-IsSound from_addr to_address amount h h' s (ap (λ x. x.storage) e) m

  Spent-IsSound :
      (from_addr to_address : Bytes) (parsed : Result ℤ) (h h' : Host)
      → IsSound h
      → Spent split trim strtod_rest from_addr to_address parsed h h'
      → IsSound h'
  Spent-IsSound from_addr to_address parsed h h' s (amount, _, positive, enough, _, e) =
      let f = sound-IsFunded h s in
      rw e (
        Moved-IsSound from_addr to_address amount h
          (spent split trim strtod_rest from_addr to_address amount h) s refl
          (after_move-Moved from_addr to_address amount h.users_map f.0 f.1 (ground arith)
            (ground arith)))

  -- The supply is minted once: the balances were all 0.
  Inited-IsSound :
      (supply_str : Bytes) (h h' : Host)
      → IsSound h
      → Inited split trim strtod_rest supply_str h h'
      → IsSound h'
  Inited-IsSound supply_str h h' (n, supply_n, t, small, valid, inr common)
        (amount, p, parsed, is_admin, is_new, is_common, supply_amount, _, e) =
      elim (common-ne-not_inited h.storage.state_value common is_new) [ ]
  Inited-IsSound supply_str h h' (n, supply_n, t, small, valid, inl zero_n)
        (amount, p, parsed, is_admin, is_new, is_common, supply_amount, _, e) =
      (
        amount,
        supply_amount,
        rw (ap (λ x. x.users_map) e) (
            omega (
              int_laws,
              parts (total-insert h.caller (token_int amount) h.users_map),
              parts (value-token_int amount),
              parts t,
              parts zero_n,
              balance_nonneg h.caller h.users_map valid,
              balance_le_total h.caller h.users_map valid,
            )),
        positive_number-le_max strtod_rest _ supply_str amount parsed,
        rw (ap (λ x. x.users_map) e) (
            insert-IsLedger h.caller (token_int amount) h.users_map
              (omega (int_laws, parts (value-token_int amount))) valid),
        inr is_common,
      )

  call-IsSound :
      (api : Api) (api_arg : Bytes) (h : Host)
      → api ≢ Api.init
      → IsSound h
      → Outcome h IsSound (call split trim strtod_rest api api_arg h)
  unfolding call is_offline
  call-IsSound Api.init api_arg h other s = elim (other refl) [ ]
  call-IsSound Api.init_token api_arg h other s =
      Outcome-map h _ IsSound _ (λ h' i. Inited-IsSound _ h h' s i)
        (init_token_api-Inited split trim strtod_rest api_arg h)
  call-IsSound Api.transfer api_arg h other s =
      Outcome-map h _ IsSound _ (λ h' i. Transferred-IsSound _ _ _ h h' s i)
        (transfer_api-Transferred split trim strtod_rest api_arg h (sound-IsFunded h s))
  call-IsSound Api.transfer_from api_arg h other s =
      Outcome-map h _ IsSound _ (λ h' i. Spent-IsSound _ _ _ h h' s i)
        (transfer_from_api-Spent split trim strtod_rest api_arg h)
  call-IsSound Api.approve api_arg h other s =
      Outcome-map h _ IsSound _
        (λ h' i. keeps-IsSound h h' s (ap (λ x. x.storage) i.3) (ap (λ x. x.users_map) i.3))
        (approve_api-Approved split trim strtod_rest api_arg h)
  call-IsSound Api.balance_of api_arg h other s =
      Outcome-map h _ IsSound _ (λ h' i. OnlyResult-IsSound h h' s i)
        (call-OnlyResult split trim strtod_rest Api.balance_of api_arg h refl)
  call-IsSound Api.approved_balance_from api_arg h other s =
      Outcome-map h _ IsSound _ (λ h' i. OnlyResult-IsSound h h' s i)
        (call-OnlyResult split trim strtod_rest Api.approved_balance_from api_arg h refl)
  call-IsSound Api.all_approved_from_user api_arg h other s =
      Outcome-map h _ IsSound _ (λ h' i. OnlyResult-IsSound h h' s i)
        (call-OnlyResult split trim strtod_rest Api.all_approved_from_user api_arg h refl)
  call-IsSound Api.state api_arg h other s =
      Outcome-map h _ IsSound _ (λ h' i. OnlyResult-IsSound h h' s i)
        (call-OnlyResult split trim strtod_rest Api.state api_arg h refl)
  call-IsSound Api.supply api_arg h other s =
      Outcome-map h _ IsSound _ (λ h' i. OnlyResult-IsSound h h' s i)
        (call-OnlyResult split trim strtod_rest Api.supply api_arg h refl)
  call-IsSound Api.precision api_arg h other s =
      Outcome-map h _ IsSound _ (λ h' i. OnlyResult-IsSound h h' s i)
        (call-OnlyResult split trim strtod_rest Api.precision api_arg h refl)
  call-IsSound Api.token_name api_arg h other s =
      Outcome-map h _ IsSound _ (λ h' i. OnlyResult-IsSound h h' s i)
        (call-OnlyResult split trim strtod_rest Api.token_name api_arg h refl)
  call-IsSound Api.token_symbol api_arg h other s =
      Outcome-map h _ IsSound _ (λ h' i. OnlyResult-IsSound h h' s i)
        (call-OnlyResult split trim strtod_rest Api.token_symbol api_arg h refl)

  -- `set_invoke_result_caller` and `add_gas` come after.
  finished-IsSound :
      (r : Result ⊤ × Host) (h : Host)
      → IsSound h
      → Outcome h IsSound r
      → Outcome h IsSound (((λ _. r) >> (set_invoke_result_caller >> add_gas 100)) h)
  unfolding set_invoke_result_caller add_gas
  finished-IsSound (ok a, h') h s o = o
  finished-IsSound (err x, h') h s o = o

  run_api-IsSound :
      (api : Option Api) (api_arg : Bytes) (h : Host)
      → api ≢ some Api.init
      → IsSound h
      → Outcome h IsSound (run_api split trim strtod_rest api api_arg h)
  unfolding run_api
  run_api-IsSound none api_arg h other s = refl
  run_api-IsSound (some api) api_arg h other s =
      finished-IsSound (call split trim strtod_rest api api_arg h) h s
        (call-IsSound api api_arg h (λ e. other (ap some e)) s)

  -- One invocation of any api but `init`, with any argument: it throws and changes nothing, or the
  -- balances still add up to the supply.
  pub invoke-IsSound :
      (api_name api_arg : Bytes) (h : Host)
      → lookup api_name api_table ≢ some Api.init
      → IsSound h
      → Outcome h IsSound (invoke split trim strtod_rest api_name api_arg h)
  unfolding invoke
  invoke-IsSound api_name api_arg h other s =
      run_api-IsSound (lookup api_name api_table) api_arg h other s

  settle-IsSound :
      (h h' : Host) (r : Result ⊤ × Host)
      → IsSound h
      → IsSound h'
      → Outcome h' IsSound r
      → IsSound (settle split trim strtod_rest h r)
  unfolding settle
  settle-IsSound h h' (ok a, h'') s s' o = o
  settle-IsSound h h' (err x, h'') s s' o = s

  -- After every sequence of calls of other apis than `init` to a sound contract, it is sound.
  pub run_calls-IsSound :
      (calls : List (Bytes × Bytes × Bytes)) (h : Host)
      → All (λ c. lookup c.1 api_table ≢ some Api.init) calls
      → IsSound h
      → IsSound (run_calls split trim strtod_rest calls h)
  unfolding run_calls
  run_calls-IsSound [] h others s = s
  run_calls-IsSound ((c, n, a) ∷ calls) h (other, others) s = run_calls-IsSound calls _ others (
      settle-IsSound h (record h { caller = c }) _ s s
        (invoke-IsSound n a (record h { caller = c }) other s))

  abbrev registered : Host → Host
  registered h = record h {
    storage = record {
      name_value = scalar (string []);
      symbol_value = scalar (string []);
      supply_value = token_int (pos 0);
      precision_value = token_int (pos 0);
      state_value = scalar (string not_inited_state);
      admin_value = scalar (string h.caller);
    };
  }

  init_api-eq :
      (api_arg : Bytes) (h : Host)
      → same h.caller [] ≡ false
      → init_api api_arg h ≡ (ok tt, registered h)
  unfolding init_api set_current_contract_storage caller_address_string
  init_api-eq api_arg h e = rw e refl

  registered-IsSound : (h : Host) → h.users_map ≡ [] → IsSound (registered h)
  unfolding total IsLedger
  registered-IsSound h empty = (pos 0, refl, rw empty refl, omega arith, rw empty tt, inl refl)

  -- A token contract without balances that a caller registers, and whose apis but `init` are called
  -- in any sequence: its balances add up to its supply.
  pub init_api-run_calls-IsSound :
      (calls : List (Bytes × Bytes × Bytes)) (api_arg : Bytes) (h : Host)
      → h.users_map ≡ []
      → same h.caller [] ≡ false
      → All (λ c. lookup c.1 api_table ≢ some Api.init) calls
      → IsSound (run_calls split trim strtod_rest calls (init_api api_arg h).1)
  init_api-run_calls-IsSound calls api_arg h empty e others =
      rw (init_api-eq api_arg h e)
        (run_calls-IsSound calls (registered h) others (registered-IsSound h empty))
