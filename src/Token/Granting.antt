-- ===== src/Token/Granting.antt =====
-- `init_token_api` and `approve_api`: what a call has done, by how it ended.
use uvm.Base.{⊤, ◌≡◌, refl, sym, ap, arith, inl, inr, true, List, [], ◌∷◌, ◌++◌}
use uvm.Base.{Bool-cases, not, ◌||◌, if◌then◌else◌}
use uvm.Base.Dict.{same, same_self, same→≡, insert, lookup-insert_self, lookup-insert_ne}
use uvm.Base.Int.{ℤ, pos, ◌≤ℤ◌, ltb_ℤ}
use uvm.Cbor.Value.{Bytes, scalar, string, map, Entries}
use uvm.Token.Host.{◌>>=◌, ◌>>◌, inited_before, Action, throw_if, bad_precision}
use uvm.Token.Host.{
  get_string_current_contract_storage, Result, ok, Host, inited, approved, bad_argument,
  supply_not_positive, precision_not_positive, caller_address_string, emit_event,
  current_fast_map_set, current_fast_map_get,
}
use uvm.Token.Numbers.{positive_number, positive_number-ok}
use uvm.Cbor.Entries.{put, find-put_self, find-put_ne}
use uvm.Token.Contract.{
  arg, common_state, not_inited_state, token_int, get_storage_state, require_state, parse_args,
  check_admin, get_allowed_of_user, is_allowed_precision, lift, launch, init_token_with,
  init_token_api, approve_api,
}
use uvm.Token.Outcomes.{bind-Outcome, check_admin-Reads, check_admin-ok, require_state-Reads}
use uvm.Token.Outcomes.{require_state-ok, parse_args-Reads, parse_args-ok}
use uvm.Token.Outcomes.{Outcome, Result-cases}
use uvm.Token.Balances.{value}
use uvm.Token.Spending.{allowance, entry_value}
use uvm.Token.Transfers.{amount_arg, address_arg}

module _ (split : Bytes → List Bytes) (trim strtod_rest : Bytes → Bytes) where
  -- After `init_token`: the caller is the admin of a contract that was not inited, all of a positive
  -- supply is the caller's, and the contract is in its common state.
  abbrev pub Inited : Bytes → Host → Host → Type 0
  Inited supply_str h h' =
      (amount : ℤ) × (pos 1 ≤ℤ amount)
      × (positive_number strtod_rest supply_not_positive supply_str ≡ ok amount)
      × (h.storage.admin_value ≡ scalar (string h.caller))
      × (h.storage.state_value ≡ scalar (string not_inited_state))
      × (h'.storage.state_value ≡ scalar (string common_state))
      × (h'.storage.supply_value ≡ token_int amount)
      × (h'.storage.admin_value ≡ h.storage.admin_value)
      × (h' ≡ record h {
        storage = h'.storage;
        users_map = insert h.caller (token_int amount) h.users_map;
        events = h.events ++ (inited supply_str ∷ []);
      })

  launch-Inited :
      (name_arg symbol_arg supply_str : Bytes) (amount p : ℤ) (h : Host)
      → ltb_ℤ (pos 0) amount ≡ true
      → positive_number strtod_rest supply_not_positive supply_str ≡ ok amount
      → h.storage.admin_value ≡ scalar (string h.caller)
      → h.storage.state_value ≡ scalar (string not_inited_state)
      → Outcome h (Inited supply_str h) (launch name_arg symbol_arg amount p supply_str h)
  unfolding launch
  launch-Inited name_arg symbol_arg supply_str amount p h positive e is_admin is_new =
      (amount, ground arith, e, is_admin, is_new, refl, refl, refl, refl)

  init_token_with-Inited :
      (name_arg symbol_arg supply_str precision_str : Bytes) (h : Host)
      → h.storage.admin_value ≡ scalar (string h.caller)
      → h.storage.state_value ≡ scalar (string not_inited_state)
      → Outcome h
          (Inited supply_str h)
          (init_token_with split trim strtod_rest name_arg symbol_arg supply_str precision_str h)
  unfolding init_token_with
  init_token_with-Inited name_arg symbol_arg supply_str precision_str h is_admin is_new =
      let P = Inited supply_str h in
      let named = throw_if (same name_arg [] || same symbol_arg []) bad_argument in
      let read_supply = positive_number strtod_rest supply_not_positive supply_str in
      let read_precision = positive_number strtod_rest precision_not_positive precision_str in
      let store : ℤ → ℤ → Action ⊤ = λ s p. launch name_arg symbol_arg s p supply_str in
      let check : ℤ → Action ⊤ = λ p. throw_if (not (is_allowed_precision p)) bad_precision in
      let after_supply : ℤ → Action ⊤ = λ s. lift read_precision >>= λ p. check p >> store s p in
      bind-Outcome named (λ _. lift read_supply >>= after_supply) h P refl
        (λ _ _. bind-Outcome (lift read_supply) after_supply h P refl (λ s e.
          bind-Outcome (lift read_precision) (λ p. check p >> store s p) h P refl
            (λ p _.
              bind-Outcome (check p) (λ _. store s p) h P refl
                (λ _ _.
                  launch-Inited name_arg symbol_arg supply_str s p h
                    (positive_number-ok strtod_rest supply_not_positive supply_str s
                      (ap (λ r. r.0) e))
                    (ap (λ r. r.0) e) is_admin is_new))))

  -- `init_token` throws and changes nothing, or inits the token.
  pub init_token_api-Inited :
      (api_arg : Bytes) (h : Host)
      → Outcome h
          (Inited (arg 2 (split api_arg)) h)
          (init_token_api split trim strtod_rest api_arg h)
  unfolding init_token_api
  init_token_api-Inited api_arg h =
      let P = Inited (arg 2 (split api_arg)) h in
      let with_args : List Bytes → Action ⊤ = λ xs.
        init_token_with split trim strtod_rest (trim (arg 0 xs)) (trim (arg 1 xs)) (arg 2 xs)
          (arg 3 xs) in
      let parse = parse_args split trim strtod_rest 4 api_arg in
      let check_state = require_state not_inited_state inited_before in
      bind-Outcome check_admin (λ _. check_state >> (parse >>= with_args)) h P (check_admin-Reads h)
        (λ a e.
          bind-Outcome check_state (λ _. parse >>= with_args) h P (require_state-Reads _ _ h)
            (λ _ f.
              bind-Outcome parse with_args h P (parse_args-Reads split trim strtod_rest 4 api_arg h)
                (λ xs g. rw (parse_args-ok split trim strtod_rest 4 api_arg xs h g) (
                  init_token_with-Inited (trim (arg 0 xs)) (trim (arg 1 xs)) (arg 2 xs) (arg 3 xs) h
                    (check_admin-ok a h e) (require_state-ok _ _ h f)))))

  -- After `approve`: the spender may take the amount from the caller, no other allowance and no
  -- balance has changed, and one event tells of it.
  abbrev pub Approved : Bytes → Result ℤ → Host → Host → Type 0
  Approved spender_address parsed h h' =
      (amount : ℤ) × (parsed ≡ ok amount)
      × ((owner spender : Bytes)
          → allowance owner spender h' ≡ (
              if same h.caller owner
              then (if same spender_address spender then amount else allowance owner spender h)
              else allowance owner spender h))
      × (h' ≡ record h {
        allowed_map = h'.allowed_map;
        events = h.events ++ (approved h.caller spender_address amount ∷ []);
      })

  abbrev granted : Bytes → ℤ → Host → Host
  granted spender_address amount h = record h {
    allowed_map =
        insert h.caller
          (map (put spender_address (token_int amount) (get_allowed_of_user h.caller h)))
          h.allowed_map;
    events = h.events ++ (approved h.caller spender_address amount ∷ []);
  }

  entry_value-put :
      (s k : Bytes) (amount : ℤ) (es : Entries)
      → entry_value s (put k (token_int amount) es)
        ≡ (if same k s then amount else entry_value s es)
  unfolding value
  entry_value-put s k amount es = elim (Bool-cases (same k s)) [
    | inl e ↦ ground (arith, e, same→≡ k s e, find-put_self k (token_int amount) es)
    | inr e ↦ ground (arith, e, find-put_ne s k (token_int amount) es e)
  ]

  allowance-granted :
      (spender_address : Bytes) (amount : ℤ) (h : Host) (owner spender : Bytes)
      → allowance owner spender (granted spender_address amount h) ≡ (
          if same h.caller owner
          then (if same spender_address spender then amount else allowance owner spender h)
          else allowance owner spender h)
  unfolding allowance get_allowed_of_user current_fast_map_get
  allowance-granted spender_address amount h owner spender =
      elim (Bool-cases (same h.caller owner)) [
        | inl e ↦
            rw (sym (same→≡ h.caller owner e), same_self, lookup-insert_self)
              (entry_value-put spender spender_address amount (get_allowed_of_user h.caller h))
        | inr e ↦ rw (e, lookup-insert_ne owner h.caller _ h.allowed_map e) refl
      ]

  granted-Approved :
      (spender_address : Bytes) (amount : ℤ) (h : Host)
      → Approved spender_address (ok amount) h (granted spender_address amount h)
  granted-Approved spender_address amount h =
      (amount, refl, allowance-granted spender_address amount h, refl)

  -- `approve` throws and changes nothing, or sets one allowance of the caller to the amount.
  pub approve_api-Approved :
      (api_arg : Bytes) (h : Host)
      → Outcome h
          (Approved
            (address_arg split trim strtod_rest 0 api_arg)
            (amount_arg split trim strtod_rest 1 api_arg)
            h)
          (approve_api split trim strtod_rest api_arg h)
  unfolding approve_api require_state parse_args get_storage_state caller_address_string
      get_string_current_contract_storage emit_event current_fast_map_set
  approve_api-Approved api_arg h =
      elim (Result-cases (amount_arg split trim strtod_rest 1 api_arg)) [
        | inr (x, e) ↦ ground (arith, e)
        | inl (amount, e) ↦
            ground
              (arith, e, granted-Approved (address_arg split trim strtod_rest 0 api_arg) amount h)
      ]
