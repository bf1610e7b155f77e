-- ===== src/Token/Transfers.antt =====
-- `transfer_api`: what a call has done, by how it ended, and when it goes through.
use uvm.Base.{◌≤◌, length, ℕ, ◌≡◌, refl, arith, inl, inr, true, false, List, [], ◌∷◌, ◌++◌}
use uvm.Base.{Bool-cases}
use uvm.Base.Dict.{same_self}
use uvm.Base.Int.{ℤ, pos, ◌≤ℤ◌, ltb_ℤ}
use uvm.Cbor.Value.{scalar, string, Bytes}
use uvm.Token.Host.{
  get_string_current_contract_storage, Result, ok, Host, transfer, bad_argument,
  caller_address_string, emit_event,
}
use uvm.Token.Numbers.{positive_number, positive_number-ok}
use uvm.Token.Contract.{
  arg, common_state, get_storage_state, require_state, parse_args, get_balance_of_user,
  transfer_api, move_amount,
}
use uvm.Token.Outcomes.{Outcome}
use uvm.Token.Outcomes.{Result-cases}
use uvm.Token.Balances.{balance, value, total, IsLedger, int64_max}
use uvm.Token.Moves.{Moved, after_move-Moved, move_amount-eq}

-- A ledger whose total fits an int64_t.
abbrev pub IsFunded : Host → Type 0
IsFunded h = IsLedger h.users_map × (total h.users_map ≤ℤ int64_max)

module _ (split : Bytes → List Bytes) (trim strtod_rest : Bytes → Bytes) where
  -- The amount that argument `i` names.
  abbrev pub amount_arg : ℕ → Bytes → Result ℤ
  amount_arg i api_arg = positive_number strtod_rest bad_argument (trim (arg i (split api_arg)))

  abbrev pub address_arg : ℕ → Bytes → Bytes
  address_arg i api_arg = trim (arg i (split api_arg))

  -- After a transfer: the amount has moved, one event tells of it, and all else is as before.
  abbrev pub Transferred : Bytes → Bytes → Result ℤ → Host → Host → Type 0
  Transferred from_addr to_address parsed h h' =
      (amount : ℤ) × (parsed ≡ ok amount)
      × Moved from_addr to_address amount h.users_map h'.users_map
      × (h' ≡ record h {
        users_map = h'.users_map;
        events = h.events ++ (transfer from_addr to_address amount ∷ []);
      })

  -- The last steps of a transfer.
  move_amount-Transferred :
      (from_addr to_address : Bytes) (amount : ℤ) (h : Host)
      → IsFunded h
      → ltb_ℤ (pos 0) amount ≡ true
      → ltb_ℤ (balance from_addr h.users_map) amount ≡ false
      → Transferred from_addr to_address
          (ok amount)
          h
          (emit_event
            (transfer from_addr to_address amount)
            (move_amount from_addr to_address amount h).1).1
  unfolding emit_event
  move_amount-Transferred from_addr to_address amount h f positive enough =
      rw (move_amount-eq from_addr to_address amount h) (
        amount,
        refl,
        after_move-Moved from_addr to_address amount h.users_map f.0 f.1 (ground arith)
            (ground arith),
        refl,
      )

  -- `transfer` on a sound ledger: it throws and changes nothing, or the amount of its argument moves
  -- from the caller to the address of its argument.
  pub transfer_api-Transferred :
      (api_arg : Bytes) (h : Host)
      → IsFunded h
      → Outcome h
          (Transferred h.caller (address_arg 0 api_arg) (amount_arg 1 api_arg) h)
          (transfer_api split trim strtod_rest api_arg h)
  unfolding transfer_api require_state parse_args get_storage_state caller_address_string
      get_string_current_contract_storage get_balance_of_user balance value
  transfer_api-Transferred api_arg h f = elim (Result-cases (amount_arg 1 api_arg)) [
    | inr (x, e) ↦ ground (arith, e)
    | inl (amount, e) ↦ elim (Bool-cases (ltb_ℤ (balance h.caller h.users_map) amount)) [
      | inl short ↦ ground (arith, e, short)
      | inr enough ↦ ground (
        arith,
        e,
        enough,
        positive_number-ok strtod_rest bad_argument _ amount e,
        move_amount-eq h.caller (address_arg 0 api_arg) amount h,
        move_amount-Transferred h.caller (address_arg 0 api_arg) amount h f,
      )
    ]
  ]

  -- In the common state, with two arguments or more, an amount that parses and that the caller has,
  -- `transfer` does not throw.
  pub transfer_api-ok :
      (api_arg : Bytes) (amount : ℤ) (h : Host)
      → h.storage.state_value ≡ scalar (string common_state)
      → 2 ≤ length (split api_arg)
      → amount_arg 1 api_arg ≡ ok amount
      → amount ≤ℤ balance h.caller h.users_map
      → (transfer_api split trim strtod_rest api_arg h).0 ≡ ok tt
  unfolding transfer_api require_state parse_args get_storage_state caller_address_string
      get_string_current_contract_storage get_balance_of_user balance value emit_event
  transfer_api-ok api_arg amount h common enough_args e enough =
      ground
        (arith, same_self common_state, move_amount-eq h.caller (address_arg 0 api_arg) amount h)
