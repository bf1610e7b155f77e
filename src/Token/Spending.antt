-- ===== src/Token/Spending.antt =====
-- `transfer_from_api`: what a call does to the ledger and to the allowances.
use uvm.Base.{zero, suc, ◌≡◌, refl, sym, ap, arith, inl, inr, true, false, List, [], ◌∷◌, ◌++◌}
use uvm.Base.{if◌then◌else◌, Bool-cases, Option-cases}
use uvm.Base.Dict.{same, same_self, same→≡, insert, lookup-insert_self}
use uvm.Base.Dict.{lookup-insert_ne}
use uvm.Base.Int.{ℤ, pos, negsuc, parts, ◌+ℤ◌, ◌-ℤ◌, ◌≤ℤ◌, ltb_ℤ, int_laws}
use uvm.Cbor.Value.{Bytes, Entries, map, force_as_int}
use uvm.Token.Host.{
  get_string_current_contract_storage, Result, ok, Host, transfer, bad_argument,
  caller_address_string, emit_event, current_fast_map_set, current_fast_map_get, or_null, as_string,
}
use uvm.Token.Numbers.{wrap64, positive_number-ok}
use uvm.Cbor.Entries.{find, put, find-put_self, find-put_ne, find-erase_ne}
use uvm.Cbor.Entries.{AreSorted, find-erase-put}
use uvm.Token.Contract.{
  get_storage_state, require_state, parse_args, get_balance_of_user, get_allowed_of_user, token_int,
  lower_allowance, transfer_from_api,
}
use uvm.Token.Outcomes.{Outcome-map, Outcome, Result-cases}
use uvm.Token.Balances.{balance, value, int64_max, wrap64-nonneg}
use uvm.Token.Moves.{Moved, after_move, after_move-Moved, move_amount-eq, share}
use uvm.Token.Transfers.{IsFunded, amount_arg, address_arg}

-- What the spender may still take from the owner.
abbrev pub entry_value : Bytes → Entries → ℤ
entry_value spender es = value (or_null (find spender es))

unfoldable pub allowance : Bytes → Bytes → Host → ℤ
unfolding get_allowed_of_user
allowance owner spender h = entry_value spender (get_allowed_of_user owner h)

-- Lowering an allowance sets it to what remains, and no other.
entry_value-lower_allowance :
    (s k : Bytes) (r : ℤ) (es : Entries)
    → AreSorted es
    → pos 0 ≤ℤ r
    → entry_value s (lower_allowance k r es) ≡ (if same k s then r else entry_value s es)
unfolding lower_allowance value
entry_value-lower_allowance s k (pos zero) es sorted p = elim (Bool-cases (same k s)) [
  | inl e ↦ ground (arith, e, same→≡ k s e, find-erase-put k (token_int (pos 0)) es sorted)
  | inr e ↦ ground (
    arith,
    e,
    find-erase_ne s k (put k (token_int (pos 0)) es) e,
    find-put_ne s k (token_int (pos 0)) es e,
  )
]
entry_value-lower_allowance s k (pos (suc n)) es sorted p = elim (Bool-cases (same k s)) [
  | inl e ↦ ground (arith, e, same→≡ k s e, find-put_self k (token_int (pos (suc n))) es)
  | inr e ↦ ground (arith, e, find-put_ne s k (token_int (pos (suc n))) es e)
]
entry_value-lower_allowance s k (negsuc n) es sorted p = ground arith

entry_value-spent :
    (s k : Bytes) (amount : ℤ) (es : Entries)
    → AreSorted es
    → amount ≤ℤ entry_value k es
    → entry_value k es -ℤ amount ≤ℤ int64_max
    → entry_value s (lower_allowance k (wrap64 (entry_value k es -ℤ amount)) es) +ℤ share k s amount
      ≡ entry_value s es
entry_value-spent s k amount es sorted p small =
    let r = entry_value k es -ℤ amount in
    let r_nonneg : pos 0 ≤ℤ r = omega int_laws in
    let fits : wrap64 r ≡ r = wrap64-nonneg r r_nonneg small in
    elim (Bool-cases (same k s)) [
      | inl e ↦
          rw (fits, entry_value-lower_allowance s k r es sorted r_nonneg, e)
            (omega (int_laws, parts (ap (λ x. entry_value x es) (same→≡ k s e))))
      | inr e ↦ rw (fits, entry_value-lower_allowance s k r es sorted r_nonneg, e) (omega int_laws)
    ]

module _ (split : Bytes → List Bytes) (trim strtod_rest : Bytes → Bytes) where
  -- After a transfer on another's behalf: the amount has moved, it was allowed to the caller, the
  -- caller's allowance has fallen by it and no other allowance has changed, and one event tells of it.
  abbrev pub TransferredFrom : Bytes → Bytes → Result ℤ → Host → Host → Type 0
  TransferredFrom from_addr to_address parsed h h' =
      (amount : ℤ) × (parsed ≡ ok amount)
      × Moved from_addr to_address amount h.users_map h'.users_map
      × (amount ≤ℤ allowance from_addr h.caller h)
      × ((owner spender : Bytes)
          → allowance owner spender h' +ℤ share from_addr owner (share h.caller spender amount)
            ≡ allowance owner spender h)
      × (h' ≡ record h {
        users_map = h'.users_map;
        allowed_map = h'.allowed_map;
        events = h.events ++ (transfer from_addr to_address amount ∷ []);
      })

  abbrev pub spent : Bytes → Bytes → ℤ → Host → Host
  spent from_addr to_address amount h = record h {
    users_map = after_move from_addr to_address amount h.users_map;
    allowed_map =
        insert from_addr
          (map (
            lower_allowance h.caller (wrap64 (allowance from_addr h.caller h -ℤ amount))
              (get_allowed_of_user from_addr h)))
          h.allowed_map;
    events = h.events ++ (transfer from_addr to_address amount ∷ []);
  }

  allowance-spent :
      (from_addr to_address : Bytes) (amount : ℤ) (h : Host) (owner spender : Bytes)
      → AreSorted (get_allowed_of_user from_addr h)
      → pos 0 ≤ℤ amount
      → amount ≤ℤ allowance from_addr h.caller h
      → allowance from_addr h.caller h ≤ℤ int64_max
      → allowance owner spender (spent from_addr to_address amount h)
          +ℤ share from_addr owner (share h.caller spender amount)
        ≡ allowance owner spender h
  unfolding allowance get_allowed_of_user current_fast_map_get
  allowance-spent from_addr to_address amount h owner spender sorted p q small =
      elim (Bool-cases (same from_addr owner)) [
        | inl e ↦
            rw (sym (same→≡ from_addr owner e), same_self, lookup-insert_self)
              (entry_value-spent spender h.caller amount (get_allowed_of_user from_addr h) sorted q
                (omega int_laws))
        | inr e ↦ rw (e, lookup-insert_ne owner from_addr _ h.allowed_map e) (omega int_laws)
      ]

  -- What the checks of a transfer on another's behalf have found.
  abbrev pub Spent : Bytes → Bytes → Result ℤ → Host → Host → Type 0
  Spent from_addr to_address parsed h h' =
      (amount : ℤ) × (parsed ≡ ok amount)
      × (ltb_ℤ (pos 0) amount ≡ true)
      × (ltb_ℤ (balance from_addr h.users_map) amount ≡ false)
      × (ltb_ℤ (allowance from_addr h.caller h) amount ≡ false)
      × (h' ≡ spent from_addr to_address amount h)

  checked-Spent :
      (from_addr to_address : Bytes) (amount : ℤ) (h : Host)
      → ltb_ℤ (pos 0) amount ≡ true
      → ltb_ℤ (balance from_addr h.users_map) amount ≡ false
      → ltb_ℤ (allowance from_addr h.caller h) amount ≡ false
      → Spent from_addr to_address (ok amount) h (spent from_addr to_address amount h)
  checked-Spent from_addr to_address amount h p q r = (amount, refl, p, q, r, refl)

  pub transfer_from_api-Spent :
      (api_arg : Bytes) (h : Host)
      → Outcome h
          (Spent
            (address_arg split trim strtod_rest 0 api_arg)
            (address_arg split trim strtod_rest 1 api_arg)
            (amount_arg split trim strtod_rest 2 api_arg)
            h)
          (transfer_from_api split trim strtod_rest api_arg h)
  unfolding transfer_from_api require_state parse_args get_storage_state caller_address_string
      get_string_current_contract_storage get_balance_of_user balance value allowance emit_event
      current_fast_map_set
  transfer_from_api-Spent api_arg h =
      let from_addr = address_arg split trim strtod_rest 0 api_arg in
      let to_address = address_arg split trim strtod_rest 1 api_arg in
      let es = get_allowed_of_user from_addr h in
      let sender_balance = balance from_addr h.users_map in
      elim (Option-cases (as_string h.storage.state_value)) [
        | inl no_state ↦ ground (arith, no_state)
        | inr (s, is_s) ↦ elim (Result-cases (amount_arg split trim strtod_rest 2 api_arg)) [
          | inr (x, e) ↦ ground (arith, is_s, e)
          | inl (amount, e) ↦ elim (Bool-cases (ltb_ℤ sender_balance amount)) [
            | inl short ↦ ground (arith, is_s, e, short)
            | inr enough ↦ elim (Option-cases (find h.caller es)) [
              | inl missing ↦ ground (arith, is_s, e, enough, missing)
              | inr (v, found) ↦ elim (Option-cases (force_as_int v)) [
                | inl no_integer ↦ ground (arith, is_s, e, enough, found, no_integer)
                | inr (n, is_n) ↦ ground (
                  arith,
                  is_s,
                  e,
                  enough,
                  found,
                  is_n,
                  positive_number-ok strtod_rest bad_argument _ amount e,
                  move_amount-eq from_addr to_address amount h,
                  checked-Spent from_addr to_address amount h,
                )
              ]
            ]
          ]
        ]
      ]

  Spent-TransferredFrom :
      (from_addr to_address : Bytes) (parsed : Result ℤ) (h h' : Host)
      → IsFunded h
      → AreSorted (get_allowed_of_user from_addr h)
      → allowance from_addr h.caller h ≤ℤ int64_max
      → Spent from_addr to_address parsed h h'
      → TransferredFrom from_addr to_address parsed h h'
  Spent-TransferredFrom from_addr to_address parsed h h' f sorted small
        (amount, e, positive, enough, approved_enough, is_spent) =
      let p : pos 1 ≤ℤ amount = ground arith in
      let q : amount ≤ℤ allowance from_addr h.caller h = ground arith in
      rw is_spent (
        amount,
        e,
        after_move-Moved from_addr to_address amount h.users_map f.0 f.1 p (ground arith),
        q,
        (λ owner spender.
            allowance-spent from_addr to_address amount h owner spender sorted (omega arith) q
              small),
        refl,
      )

  -- `transferFrom` by a caller, on a sound ledger where the allowances of the first address are in key
  -- order and the caller's fits an int64_t: it throws and changes nothing, or the amount moves and the
  -- allowance that the caller has from the first address falls by exactly it.
  pub transfer_from_api-TransferredFrom :
      (api_arg : Bytes) (h : Host)
      → IsFunded h
      → AreSorted (get_allowed_of_user (address_arg split trim strtod_rest 0 api_arg) h)
      → allowance (address_arg split trim strtod_rest 0 api_arg) h.caller h ≤ℤ int64_max
      → Outcome h
          (TransferredFrom
            (address_arg split trim strtod_rest 0 api_arg)
            (address_arg split trim strtod_rest 1 api_arg)
            (amount_arg split trim strtod_rest 2 api_arg)
            h)
          (transfer_from_api split trim strtod_rest api_arg h)
  transfer_from_api-TransferredFrom api_arg h f sorted small =
      let from_addr = address_arg split trim strtod_rest 0 api_arg in
      let to_address = address_arg split trim strtod_rest 1 api_arg in
      let parsed = amount_arg split trim strtod_rest 2 api_arg in
      Outcome-map h (Spent from_addr to_address parsed h)
        (TransferredFrom from_addr to_address parsed h)
        (transfer_from_api split trim strtod_rest api_arg h)
        (λ h' s. Spent-TransferredFrom from_addr to_address parsed h h' f sorted small s)
        (transfer_from_api-Spent api_arg h)
