-- ===== src/Token/Moves.antt =====
-- `move_amount`: what the stores that move an amount do to the ledger.
use uvm.Base.{◌≡◌, refl, ap, arith, inl, inr}
use uvm.Base.{if◌then◌else◌, Bool-cases}
use uvm.Base.Dict.{Dict, same, same→≡, insert}
use uvm.Base.Int.{ℤ, pos, parts, ◌+ℤ◌, ◌-ℤ◌, ◌≤ℤ◌, ltb_ℤ, int_laws}
use uvm.Cbor.Value.{Bytes, CborObject, scalar, null}
use uvm.Token.Host.{Host, ok}
use uvm.Token.Numbers.{wrap64}
use uvm.Token.Contract.{token_int, move_amount}
use uvm.Token.Balances.{
  value, balance, total, IsLedger, int64_max, wrap64-nonneg, value-null, value-token_int,
  balance-insert, total-insert, insert-IsLedger, balance_nonneg, balance_le_total,
}

-- What a user `k` has of an amount that the user `a` gives or gets.
abbrev pub share : Bytes → Bytes → ℤ → ℤ
share a k amount = if same a k then amount else pos 0

-- From `d` to `d'` the amount has moved: the ledger is one still, with the same total, and every
-- balance has changed by exactly what its user gave and got.
abbrev pub Moved : Bytes → Bytes → ℤ → Dict CborObject → Dict CborObject → Type 0
Moved from_addr to_address amount d d' =
    IsLedger d'
    × (total d' ≡ total d)
    × ((k : Bytes)
        → balance k d' +ℤ share from_addr k amount ≡ balance k d +ℤ share to_address k amount)

abbrev pub remaining : ℤ → CborObject
remaining remain = if ltb_ℤ (pos 0) remain then token_int remain else scalar null

value-remaining : (i : ℤ) → pos 0 ≤ℤ i → value (remaining i) ≡ i
value-remaining i p = elim (Bool-cases (ltb_ℤ (pos 0) i)) [
  | inl e ↦ rw e (value-token_int i)
  | inr e ↦ rw (e, value-null) (ground arith)
]

module _ (from_addr to_address : Bytes) (amount : ℤ) (d : Dict CborObject) where
  abbrev without : Dict CborObject
  without = insert from_addr (remaining (wrap64 (balance from_addr d -ℤ amount))) d

  abbrev pub after_move : Dict CborObject
  after_move = insert to_address (token_int (wrap64 (balance to_address without +ℤ amount))) without

  module _ (valid : IsLedger d) (small : total d ≤ℤ int64_max) (positive : pos 1 ≤ℤ amount)
      (enough : amount ≤ℤ balance from_addr d) where
    remain-eq : wrap64 (balance from_addr d -ℤ amount) ≡ balance from_addr d -ℤ amount
    remain-eq =
        wrap64-nonneg _ (omega int_laws) (omega (int_laws, balance_le_total from_addr d valid))

    remaining-value :
        value (remaining (wrap64 (balance from_addr d -ℤ amount))) ≡ balance from_addr d -ℤ amount
    remaining-value =
        rw remain-eq (value-remaining (balance from_addr d -ℤ amount) (omega int_laws))

    without-IsLedger : IsLedger without
    without-IsLedger = insert-IsLedger from_addr _ d (omega (int_laws, parts remaining-value)) valid

    total-without : total without ≡ total d -ℤ amount
    total-without = omega (
      int_laws,
      parts remaining-value,
      parts (total-insert from_addr (remaining (wrap64 (balance from_addr d -ℤ amount))) d),
    )

    added-eq : wrap64 (balance to_address without +ℤ amount) ≡ balance to_address without +ℤ amount
    added-eq =
        wrap64-nonneg _ (omega (int_laws, balance_nonneg to_address without without-IsLedger)) (
          omega
            (int_laws, balance_le_total to_address without without-IsLedger, parts total-without))

    added-value :
        value (token_int (wrap64 (balance to_address without +ℤ amount)))
        ≡ balance to_address without +ℤ amount
    added-value = rw (added-eq, value-token_int) refl

    after_move-IsLedger : IsLedger after_move
    after_move-IsLedger =
        insert-IsLedger to_address _ without
          (omega (int_laws, parts added-value, balance_nonneg to_address without without-IsLedger))
          without-IsLedger

    total-after_move : total after_move ≡ total d
    total-after_move = omega (
      int_laws,
      parts added-value,
      parts total-without,
      parts (
          total-insert to_address (token_int (wrap64 (balance to_address without +ℤ amount)))
            without),
    )

    balance-without : (k : Bytes) → balance k without +ℤ share from_addr k amount ≡ balance k d
    balance-without k = elim (Bool-cases (same from_addr k)) [
      | inl e ↦
          rw (balance-insert, e, remaining-value)
            (omega (int_laws, parts (ap (λ x. balance x d) (same→≡ from_addr k e))))
      | inr e ↦ rw (balance-insert, e) (omega int_laws)
    ]

    balance-added :
        (k : Bytes) → balance k after_move ≡ balance k without +ℤ share to_address k amount
    balance-added k = elim (Bool-cases (same to_address k)) [
      | inl e ↦
          rw (balance-insert k to_address, e, added-value)
            (ap (λ x. balance x without +ℤ amount) (same→≡ to_address k e))
      | inr e ↦ rw (balance-insert k to_address, e) (omega int_laws)
    ]

    balance-after_move :
        (k : Bytes)
        → balance k after_move +ℤ share from_addr k amount
          ≡ balance k d +ℤ share to_address k amount
    balance-after_move k = omega (int_laws, parts (balance-without k), parts (balance-added k))

    pub after_move-Moved : Moved from_addr to_address amount d after_move
    after_move-Moved = (after_move-IsLedger, total-after_move, balance-after_move)

-- The stores change nothing but the ledger.
pub move_amount-eq :
    (from_addr to_address : Bytes) (amount : ℤ) (h : Host)
    → move_amount from_addr to_address amount h
      ≡ (ok tt, record h { users_map = after_move from_addr to_address amount h.users_map })
unfolding move_amount balance value
move_amount-eq from_addr to_address amount h = refl
