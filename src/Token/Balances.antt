-- ===== src/Token/Balances.antt =====
-- The fast map `users` as a ledger: the balances that it holds, their total, and how
-- `current_fast_map_set` changes them.
use uvm.Base.{⊤, ◌-◌, ◌^◌, ◌≡◌, refl, arith, inl, inr, [], ◌∷◌}
use uvm.Base.{none, if◌then◌else◌, Bool-cases}
use uvm.Base.Dict.{
  Dict, same, same-sym, same→≡, lookup, insert, lookup-insert_self, lookup-insert_ne,
}
use uvm.Base.Int.{ℤ, pos, negsuc, parts, ◌+ℤ◌, ◌≤ℤ◌, int_laws}
use uvm.Cbor.Value.{Bytes, CborObject, scalar, null, force_as_int}
use uvm.Token.Host.{or_null}
use uvm.Token.Numbers.{wrap64}
use uvm.Token.Contract.{amount_of, token_int}

unfoldable pub value : CborObject → ℤ
unfolding force_as_int
value v = amount_of (force_as_int v)

unfoldable pub balance : Bytes → Dict CborObject → ℤ
unfolding lookup value
balance k d = value (or_null (lookup k d))

unfoldable pub total : Dict CborObject → ℤ
unfolding value
total [] = pos 0
total ((k, v) ∷ d) = value v +ℤ total d

-- No user stands twice in the map, and no balance is negative.
unfoldable pub IsLedger : Dict CborObject → Type 0
unfolding lookup value
IsLedger [] = ⊤
IsLedger ((k, v) ∷ d) = (pos 0 ≤ℤ value v) × (lookup k d ≡ none) × IsLedger d

abbrev pub int64_max : ℤ
int64_max = pos (2 ^ 63 - 1)

-- An int64_t that is not negative is its own wrap-around.
pub wrap64-nonneg : (i : ℤ) → pos 0 ≤ℤ i → i ≤ℤ int64_max → wrap64 i ≡ i
unfolding wrap64
wrap64-nonneg (pos n) p q = ground arith
wrap64-nonneg (negsuc n) p q = ground arith

pub value-null : value (scalar null) ≡ pos 0
unfolding value
value-null = refl

pub value-token_int : (i : ℤ) → value (token_int i) ≡ i
unfolding value
value-token_int i = refl

pub balance-insert :
    (k j : Bytes) (v : CborObject) (d : Dict CborObject)
    → balance k (insert j v d) ≡ (if same j k then value v else balance k d)
unfolding balance
balance-insert k j v d = elim (Bool-cases (same j k)) [
  | inl e ↦ ground (arith, e, same→≡ j k e, lookup-insert_self k v d)
  | inr e ↦ ground (arith, e, lookup-insert_ne k j v d e)
]

-- Storing a value changes the total by the difference to the old one.
pub total-insert :
    (k : Bytes) (v : CborObject) (d : Dict CborObject)
    → total (insert k v d) +ℤ balance k d ≡ total d +ℤ value v
unfolding total balance insert
total-insert k v [] = omega int_laws
total-insert k v ((j, w) ∷ d) = elim (Bool-cases (same j k)) [
  | inl e ↦ rw e (omega int_laws)
  | inr e ↦ rw e (omega (int_laws, parts (total-insert k v d)))
]

pub insert-IsLedger :
    (k : Bytes) (v : CborObject) (d : Dict CborObject)
    → pos 0 ≤ℤ value v
    → IsLedger d
    → IsLedger (insert k v d)
unfolding IsLedger insert
insert-IsLedger k v [] p h = (p, refl, tt)
insert-IsLedger k v ((j, w) ∷ d) p h = elim (Bool-cases (same j k)) [
  | inl e ↦ ground (arith, e)
  | inr e ↦ ground (arith, e, insert-IsLedger k v d p h.2, lookup-insert_ne j k v d, same-sym j k)
]

pub balance_nonneg : (k : Bytes) (d : Dict CborObject) → IsLedger d → pos 0 ≤ℤ balance k d
unfolding IsLedger balance
balance_nonneg k [] h = omega arith
balance_nonneg k ((j, w) ∷ d) h = ground (arith, balance_nonneg k d h.2)

pub total_nonneg : (d : Dict CborObject) → IsLedger d → pos 0 ≤ℤ total d
unfolding IsLedger total
total_nonneg [] h = omega arith
total_nonneg ((j, w) ∷ d) h = omega (int_laws, total_nonneg d h.2, h.0)

pub balance_le_total : (k : Bytes) (d : Dict CborObject) → IsLedger d → balance k d ≤ℤ total d
unfolding IsLedger balance total
balance_le_total k [] h = omega arith
balance_le_total k ((j, w) ∷ d) h = grind (int_laws, balance_le_total k d h.2, total_nonneg d h.2)
