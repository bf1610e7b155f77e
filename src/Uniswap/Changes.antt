-- ===== src/Uniswap/Changes.antt =====
-- What `transfer_to_address` of simplechain/src/simplechain/native_contract.cpp does to the changes of an
-- evaluation's result.
use uvm.Base.{ℕ, ◌≡◌, refl, ◌∙◌, arith, false, inl, inr, Bool-cases, List, [], ◌∷◌, if◌then◌else◌}
use uvm.Base.Int.{ℤ, pos, negsuc, ◌-ℤ◌, ◌+ℤ◌}
use uvm.Cbor.Value.{Bytes}
use uvm.Token.Numbers.{wrap64}
use uvm.Uniswap.Host.{change_all, contract_found, to_found, put_change, changed}
use uvm.Uniswap.ChangeLists.{
  change_at, has_change, contract_found_lem, change_at-none, Apart, Apart-sym, put_change_self,
  put_change-other, change_all-from, change_all-to, change_all-other, to_found_lem,
}

module _ (from_address to_address : Bytes) (id : ℕ) (amount : ℤ) (cs : List ((Bytes × ℕ) × ℤ))
    (ne : Apart to_address id from_address id) where
  abbrev moved : List ((Bytes × ℕ) × ℤ)
  moved = change_all from_address to_address id amount cs

  abbrev paid : List ((Bytes × ℕ) × ℤ)
  paid =
      if contract_found from_address id cs
      then moved
      else put_change from_address id (wrap64 (pos 0 -ℤ amount)) moved

  paid-from : change_at from_address id paid ≡ wrap64 (change_at from_address id cs -ℤ amount)
  paid-from = elim (Bool-cases (has_change from_address id cs)) [
    | inl e ↦
        rw (contract_found_lem from_address id cs, e)
          (change_all-from from_address to_address id amount cs e)
    | inr e ↦
        rw (contract_found_lem from_address id cs, e, change_at-none from_address id cs e)
          (put_change_self from_address id (wrap64 (pos 0 -ℤ amount)) moved)
  ]

  paid-other :
      (a : Bytes) (i : ℕ) → Apart from_address id a i → change_at a i paid ≡ change_at a i moved
  paid-other a i ne' = elim (Bool-cases (contract_found from_address id cs)) [
    | inl e ↦ rw (e) refl
    | inr e ↦ rw (e) (put_change-other from_address id a i (wrap64 (pos 0 -ℤ amount)) moved ne')
  ]

  zero_add : (n : ℤ) → pos 0 +ℤ n ≡ n
  unfolding ◌+ℤ◌
  zero_add (pos n) = ground arith
  zero_add (negsuc n) = ground arith

  changed-from :
      change_at from_address id (changed from_address to_address id amount cs)
      ≡ wrap64 (change_at from_address id cs -ℤ amount)
  unfolding changed
  changed-from = elim (Bool-cases (has_change to_address id cs)) [
    | inl e ↦ rw (to_found_lem from_address to_address id cs ne, e) paid-from
    | inr e ↦
        rw (to_found_lem from_address to_address id cs ne, e)
          (put_change-other to_address id from_address id (wrap64 amount) paid ne ∙ paid-from)
  ]

  changed-to :
      change_at to_address id (changed from_address to_address id amount cs)
      ≡ wrap64 (change_at to_address id cs +ℤ amount)
  unfolding changed
  changed-to = elim (Bool-cases (has_change to_address id cs)) [
    | inl e ↦
        rw (to_found_lem from_address to_address id cs ne, e)
          (paid-other to_address id (Apart-sym to_address id from_address id ne)
            ∙ change_all-to from_address to_address id amount cs ne e)
    | inr e ↦
        rw
          (
            to_found_lem from_address to_address id cs ne,
            e,
            change_at-none to_address id cs e,
            zero_add amount,
          )
          (put_change_self to_address id (wrap64 amount) paid)
  ]

  changed-other :
      (a : Bytes) (i : ℕ)
      → Apart a i from_address id
      → Apart a i to_address id
      → change_at a i (changed from_address to_address id amount cs) ≡ change_at a i cs
  unfolding changed
  changed-other a i ne' ne'' =
      let kept =
        paid-other a i (Apart-sym a i from_address id ne')
        ∙ change_all-other from_address to_address id amount a i cs ne' ne'' in
      elim (Bool-cases (has_change to_address id cs)) [
        | inl e ↦ rw (to_found_lem from_address to_address id cs ne, e) kept
        | inr e ↦
            rw (to_found_lem from_address to_address id cs ne, e)
              (put_change-other to_address id a i (wrap64 amount) paid
                  (Apart-sym a i to_address id ne'')
                ∙ kept)
      ]

-- A payment from the contract to another address lowers the change of the contract for the asset by the
-- amount and raises the one of the address by it, as an int64_t each; no other change is touched.
pub changed_lem :
    (from_address to_address : Bytes) (id : ℕ) (amount : ℤ) (cs : List ((Bytes × ℕ) × ℤ))
    (a : Bytes) (i : ℕ)
    → Apart to_address id from_address id
    → Apart a i from_address id
    → Apart a i to_address id
    → (change_at from_address id (changed from_address to_address id amount cs)
        ≡ wrap64 (change_at from_address id cs -ℤ amount))
      × (change_at to_address id (changed from_address to_address id amount cs)
          ≡ wrap64 (change_at to_address id cs +ℤ amount))
      × (change_at a i (changed from_address to_address id amount cs) ≡ change_at a i cs)
changed_lem from_address to_address id amount cs a i ne ne' ne'' = (
  changed-from from_address to_address id amount cs ne,
  changed-to from_address to_address id amount cs ne,
  changed-other from_address to_address id amount cs ne a i ne' ne'',
)

to_found_self :
    (addr : Bytes) (id : ℕ) (cs : List ((Bytes × ℕ) × ℤ)) → to_found addr addr id cs ≡ false
unfolding to_found
to_found_self addr id [] = refl
to_found_self addr id ((pair, change) ∷ cs) = ground (arith, to_found_self addr id cs)

pub changed-both :
    (from_address to_address : Bytes) (id : ℕ) (amount : ℤ) (cs : List ((Bytes × ℕ) × ℤ))
    → Apart to_address id from_address id
    → (change_at from_address id (changed from_address to_address id amount cs)
        ≡ wrap64 (change_at from_address id cs -ℤ amount))
      × (change_at to_address id (changed from_address to_address id amount cs)
          ≡ wrap64 (change_at to_address id cs +ℤ amount))
changed-both from_address to_address id amount cs ne = (
  changed-from from_address to_address id amount cs ne,
  changed-to from_address to_address id amount cs ne,
)

-- A payment to the contract itself leaves the amount as its change, whatever the change was.
changed_self :
    (addr : Bytes) (id : ℕ) (amount : ℤ) (cs : List ((Bytes × ℕ) × ℤ))
    → change_at addr id (changed addr addr id amount cs) ≡ wrap64 amount
unfolding changed
changed_self addr id amount cs =
    rw (to_found_self addr id cs) (put_change_self addr id (wrap64 amount) _)
