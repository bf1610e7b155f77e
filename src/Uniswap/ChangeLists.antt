-- ===== src/Uniswap/ChangeLists.antt =====
-- The list of changes that `transfer_to_address` of simplechain/src/simplechain/native_contract.cpp goes through and
-- adds to.
use uvm.Base.{
  ℕ, ◌≡◌, refl, arith, Bool, true, false, ◌&&◌, inl, inr, Bool-cases, List, [], ◌∷◌, ◌==◌,
  if◌then◌else◌,
}
use uvm.Base.Dict.{same, same_self, same_trans, same-sym}
use uvm.Base.Int.{ℤ, pos, ◌-ℤ◌, ◌+ℤ◌}
use uvm.Cbor.Value.{Bytes}
use uvm.Token.Numbers.{wrap64}
use uvm.Uniswap.Host.{is_pair, change_all, contract_found, to_found, put_change}

-- The change for an address and an asset, 0 where there is none.
unfoldable pub change_at : Bytes → ℕ → List ((Bytes × ℕ) × ℤ) → ℤ
change_at addr id [] = pos 0
change_at addr id ((pair, change) ∷ changes) =
    if is_pair addr id pair then change else change_at addr id changes

-- Whether there is one.
unfoldable pub has_change : Bytes → ℕ → List ((Bytes × ℕ) × ℤ) → Bool
has_change addr id [] = false
has_change addr id ((pair, change) ∷ changes) =
    if is_pair addr id pair then true else has_change addr id changes

pub contract_found_lem :
    (addr : Bytes) (id : ℕ) (cs : List ((Bytes × ℕ) × ℤ))
    → contract_found addr id cs ≡ has_change addr id cs
unfolding contract_found has_change
contract_found_lem addr id [] = refl
contract_found_lem addr id ((pair, change) ∷ cs) = ground (arith, contract_found_lem addr id cs)

pub change_at-none :
    (addr : Bytes) (id : ℕ) (cs : List ((Bytes × ℕ) × ℤ))
    → has_change addr id cs ≡ false
    → change_at addr id cs ≡ pos 0
unfolding change_at has_change
change_at-none addr id [] h = refl
change_at-none addr id ((pair, change) ∷ cs) h = ground (arith, change_at-none addr id cs)

-- Two pairs of an address and an asset differ.
abbrev pub Apart : Bytes → ℕ → Bytes → ℕ → Type 0
Apart a i b j = same a b && (i == j) ≡ false

pub Apart-sym : (a : Bytes) (i : ℕ) (b : Bytes) (j : ℕ) → Apart a i b j → Apart b j a i
Apart-sym a i b j ne = ground (arith, ne, same-sym a b)

pub pair_ne :
    (a : Bytes) (i : ℕ) (b : Bytes) (j : ℕ) (pair : Bytes × ℕ)
    → Apart a i b j
    → is_pair a i pair ≡ true
    → is_pair b j pair ≡ false
pair_ne a i b j (c, k) ne h = elim (Bool-cases (same c a)) [
  | inl e ↦ ground (arith, ne, h, e, same_trans c a b e)
  | inr e ↦ ground (arith, h, e)
]

pub put_change_self :
    (addr : Bytes) (id : ℕ) (v : ℤ) (cs : List ((Bytes × ℕ) × ℤ))
    → change_at addr id (put_change addr id v cs) ≡ v
unfolding change_at put_change
put_change_self addr id v [] = ground (arith, same_self addr)
put_change_self addr id v ((pair, change) ∷ cs) = ground (arith, put_change_self addr id v cs)

pub put_change-other :
    (a : Bytes) (i : ℕ) (b : Bytes) (j : ℕ) (v : ℤ) (cs : List ((Bytes × ℕ) × ℤ))
    → Apart a i b j
    → change_at b j (put_change a i v cs) ≡ change_at b j cs
unfolding change_at put_change
put_change-other a i b j v [] ne = ground (arith, ne)
put_change-other a i b j v ((pair, change) ∷ cs) ne = elim (Bool-cases (is_pair a i pair)) [
  | inl e ↦ ground (arith, e, pair_ne a i b j pair ne e)
  | inr e ↦ ground (arith, e, put_change-other a i b j v cs ne)
]

pub has_change-rest :
    (addr : Bytes) (id : ℕ) (pair : Bytes × ℕ) (change : ℤ) (cs : List ((Bytes × ℕ) × ℤ))
    → has_change addr id ((pair, change) ∷ cs) ≡ true
    → is_pair addr id pair ≡ false
    → has_change addr id cs ≡ true
unfolding has_change
has_change-rest addr id pair change cs h e = ground (arith, h, e)

pub change_all-from :
    (from_address to_address : Bytes) (id : ℕ) (amount : ℤ) (cs : List ((Bytes × ℕ) × ℤ))
    → has_change from_address id cs ≡ true
    → change_at from_address id (change_all from_address to_address id amount cs)
      ≡ wrap64 (change_at from_address id cs -ℤ amount)
unfolding change_at change_all has_change
change_all-from from_address to_address id amount [] h = cc
change_all-from from_address to_address id amount ((pair, change) ∷ cs) h =
    elim (Bool-cases (is_pair from_address id pair)) [
      | inl e ↦ rw (e) refl
      | inr e ↦ rw (e) (
          change_all-from from_address to_address id amount cs
            (has_change-rest from_address id pair change cs h e))
    ]

pub change_all-to :
    (from_address to_address : Bytes) (id : ℕ) (amount : ℤ) (cs : List ((Bytes × ℕ) × ℤ))
    → Apart to_address id from_address id
    → has_change to_address id cs ≡ true
    → change_at to_address id (change_all from_address to_address id amount cs)
      ≡ wrap64 (change_at to_address id cs +ℤ amount)
unfolding change_at change_all has_change
change_all-to from_address to_address id amount [] ne h = cc
change_all-to from_address to_address id amount ((pair, change) ∷ cs) ne h =
    elim (Bool-cases (is_pair to_address id pair)) [
      | inl e ↦ rw (e, pair_ne to_address id from_address id pair ne e) refl
      | inr e ↦ rw (e) (
          change_all-to from_address to_address id amount cs ne
            (has_change-rest to_address id pair change cs h e))
    ]

pub change_all-other :
    (from_address to_address : Bytes) (id : ℕ) (amount : ℤ) (a : Bytes) (i : ℕ)
    (cs : List ((Bytes × ℕ) × ℤ))
    → Apart a i from_address id
    → Apart a i to_address id
    → change_at a i (change_all from_address to_address id amount cs) ≡ change_at a i cs
unfolding change_at change_all
change_all-other from_address to_address id amount a i [] ne ne' = refl
change_all-other from_address to_address id amount a i ((pair, change) ∷ cs) ne ne' =
    elim (Bool-cases (is_pair a i pair)) [
      | inl e ↦
          rw (e, pair_ne a i from_address id pair ne e, pair_ne a i to_address id pair ne' e) refl
      | inr e ↦ rw (e) (change_all-other from_address to_address id amount a i cs ne ne')
    ]

pub to_found_lem :
    (from_address to_address : Bytes) (id : ℕ) (cs : List ((Bytes × ℕ) × ℤ))
    → Apart to_address id from_address id
    → to_found from_address to_address id cs ≡ has_change to_address id cs
unfolding to_found has_change
to_found_lem from_address to_address id [] ne = refl
to_found_lem from_address to_address id ((pair, change) ∷ cs) ne =
    elim (Bool-cases (is_pair to_address id pair)) [
      | inl e ↦ rw (e, pair_ne to_address id from_address id pair ne e) refl
      | inr e ↦ ground (arith, e, to_found_lem from_address to_address id cs ne)
    ]
