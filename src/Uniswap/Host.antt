-- ===== src/Uniswap/Host.antt =====
-- The state of a uniswap contract and what it calls of its host: the state of the token contract that
-- it extends, and its own storages and fast maps. `native_contract_store::transfer_to_address` and
-- `fast_map_set` are those of simplechain/src/simplechain/native_contract.cpp.
use uvm.Base.{
  ℕ, ⊤, Bool, true, false, ◌&&◌, not, List, [], ◌∷◌, ◌++◌, Option, none, some, if◌then◌else◌, ◌==◌,
}
use uvm.Base.Dict.{Dict, lookup, insert, same}
use uvm.Base.Int.{ℤ, pos, ◌+ℤ◌, ◌-ℤ◌}
use uvm.Cbor.Value.{Bytes, CborObject, force_as_int}
use uvm.Token
use uvm.Token.Host.{Host, or_null, as_string}
use uvm.Token.Numbers.{wrap64}
use uvm.Safe.Word.{Outcome, done, domain_error, invalid_argument, no_fuel}

-- The exceptions of the contract by what their messages say, those of the token contract, and those
-- of the safe numbers.
pub data Error : Type 0 where
  token : Token.Host.Error → Error
  bad_state inited_before bad_argument not_positive same_assets bad_fee_rate : Error
  expired below_minimum price_moved no_balance not_enough not_unified no_tokens too_large : Error
  not_enough_liquidity empty_pool bad_remove_amount bad_symbol same_symbol : Error
  nothing_left pool_not_enough nothing_bought price_not_met bad_pool supply_exceeded : Error
  invalid_symbol api_not_found bad_number : Error

pub data Result {ℓ} (A : Type ℓ) : Type ℓ where
  ok : A → Result A
  err : Error → Result A

-- The storages that the contract adds to those of a token contract.
pub data StorageName : Type 0 where
  fee_rate asset_1_symbol asset_2_symbol asset_1_pool_amount asset_2_pool_amount : StorageName
  min_asset1_amount min_asset2_amount : StorageName

pub record Storage : Type 0 where
  pub fee_rate_value : CborObject
  pub asset_1_symbol_value : CborObject
  pub asset_2_symbol_value : CborObject
  pub asset_1_pool_amount_value : CborObject
  pub asset_2_pool_amount_value : CborObject
  pub min_asset1_amount_value : CborObject
  pub min_asset2_amount_value : CborObject

-- The events with their arguments; their JSON text is not modelled.
pub data Event : Type 0 where
  set_min_add_amount : Bytes → Event
  inited : Bytes → Bytes → Bytes → Bytes → Bytes → ℤ → ℤ → Event
  liquidity_added liquidity_removed : Bytes → ℤ → Bytes → ℤ → Event
  liquidity_token_minted liquidity_token_destoryed : ℤ → Event
  transfer : Bytes → Bytes → ℤ → Event
  deposited withdrawed : Bytes → Bytes → ℤ → Event
  exchanged : Bytes → ℤ → Bytes → ℤ → Bytes → ℤ → Event

-- `assets` holds the fast maps that are named by an address, each entry under its full key; `users`
-- and `allowed` stand in the state of the token contract. `balance_changes` are the changes of the
-- evaluation's result, for an address and the id of an asset.
pub record Pool : Type 0 where
  pub base : Host
  pub storage : Storage
  pub assets : Dict CborObject
  pub events : List Event
  pub contract_address : Bytes
  pub head_block : ℕ
  pub asset_ids : Dict ℕ
  pub balance_changes : List ((Bytes × ℕ) × ℤ)

abbrev pub Action {ℓ} : Type ℓ → Type ℓ
Action A = Pool → Result A × Pool

module _ {ℓ} {A : Type ℓ} where
  abbrev pub pure : A → Action A
  pure a p = (ok a, p)

  abbrev pub throw_error : Error → Action A
  throw_error e p = (err e, p)

  abbrev pub gets : (Pool → A) → Action A
  gets f p = (ok (f p), p)

  abbrev pub or_throw : Option A → Error → Action A
  or_throw none e p = (err e, p)
  or_throw (some a) e p = (ok a, p)

  abbrev pub of_token : Token.Host.Result A → Action A
  of_token (Token.Host.ok a) p = (ok a, p)
  of_token (Token.Host.err e) p = (err (token e), p)

  abbrev pub of_number : Outcome A → Action A
  of_number (done a) p = (ok a, p)
  of_number domain_error p = (err bad_number, p)
  of_number invalid_argument p = (err bad_number, p)
  of_number no_fuel p = (err bad_number, p)

abbrev pub after {ℓ κ} :
    {A : Type ℓ} {B : Type κ} → (A → Action B) → Result A × Pool → Result B × Pool
after f (ok a, p) = f a p
after f (err e, p) = (err e, p)

infixl 5 ◌>>=◌ ◌>>◌
unfoldable pub ◌>>=◌ {ℓ κ} : {A : Type ℓ} {B : Type κ} → Action A → (A → Action B) → Action B
◌>>=◌ m f p = after f (m p)

abbrev pub ◌>>◌ {ℓ κ} : {A : Type ℓ} {B : Type κ} → Action A → Action B → Action B
m >> k = m >>= λ _. k

abbrev pub throw_if : Bool → Error → Action ⊤
throw_if c e p = (if c then err e else ok tt, p)

abbrev pub modify : (Pool → Pool) → Action ⊤
modify f p = (ok tt, f p)

-- A call of the token contract that this one extends, or of the host that both have.
module _ {A : Type 0} where
  abbrev wrap : Token.Host.Result A → Result A
  wrap (Token.Host.ok a) = ok a
  wrap (Token.Host.err e) = err (token e)

  abbrev pub super : Token.Host.Action A → Action A
  super m p = let (r, h) = m p.base in (wrap r, record p { base = h })

abbrev pub storage_value : StorageName → Storage → CborObject
storage_value fee_rate s = s.fee_rate_value
storage_value asset_1_symbol s = s.asset_1_symbol_value
storage_value asset_2_symbol s = s.asset_2_symbol_value
storage_value asset_1_pool_amount s = s.asset_1_pool_amount_value
storage_value asset_2_pool_amount s = s.asset_2_pool_amount_value
storage_value min_asset1_amount s = s.min_asset1_amount_value
storage_value min_asset2_amount s = s.min_asset2_amount_value

abbrev pub with_storage_value : StorageName → CborObject → Storage → Storage
with_storage_value fee_rate v s = record s { fee_rate_value = v }
with_storage_value asset_1_symbol v s = record s { asset_1_symbol_value = v }
with_storage_value asset_2_symbol v s = record s { asset_2_symbol_value = v }
with_storage_value asset_1_pool_amount v s = record s { asset_1_pool_amount_value = v }
with_storage_value asset_2_pool_amount v s = record s { asset_2_pool_amount_value = v }
with_storage_value min_asset1_amount v s = record s { min_asset1_amount_value = v }
with_storage_value min_asset2_amount v s = record s { min_asset2_amount_value = v }

unfoldable pub set_storage : StorageName → CborObject → Action ⊤
set_storage n v = modify (λ p. record p { storage = with_storage_value n v p.storage })

unfoldable pub get_string_storage : StorageName → Action Bytes
get_string_storage n p =
    or_throw (as_string (storage_value n p.storage)) (token Token.Host.Error.invalid_string_storage)
      p

unfoldable pub get_int_storage : StorageName → Action ℤ
get_int_storage n p =
    or_throw (force_as_int (storage_value n p.storage)) (token Token.Host.Error.invalid_int_storage)
      p

-- `storage_name + "." + key`
abbrev pub full_key : Bytes → Bytes → Bytes
full_key storage_name key = storage_name ++ (b'.' ∷ key)

unfoldable pub fast_map_get : Bytes → Bytes → Pool → CborObject
fast_map_get storage_name key p = or_null (lookup (full_key storage_name key) p.assets)

unfoldable pub fast_map_set : Bytes → Bytes → CborObject → Action ⊤
fast_map_set storage_name key v =
    modify (λ p. record p { assets = insert (full_key storage_name key) v p.assets })

unfoldable pub emit : Event → Action ⊤
emit e = modify (λ p. record p { events = p.events ++ (e ∷ []) })

abbrev pub is_pair : Bytes → ℕ → Bytes × ℕ → Bool
is_pair addr id (a, i) = same a addr && (i == id)

-- One round of the loop of `transfer_to_address`.
abbrev change_of : Bytes → Bytes → ℕ → ℤ → Bytes × ℕ → ℤ → ℤ
change_of from_address to_address id amount pair change =
    if is_pair from_address id pair
    then wrap64 (change -ℤ amount)
    else if is_pair to_address id pair
    then wrap64 (change +ℤ amount)
    else change

unfoldable pub change_all : Bytes → Bytes → ℕ → ℤ → List ((Bytes × ℕ) × ℤ) → List ((Bytes × ℕ) × ℤ)
change_all from_address to_address id amount [] = []
change_all from_address to_address id amount ((pair, change) ∷ changes) =
    (pair, change_of from_address to_address id amount pair change)
    ∷ change_all from_address to_address id amount changes

-- `contract_balance_pair_found`, and `to_pair_found`, which a pair of the contract's does not set.
unfoldable pub contract_found : Bytes → ℕ → List ((Bytes × ℕ) × ℤ) → Bool
contract_found from_address id [] = false
contract_found from_address id ((pair, change) ∷ changes) =
    if is_pair from_address id pair then true else contract_found from_address id changes

unfoldable pub to_found : Bytes → Bytes → ℕ → List ((Bytes × ℕ) × ℤ) → Bool
to_found from_address to_address id [] = false
to_found from_address to_address id ((pair, change) ∷ changes) =
    if not (is_pair from_address id pair) && is_pair to_address id pair
    then true
    else to_found from_address to_address id changes

-- `account_balances_changes[p] = change`
unfoldable pub put_change : Bytes → ℕ → ℤ → List ((Bytes × ℕ) × ℤ) → List ((Bytes × ℕ) × ℤ)
put_change addr id change [] = ((addr, id), change) ∷ []
put_change addr id change ((pair, old) ∷ changes) =
    if is_pair addr id pair
    then (pair, change) ∷ changes
    else (pair, old) ∷ put_change addr id change changes

unfoldable pub changed : Bytes → Bytes → ℕ → ℤ → List ((Bytes × ℕ) × ℤ) → List ((Bytes × ℕ) × ℤ)
unfolding change_all contract_found to_found put_change
changed from_address to_address id amount changes =
    let moved = change_all from_address to_address id amount changes in
    let paid =
      if contract_found from_address id changes
      then moved
      else put_change from_address id (wrap64 (pos 0 -ℤ amount)) moved in
    if to_found from_address to_address id changes
    then paid
    else put_change to_address id (wrap64 (amount)) paid

-- `current_transfer_to_address`; the amount, a uint64_t there, is read as an int64_t again.
unfoldable pub transfer_to_address : Bytes → Bytes → ℤ → Action ⊤
unfolding changed
transfer_to_address to_address symbol amount = do
  ids ← gets (λ p. p.asset_ids)
  id ← or_throw (lookup symbol ids) invalid_symbol
  modify (λ p. record p {
    balance_changes = changed p.contract_address to_address id amount p.balance_changes;
  })
