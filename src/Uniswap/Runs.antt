-- ===== src/Uniswap/Runs.antt =====
-- How the calls that the apis of src/native_contract/native_uniswap_contract.cpp share run.
use uvm.Base.{ℕ, ap, ◌∙◌, Bool, false, true, ◌≡◌, refl, some, [], ◌∷◌, ◌++◌}
use uvm.Base.Dict.{lookup}
use uvm.Base.Int.{ℤ}
use uvm.Cbor.Value.{Bytes, force_as_int}
use uvm.Token
use uvm.Token.Host.{as_string}
use uvm.Safe.Word.{Outcome, done}
use uvm.Uniswap.Host.{
  Pool, err, fast_map_get, after, gets, Action, Result, Error, ◌>>=◌, throw_if, of_number, Event,
  StorageName, ok, changed, storage_value, get_string_storage, get_int_storage, transfer_to_address,
  emit,
}
use uvm.Base.Dict.{same_self}
use uvm.Token.Contract.{common_state}
use uvm.Base.{not, List, length, ◌==◌}
use uvm.Uniswap.Contract.{require_common, parse_args, get_from_address, require_balance}

-- A call that gives a, and what follows it.
pub bind-run {ℓ κ} :
    {A : Type ℓ} {B : Type κ} {p p' : Pool} {a : A} {t : Result B × Pool}
    → (m : Action A) (f : A → Action B) → m p ≡ (ok a, p')
    → f a p' ≡ t
    → (m >>= f) p ≡ t
unfolding ◌>>=◌
bind-run m f e run = ap (after f) e ∙ run

pub pass-run : (c : Bool) (e : Error) {p : Pool} → c ≡ false → throw_if c e p ≡ (ok tt, p)
pass-run c e h = rw (h) refl

pub number-run :
    {A : Type 0} {o : Outcome A} {a : A} {p : Pool} → o ≡ done a → of_number o p ≡ (ok a, p)
number-run e = rw (e) refl

pub get_string-run :
    (n : StorageName) (s : Bytes) (p : Pool)
    → as_string (storage_value n p.storage) ≡ some s
    → get_string_storage n p ≡ (ok s, p)
unfolding get_string_storage
get_string-run n s p e = rw (e) refl

pub get_int-run :
    (n : StorageName) (i : ℤ) (p : Pool)
    → force_as_int (storage_value n p.storage) ≡ some i
    → get_int_storage n p ≡ (ok i, p)
unfolding get_int_storage
get_int-run n i p e = rw (e) refl

pub caller-run : (p : Pool) → get_from_address p ≡ (ok p.base.caller, p)
unfolding get_from_address Token.Host.caller_address_string
caller-run p = refl

pub transfer-run :
    (to_address symbol : Bytes) (id : ℕ) (amount : ℤ) (p : Pool)
    → lookup symbol p.asset_ids ≡ some id
    → transfer_to_address to_address symbol amount p ≡ (
      ok tt,
      record p {
        balance_changes = changed p.contract_address to_address id amount p.balance_changes;
      },
    )
unfolding transfer_to_address ◌>>=◌
transfer-run to_address symbol id amount p e = rw (e) refl

pub emit-run :
    (e : Event) (p : Pool) → emit e p ≡ (ok tt, record p { events = p.events ++ (e ∷ []) })
unfolding emit
emit-run e p = refl

pub gets-run {ℓ} : {A : Type ℓ} (f : Pool → A) (p : Pool) → gets f p ≡ (ok (f p), p)
gets-run f p = refl

-- A stored balance.
pub balance-run :
    (addr symbol : Bytes) (i : ℤ) (p : Pool)
    → force_as_int (fast_map_get addr symbol p) ≡ some i
    → require_balance addr symbol p ≡ (ok i, p)
unfolding require_balance
balance-run addr symbol i p e = rw (e) refl

-- A call that throws ends what it begins.
pub stop-run {ℓ κ} :
    {A : Type ℓ} {B : Type κ} {p p' : Pool} {e : Error}
    → (m : Action A) (f : A → Action B) → m p ≡ (err e, p')
    → (m >>= f) p ≡ (err e, p')
unfolding ◌>>=◌
stop-run m f e = ap (after f) e

pub refuse-run : (c : Bool) (e : Error) {p : Pool} → c ≡ true → throw_if c e p ≡ (err e, p)
refuse-run c e h = rw (h) refl

pub require_common-run :
    (p : Pool)
    → as_string p.base.storage.state_value ≡ some common_state
    → require_common p ≡ (ok tt, p)
unfolding require_common Token.Contract.get_storage_state
    Token.Host.get_string_current_contract_storage ◌>>=◌
require_common-run p e = rw (e, same_self common_state) refl

module _ (split : Bytes → List Bytes) (trim strtod_rest : Bytes → Bytes)
    (fc_to_int64 : Bytes → Token.Host.Result ℤ) where
  pub parse_args-run :
      (n : ℕ) (text : Bytes) (args : List Bytes) (p : Pool)
      → split text ≡ args
      → not (length args == n) ≡ false
      → parse_args split trim strtod_rest fc_to_int64 n text p ≡ (ok args, p)
  unfolding parse_args ◌>>=◌
  parse_args-run n text args p e sized = rw (e, sized) refl
