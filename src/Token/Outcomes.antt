-- ===== src/Token/Outcomes.antt =====
-- Calls of the host that only read, and what a chain of them leaves.
use uvm.Base.{
  Option-cases, inr, inl, some, ℕ, ◌≡◌, refl, arith, ◌⊎◌, inl, inr, Bool, true, false, List,
}
use uvm.Base.Dict.{same→≡}
use uvm.Cbor.Value.{scalar, string, CborObject, Bytes}
use uvm.Token.Host.{
  caller_address_string, as_string, Result, ok, err, Error, Host, Action, ◌>>=◌, throw_if,
  StorageName, get_string_current_contract_storage,
}
use uvm.Token.Contract.{get_storage_state, require_state, parse_args, check_admin}

-- What holds after a call on `h`: an exception leaves the state as it was.
abbrev pub Outcome : {A : Type 0} → Host → (Host → Type 0) → Result A × Host → Type 0
Outcome h P (ok _, h') = P h'
Outcome h P (err _, h') = h' ≡ h

-- The call changes nothing.
abbrev pub Reads : {A : Type 0} → Action A → Host → Type 0
Reads m h = (m h).1 ≡ h

bind_of :
    {A B : Type 0} (r : Result A × Host) (f : A → Action B) (h : Host) (P : Host → Type 0)
    → r.1 ≡ h
    → ((a : A) → r ≡ (ok a, h) → Outcome h P (f a h))
    → Outcome h P (((λ _. r) >>= f) h)
bind_of (ok a, h') f h P e next = rw e (next a (rw e refl))
bind_of (err x, h') f h P e next = e

-- Steps that only read do not change what a chain of them leaves.
pub bind-Outcome :
    {A B : Type 0} (m : Action A) (f : A → Action B) (h : Host) (P : Host → Type 0)
    → Reads m h
    → ((a : A) → m h ≡ (ok a, h) → Outcome h P (f a h))
    → Outcome h P ((m >>= f) h)
bind-Outcome m f h P reads next = bind_of (m h) f h P reads next

pub throw_if-Reads : (c : Bool) (e : Error) (h : Host) → Reads (throw_if c e) h
throw_if-Reads c e h = refl

pub throw_if-ok : (c : Bool) (e : Error) (h : Host) → throw_if c e h ≡ (ok tt, h) → c ≡ false
throw_if-ok true e h q = cc
throw_if-ok false e h q = refl

pub get_string-Reads :
    (n : StorageName) (h : Host) → Reads (get_string_current_contract_storage n) h
unfolding get_string_current_contract_storage
get_string-Reads n h = ground arith

pub require_state-Reads : (s : Bytes) (e : Error) (h : Host) → Reads (require_state s e) h
unfolding require_state get_storage_state get_string_current_contract_storage
require_state-Reads s e h = ground (arith, get_string-Reads StorageName.state h)

pub check_admin-Reads : (h : Host) → Reads check_admin h
unfolding check_admin get_string_current_contract_storage
check_admin-Reads h = ground arith

pub parse_args-Reads :
    (split : Bytes → List Bytes) (trim strtod_rest : Bytes → Bytes) (n : ℕ) (s : Bytes) (h : Host)
    → Reads (parse_args split trim strtod_rest n s) h
unfolding parse_args
parse_args-Reads split trim strtod_rest n s h = ground arith

pub parse_args-ok :
    (split : Bytes → List Bytes) (trim strtod_rest : Bytes → Bytes) (n : ℕ) (s : Bytes)
    (args : List Bytes) (h : Host)
    → parse_args split trim strtod_rest n s h ≡ (ok args, h)
    → split s ≡ args
unfolding parse_args
parse_args-ok split trim strtod_rest n s args h e = ground arith

pub Result-cases :
    {A : Type 0} (r : Result A) → ((a : A) × (r ≡ ok a)) ⊎ ((e : Error) × (r ≡ err e))
Result-cases (ok a) = inl (a, refl)
Result-cases (err e) = inr (e, refl)

pub as_string-some : (v : CborObject) (s : Bytes) → as_string v ≡ some s → v ≡ scalar (string s)
as_string-some v s e = ground arith

pub check_admin-ok :
    (a : Bytes) (h : Host)
    → check_admin h ≡ (ok a, h)
    → h.storage.admin_value ≡ scalar (string h.caller)
unfolding check_admin get_string_current_contract_storage caller_address_string
check_admin-ok a h e = elim (Option-cases (as_string h.storage.admin_value)) [
  | inl missing ↦ ground (arith, missing)
  | inr (s, is_s) ↦
      ground (arith, is_s, same→≡ s h.caller, as_string-some h.storage.admin_value s is_s)
]

pub require_state-ok :
    (s : Bytes) (x : Error) (h : Host)
    → require_state s x h ≡ (ok tt, h)
    → h.storage.state_value ≡ scalar (string s)
unfolding require_state get_storage_state get_string_current_contract_storage
require_state-ok s x h e = elim (Option-cases (as_string h.storage.state_value)) [
  | inl missing ↦ ground (arith, missing)
  | inr (r, is_r) ↦ ground (arith, is_r, same→≡ r s, as_string-some h.storage.state_value r is_r)
]

pub Outcome-map :
    {A : Type 0} (h : Host) (P Q : Host → Type 0) (r : Result A × Host)
    → ((h' : Host) → P h' → Q h')
    → Outcome h P r
    → Outcome h Q r
Outcome-map h P Q (ok a, h') f o = f h' o
Outcome-map h P Q (err x, h') f o = o
