-- ===== src/Token/Tests.antt =====
-- Runs of the token contract on a small ledger, and its theorems at concrete inputs.
use uvm.Base.{◌≡◌, refl, arith, [], ◌∷◌}
use uvm.Base.{none, inr}
use uvm.Base.Dict.{same, lookup}
use uvm.Base.Int.{pos, ◌+ℤ◌, ◌≤ℤ◌}
use uvm.Cbor.Value.{Bytes, scalar, string, map, end, entry, force_as_int}
use uvm.Token.Texts.{split_commas, trim_spaces, after_digits}
use uvm.Token.Host.{Host, ok}
use uvm.Token.Contract.{
  common_state, token_int, transfer_api, transfer_from_api, approve_api, init_token_api, init_api,
  not_inited_state, get_allowed_of_user,
}
use uvm.Token.Invoke.{is_offline, Api, call, invoke, run_calls}
use uvm.Token.Outcomes.{Outcome}
use uvm.Token.Numbers.{positive_number}
use uvm.Cbor.Entries.{find}
use uvm.Token.Balances.{balance, int64_max, IsLedger, total, value}
use uvm.Token.Transfers.{Transferred, transfer_api-Transferred, transfer_api-ok, amount_arg}
use uvm.Token.Spending.{TransferredFrom, transfer_from_api-TransferredFrom, allowance}
use uvm.Token.Granting.{Approved, approve_api-Approved, Inited, init_token_api-Inited}
use uvm.Token.Offline.{OnlyResult, call-OnlyResult}
use uvm.Token.Supply.{IsSound, invoke-IsSound, init_api-run_calls-IsSound}

abbrev alice : Bytes
alice = b'a' ∷ []

abbrev bob : Bytes
bob = b'b' ∷ []

abbrev shop : Bytes → Bytes → Host
shop state_text caller_addr = record {
  storage = record {
    name_value = scalar (string alice);
    symbol_value = scalar (string bob);
    supply_value = token_int (pos 100);
    precision_value = token_int (pos 1);
    state_value = scalar (string state_text);
    admin_value = scalar (string alice);
  };
  users_map = (alice, token_int (pos 70)) ∷ (bob, token_int (pos 30)) ∷ [];
  allowed_map = (bob, map (entry alice (token_int (pos 20)) end)) ∷ [];
  caller = caller_addr;
  events = [];
  api_result = none;
  invoker = none;
  gas_used = 0;
}

-- "b,5", "b,a,20" and "t,s,9,1"
abbrev pay_bob : Bytes
pay_bob = b'b' ∷ b',' ∷ b'5' ∷ []

abbrev take_from_bob : Bytes
take_from_bob = b'b' ∷ b',' ∷ b'a' ∷ b',' ∷ b'2' ∷ b'0' ∷ []

abbrev nine_tokens : Bytes
nine_tokens = b't' ∷ b',' ∷ b's' ∷ b',' ∷ b'9' ∷ b',' ∷ b'1' ∷ []

shop-IsLedger : (s c : Bytes) → IsLedger (shop s c).users_map
unfolding IsLedger total value lookup same force_as_int
shop-IsLedger s c = (omega arith, refl, (omega arith, refl, tt))

total-shop : (s c : Bytes) → total (shop s c).users_map ≡ pos 100
unfolding total value force_as_int ◌+ℤ◌
total-shop s c = refl

small-shop : (s c : Bytes) → total (shop s c).users_map ≤ℤ int64_max
small-shop s c = rw total-shop (omega arith)

transfer_api-Transferred_example :
    Outcome
      (shop common_state alice)
      (Transferred split_commas trim_spaces after_digits alice bob
        (amount_arg split_commas trim_spaces after_digits 1 pay_bob)
        (shop common_state alice))
      (transfer_api split_commas trim_spaces after_digits pay_bob (shop common_state alice))
transfer_api-Transferred_example =
    transfer_api-Transferred split_commas trim_spaces after_digits pay_bob (shop common_state alice)
      (shop-IsLedger common_state alice, small-shop common_state alice)

transfer_api-ok_example :
    (transfer_api split_commas trim_spaces after_digits pay_bob (shop common_state alice)).0 ≡ ok tt
unfolding positive_number balance lookup same value force_as_int
transfer_api-ok_example =
    transfer_api-ok split_commas trim_spaces after_digits pay_bob (pos 5) (shop common_state alice)
      refl (omega arith) refl (omega arith)

transfer_from_api-TransferredFrom_example :
    Outcome
      (shop common_state alice)
      (TransferredFrom split_commas trim_spaces after_digits bob alice
        (amount_arg split_commas trim_spaces after_digits 2 take_from_bob)
        (shop common_state alice))
      (transfer_from_api split_commas trim_spaces after_digits take_from_bob
        (shop common_state alice))
unfolding allowance get_allowed_of_user lookup same find value force_as_int
transfer_from_api-TransferredFrom_example =
    transfer_from_api-TransferredFrom split_commas trim_spaces after_digits take_from_bob
      (shop common_state alice) (shop-IsLedger common_state alice, small-shop common_state alice)
      (tt, tt) (omega arith)

init_token_api-Inited_example :
    Outcome
      (shop not_inited_state alice)
      (Inited split_commas trim_spaces after_digits (b'9' ∷ []) (shop not_inited_state alice))
      (init_token_api split_commas trim_spaces after_digits nine_tokens
        (shop not_inited_state alice))
init_token_api-Inited_example =
    init_token_api-Inited split_commas trim_spaces after_digits nine_tokens
      (shop not_inited_state alice)

approve_api-Approved_example :
    Outcome
      (shop common_state alice)
      (Approved split_commas trim_spaces after_digits bob
        (amount_arg split_commas trim_spaces after_digits 1 pay_bob)
        (shop common_state alice))
      (approve_api split_commas trim_spaces after_digits pay_bob (shop common_state alice))
approve_api-Approved_example =
    approve_api-Approved split_commas trim_spaces after_digits pay_bob (shop common_state alice)

call-OnlyResult_example :
    Outcome
      (shop common_state alice)
      (OnlyResult (shop common_state alice))
      (call split_commas trim_spaces after_digits Api.balance_of bob (shop common_state alice))
unfolding is_offline
call-OnlyResult_example =
    call-OnlyResult split_commas trim_spaces after_digits Api.balance_of bob
      (shop common_state alice) refl

abbrev balance_of_name : Bytes
balance_of_name = b'b' ∷ b'a' ∷ b'l' ∷ b'a' ∷ b'n' ∷ b'c' ∷ b'e' ∷ b'O' ∷ b'f' ∷ []

abbrev transfer_name : Bytes
transfer_name = b't' ∷ b'r' ∷ b'a' ∷ b'n' ∷ b's' ∷ b'f' ∷ b'e' ∷ b'r' ∷ []

abbrev init_token_name : Bytes
init_token_name = b'i' ∷ b'n' ∷ b'i' ∷ b't' ∷ b'_' ∷ b't' ∷ b'o' ∷ b'k' ∷ b'e' ∷ b'n' ∷ []

invoke-IsSound_example :
    Outcome
      (shop common_state alice)
      IsSound
      (invoke split_commas trim_spaces after_digits transfer_name pay_bob (shop common_state alice))
unfolding lookup same
invoke-IsSound_example =
    invoke-IsSound split_commas trim_spaces after_digits transfer_name pay_bob
      (shop common_state alice) (λ e. ground arith)
      (
        pos 100,
        refl,
        total-shop common_state alice,
        omega arith,
        shop-IsLedger common_state alice,
        inr refl,
      )

abbrev no_users : Host
no_users = record (shop common_state alice) { users_map = []; allowed_map = [] }

init_api-run_calls-IsSound_example : IsSound (
    run_calls split_commas trim_spaces after_digits
      ((alice, init_token_name, nine_tokens) ∷ (alice, transfer_name, pay_bob) ∷ [])
      (init_api [] no_users).1)
unfolding lookup same
init_api-run_calls-IsSound_example =
    init_api-run_calls-IsSound split_commas trim_spaces after_digits
      ((alice, init_token_name, nine_tokens) ∷ (alice, transfer_name, pay_bob) ∷ []) [] no_users
      refl refl ((λ e. ground arith), ((λ e. ground arith), tt))
