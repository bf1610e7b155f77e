-- ===== src/Uniswap/Prices.antt =====
-- The calculations of src/native_contract/native_uniswap_contract.cpp with safe numbers.
use uvm.Base.{if◌then◌else◌}
use uvm.Base.Int.{ℤ, pos, ◌+ℤ◌, ltb_ℤ}
use uvm.Cbor.Value.{Bytes}
use uvm.Token.Numbers.{wrap64}
use uvm.Safe.Word.{Outcome, done, ◌>>=◌}
use uvm.Safe.Number.{SafeNumber}
use uvm.Safe.Number.Arithmetic
use uvm.Safe.Number.Arithmetic.{create_int64, multiply, to_int64}
use uvm.Safe.Number.Comparison
use uvm.Safe.Number.Text.{create_of_string}

-- `getInputPrice`
unfoldable pub get_input_price : ℤ → ℤ → ℤ → Outcome ℤ
get_input_price input_amount input_reserve output_reserve = create_int64 input_reserve >>= λ a.
    create_int64 output_reserve >>= λ b. create_int64 input_amount >>= λ x.
    multiply x b >>= λ n. Arithmetic.add a x >>= λ d. Arithmetic.div n d >>= λ q. to_int64 q

-- `safe_number_to_int64(temp)`, and one more where temp is not that integer.
unfoldable pub rounded_up : SafeNumber → Outcome ℤ
rounded_up temp = to_int64 temp >>= λ n.
    create_int64 n >>= λ m. done (if Comparison.ne m temp then wrap64 (n +ℤ pos 1) else n)

-- x * b / a
unfoldable pub proportion : ℤ → ℤ → ℤ → Outcome SafeNumber
proportion x b a = create_int64 x >>= λ x'.
    create_int64 b >>= λ b'. create_int64 a >>= λ a'. multiply x' b' >>= λ n. Arithmetic.div n a'

-- What an amount of the second asset is asked for an amount x of the first.
unfoldable pub asset2_for : ℤ → ℤ → ℤ → Outcome ℤ
unfolding proportion rounded_up
asset2_for x b a = proportion x b a >>= λ temp. rounded_up temp

-- The tokens that an amount x of the first asset brings.
unfoldable pub tokens_for : ℤ → ℤ → ℤ → Outcome ℤ
unfolding proportion
tokens_for x supply a = proportion x supply a >>= λ temp. to_int64 temp

-- The part of a pool that a number of tokens stands for: the quota first, then the product.
unfoldable pub share_of : ℤ → ℤ → ℤ → Outcome ℤ
share_of tk s pool = create_int64 tk >>= λ tk'. create_int64 s >>= λ s'.
    create_int64 pool >>= λ pool'.
    Arithmetic.div tk' s' >>= λ quota. multiply quota pool' >>= λ part. to_int64 part

-- The fee on an amount, rounded up, and 1 at least.
unfoldable pub fee_on : ℤ → Bytes → Outcome ℤ
unfolding rounded_up
fee_on amount fee_rate = create_of_string fee_rate >>= λ rate. create_int64 amount >>= λ a.
    multiply a rate >>= λ temp.
    rounded_up temp >>= λ fee. done (if ltb_ℤ (pos 0) fee then fee else pos 1)
