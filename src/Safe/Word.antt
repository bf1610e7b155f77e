-- ===== src/Safe/Word.antt =====
-- The uint64_t arithmetic that src/safenumber/safenumber.cpp writes with the operators of C++, with
-- its wrap-around, and the exceptions it throws.
use uvm.Base.{ℕ, ◌+◌, ◌-◌, ◌*◌, ◌/◌, ◌%◌, ◌^◌}

abbrev pub add64 : ℕ → ℕ → ℕ
add64 a b = (a + b) % 2 ^ 64

abbrev pub sub64 : ℕ → ℕ → ℕ
sub64 a b = (a + 2 ^ 64 - b) % 2 ^ 64

abbrev pub mul64 : ℕ → ℕ → ℕ
mul64 a b = a * b % 2 ^ 64

abbrev pub not64 : ℕ → ℕ
not64 a = 2 ^ 64 - 1 - a

-- a << k and a >> k, for k < 64
abbrev pub shl64 : ℕ → ℕ → ℕ
shl64 a k = a * 2 ^ k % 2 ^ 64

abbrev pub shr64 : ℕ → ℕ → ℕ
shr64 a k = a / 2 ^ k

-- A run ends with a value, with one of the two exceptions, or is cut off.
pub data Outcome {ℓ} (A : Type ℓ) : Type ℓ where
  done : A → Outcome A
  domain_error : Outcome A
  invalid_argument : Outcome A
  no_fuel : Outcome A

abbrev pub return {ℓ} : {A : Type ℓ} → A → Outcome A
return a = done a

infixl 20 ◌>>=◌
abbrev pub ◌>>=◌ {ℓ κ} : {A : Type ℓ} {B : Type κ} → Outcome A → (A → Outcome B) → Outcome B
done a >>= f = f a
domain_error >>= f = domain_error
invalid_argument >>= f = invalid_argument
no_fuel >>= f = no_fuel
