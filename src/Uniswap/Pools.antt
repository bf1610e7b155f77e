-- ===== src/Uniswap/Pools.antt =====
-- The two pools that an exchange of src/native_contract/native_uniswap_contract.cpp changes, as numbers.
use uvm.Base.{
  ℕ, ◌+◌, ◌-◌, ◌*◌, ◌/◌, ◌^◌, ◌≤◌, ◌<◌, ◌≡◌, refl, arith, Bool, true, false, if◌then◌else◌,
}
use native.Mathlib.Nat.{div-mul-le_self, div-lt_iff_lt-mul}
use uvm.Base.Int.{pos, ◌-ℤ◌, ◌+ℤ◌}
use uvm.Token.Numbers.{wrap64}
use uvm.Uniswap.Exchange.{pool_in, pool_out}

-- What is bought for an amount sold, without its fee.
abbrev pub price : ℕ → ℕ → ℕ → ℕ
price sold reserve_in reserve_out = sold * reserve_out / (reserve_in + sold)

pub price-lt : (x a b : ℕ) → 0 < a → 0 < b → price x a b < b
price-lt x a b p q =
    (div-lt_iff_lt-mul {k = a + x} {x = x * b} {y = b} (omega arith)).1 (grind arith)

-- The product of the pools grows.
pub product-lt :
    (amount fee a b : ℕ)
    → 0 < fee
    → fee < amount
    → 0 < a
    → 0 < b
    → a * b < (a + amount) * (b - price (amount - fee) a b)
product-lt amount fee a b pf lt pa pb =
    let x = amount - fee in
    let q = price x a b in
    let rest : q < b = price-lt x a b pa pb in
    let paid : q * (a + x) ≤ x * b = div-mul-le_self (x * b) (a + x) in
    let kept : a * b ≤ (a + x) * (b - q) = kept_le a x b q rest paid in
    let more : (a + x) * (b - q) < (a + amount) * (b - q) =
      grown_lt (a + x) (a + amount) (b - q) (omega arith) (omega arith) in
    omega arith
  where
    kept_le : (a x b q : ℕ) → q < b → q * (a + x) ≤ x * b → a * b ≤ (a + x) * (b - q)
    kept_le a x b q lt h = grind arith

    grown_lt : (m n k : ℕ) → m < n → 0 < k → m * k < n * k
    grown_lt m n k lt p = grind arith

pub wrap_add : (m n : ℕ) → m + n < 2 ^ 63 → wrap64 (pos m +ℤ pos n) ≡ pos (m + n)
unfolding wrap64 ◌+ℤ◌
wrap_add m n h = ground arith

pub wrap_sub : (m n : ℕ) → n ≤ m → m < 2 ^ 63 → wrap64 (pos m -ℤ pos n) ≡ pos (m - n)
unfolding wrap64 ◌-ℤ◌
wrap_sub m n h room = ground arith

-- A pool after a sale to the first pool, or to the second.
abbrev pub new_pool1 : Bool → ℕ → ℕ → ℕ → ℕ
new_pool1 true pool1 amount bought = pool1 + amount
new_pool1 false pool1 amount bought = pool1 - bought

abbrev pub new_pool2 : Bool → ℕ → ℕ → ℕ → ℕ
new_pool2 true pool2 amount bought = pool2 - bought
new_pool2 false pool2 amount bought = pool2 + amount

-- The pool that is sold to, and the other.
abbrev pub sold_to : Bool → ℕ → ℕ → ℕ
sold_to first pool1 pool2 = if first then pool1 else pool2

abbrev pub bought_from : Bool → ℕ → ℕ → ℕ
bought_from first pool1 pool2 = if first then pool2 else pool1

pub sold_to-pos :
    (first : Bool) (a b : ℕ) → 0 < a → 0 < b → (0 < sold_to first a b) × (0 < bought_from first a b)
sold_to-pos true a b p q = (p, q)
sold_to-pos false a b p q = (q, p)

pub sold_to-small :
    (first : Bool) (a b n : ℕ)
    → a ≤ n
    → b ≤ n
    → (sold_to first a b ≤ n) × (bought_from first a b ≤ n)
sold_to-small true a b n p q = (p, q)
sold_to-small false a b n p q = (q, p)

pub pool_in-pos : (first : Bool) (a b : ℕ) → pool_in first (pos a) (pos b) ≡ pos (sold_to first a b)
pool_in-pos true a b = refl
pool_in-pos false a b = refl

pub pool_out-pos :
    (first : Bool) (a b : ℕ) → pool_out first (pos a) (pos b) ≡ pos (bought_from first a b)
pool_out-pos true a b = refl
pool_out-pos false a b = refl

-- The product after the sale is the one of the pool that is sold to and the other.
pub new_pools-product :
    (first : Bool) (a b amount bought : ℕ)
    → sold_to first a b * bought_from first a b
      < (sold_to first a b + amount) * (bought_from first a b - bought)
    → a * b < new_pool1 first a amount bought * new_pool2 first b amount bought
new_pools-product true a b amount bought h = h
new_pools-product false a b amount bought h =
    omega (arith, h, swap a b, swap (b + amount) (a - bought))
  where
    swap : (m n : ℕ) → m * n ≡ n * m
    swap m n = grind arith
