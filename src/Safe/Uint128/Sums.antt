-- ===== src/Safe/Uint128/Sums.antt =====
-- The comparisons, sums, differences and complements of src/safenumber/safenumber.cpp on 128 bits
-- are those of the numbers below 2 ^ 128.
use uvm.Base.{ℕ, ◌+◌, ◌-◌, ◌/◌, ◌%◌, ◌^◌, ◌<◌, ◌≡◌, ap₂, arith, ltb, leb, ◌==◌}
use uvm.Safe.Uint128.{
  SimpleUint128, IsUint128, value, word, create, gt, lt, eq, ge, add, minus, neg,
}

pub word-IsUint128 : (n : ℕ) → n < 2 ^ 128 → IsUint128 (word n) × (value (word n) ≡ n)
word-IsUint128 n h = (omega arith, omega arith)

-- A 128-bit number is determined by its value.
pub of_value : (a : SimpleUint128) (n : ℕ) → IsUint128 a → value a ≡ n → a ≡ word n
of_value a n h e =
    let big : a.big ≡ n / 2 ^ 64 = omega arith in
    let low : a.low ≡ n % 2 ^ 64 = omega arith in ap₂ create big low

-- The comparisons of two 128-bit numbers are those of their values.
pub order_lem :
    (a b : SimpleUint128)
    → IsUint128 a
    → IsUint128 b
    → (gt a b ≡ ltb (value b) (value a))
      × (lt a b ≡ ltb (value a) (value b))
      × (eq a b ≡ (value a == value b))
      × (ge a b ≡ leb (value b) (value a))
unfolding gt lt eq ge
order_lem a b p q = (ground arith, ground arith, ground arith, ground arith)

pub add_lem :
    (a b : SimpleUint128)
    → IsUint128 a
    → IsUint128 b
    → IsUint128 (add a b) × (value (add a b) ≡ (value a + value b) % 2 ^ 128)
unfolding add
add_lem a b p q = (ground arith, ground arith)

pub minus_lem :
    (a b : SimpleUint128)
    → IsUint128 a
    → IsUint128 b
    → IsUint128 (minus a b) × (value (minus a b) ≡ (value a + 2 ^ 128 - value b) % 2 ^ 128)
unfolding minus
minus_lem a b p q = (ground arith, ground arith)

pub neg_lem :
    (a : SimpleUint128)
    → IsUint128 a
    → IsUint128 (neg a) × (value (neg a) ≡ (2 ^ 128 - value a) % 2 ^ 128)
unfolding neg add
neg_lem a p = (ground arith, ground arith)
