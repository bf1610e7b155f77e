-- ===== src/Safe/Uint256/Sums.antt =====
-- The comparisons, sums, differences and complements of src/safenumber/safenumber.cpp on 256 bits
-- against the numbers below 2 ^ 256.
use uvm.Base.{ℕ, ◌+◌, ◌-◌, ◌/◌, ◌%◌, ◌^◌, ◌<◌, ◌≡◌, ap₂, arith, ltb, leb, ◌==◌, if◌then◌else◌}
use uvm.Safe.Uint128
use uvm.Safe.Uint128.{SimpleUint128, IsUint128, uint128_0, uint128_1, add_word, bit_reverse}
use uvm.Safe.Uint128.Sums
use uvm.Safe.Uint256.{
  SimpleUint256, IsUint256, value, word, create, uint256_1, gt, eq, ge, add, minus, neg,
}

pub word-IsUint256 : (n : ℕ) → n < 2 ^ 256 → IsUint256 (word n) × (value (word n) ≡ n)
word-IsUint256 n h =
    let (ok_big, big) = Uint128.Sums.word-IsUint128 (n / 2 ^ 128) (omega arith) in
    let (ok_low, low) = Uint128.Sums.word-IsUint128 (n % 2 ^ 128) (omega arith) in
    ((ok_big, ok_low), omega (arith, big, low))

-- A 256-bit number is determined by its value.
pub of_value : (a : SimpleUint256) (n : ℕ) → IsUint256 a → value a ≡ n → a ≡ word n
of_value a n h e =
    let big : Uint128.value a.big ≡ n / 2 ^ 128 = omega arith in
    let low : Uint128.value a.low ≡ n % 2 ^ 128 = omega arith in
    ap₂ create (Uint128.Sums.of_value a.big _ h.0 big) (Uint128.Sums.of_value a.low _ h.1 low)

-- The comparisons of two 256-bit numbers are those of their values.
pub order_lem :
    (a b : SimpleUint256)
    → IsUint256 a
    → IsUint256 b
    → (gt a b ≡ ltb (value b) (value a))
      × (eq a b ≡ (value a == value b))
      × (ge a b ≡ leb (value b) (value a))
unfolding gt eq ge
order_lem a b p q =
    let big = Uint128.Sums.order_lem a.big b.big p.0 q.0 in
    let low = Uint128.Sums.order_lem a.low b.low p.1 q.1 in
    (
      ground (arith, big.0, big.2, low.0),
      ground (arith, big.2, low.2),
      ground (arith, big.0, big.2, low.0, low.2),
    )

add_word_lem :
    (a : SimpleUint128) (b : ℕ)
    → IsUint128 a
    → b < 2 ^ 64
    → IsUint128 (add_word a b) × (Uint128.value (add_word a b) ≡ (Uint128.value a + b) % 2 ^ 128)
unfolding add_word
add_word_lem a b p h =
    let (ok, e) = Uint128.Sums.add_lem a (Uint128.create 0 b) p (omega arith, h) in
    (ok, omega (arith, e))

pub add_lem :
    (a b : SimpleUint256)
    → IsUint256 a
    → IsUint256 b
    → IsUint256 (add a b) × (value (add a b) ≡ (value a + value b) % 2 ^ 256)
unfolding add
add_lem a b p q =
    let (ok_big, big) = Uint128.Sums.add_lem a.big b.big p.0 q.0 in
    let (ok_low, low) = Uint128.Sums.add_lem a.low b.low p.1 q.1 in
    let order = Uint128.Sums.order_lem (Uint128.add a.low b.low) a.low ok_low p.1 in
    let (ok0, add0) = add_word_lem (Uint128.add a.big b.big) 0 ok_big (omega arith) in
    let (ok1, add1) = add_word_lem (Uint128.add a.big b.big) 1 ok_big (omega arith) in
    (ground (arith, order.1), ground (arith, order.1))

-- A difference of 256-bit numbers is that of their values where the low halves need no borrow; where
-- they do, it is 2 ^ 192 too large.
pub value-minus :
    (a b : SimpleUint256)
    → IsUint256 a
    → IsUint256 b
    → IsUint256 (minus a b)
      × (value (minus a b) ≡ (
          if leb (Uint128.value b.low) (Uint128.value a.low)
          then (value a + 2 ^ 256 - value b) % 2 ^ 256
          else (value a + 2 ^ 256 - value b + 2 ^ 192) % 2 ^ 256))
unfolding minus
value-minus a b p q =
    let (ok_big, big) = Uint128.Sums.minus_lem a.big b.big p.0 q.0 in
    let (ok_low, low) = Uint128.Sums.minus_lem a.low b.low p.1 q.1 in
    let order = Uint128.Sums.order_lem (Uint128.minus a.low b.low) a.low ok_low p.1 in
    let (ok0, add0) = add_word_lem (Uint128.minus a.big b.big) 0 ok_big (omega arith) in
    let (ok1, add1) = add_word_lem (Uint128.minus a.big b.big) (2 ^ 64 - 1) ok_big (omega arith) in
    (ground (arith, order.0), ground (arith, order.0))

reverse_lem :
    (a : SimpleUint128)
    → IsUint128 a
    → IsUint128 (bit_reverse a) × (Uint128.value (bit_reverse a) + Uint128.value a + 1 ≡ 2 ^ 128)
unfolding bit_reverse
reverse_lem a p = (omega arith, omega arith)

pub neg_lem :
    (a : SimpleUint256)
    → IsUint256 a
    → IsUint256 (neg a) × (value (neg a) ≡ (2 ^ 256 - value a) % 2 ^ 256)
unfolding neg
neg_lem a p =
    let (ok_big, big) = reverse_lem a.big p.0 in
    let (ok_low, low) = reverse_lem a.low p.1 in
    let (ok, e) =
      add_lem (create (bit_reverse a.big) (bit_reverse a.low)) uint256_1 (ok_big, ok_low)
        ((omega arith, omega arith), (omega arith, omega arith)) in
    (ok, omega (arith, e, big, low))
