-- ===== src/Base/Bits.antt =====
-- Laws of the native bit operations at variables: masking by 2 ^ k - 1 is a remainder, and an `or`
-- of digits that do not overlap is a sum. Remainders, quotients and powers that go with them.
use Prim.Native.Nat.{ℕ, zero, suc, ◌+◌, ◌-◌, ◌*◌, ◌/◌, ◌%◌, ◌^◌, ◌≤◌, ◌<◌, min, max}
use Prim.Native.Nat.{bit_and, bit_or, digits, bit_and-bitwise, bit_or-bitwise}
use mathlib.Core.Path.{◌≡◌, refl, ap, sym, ◌∙◌}
use native.Mathlib.Omega.{arith}
use native.Mathlib.Nat.{two-pow-succ, pow-suc, pow-zero, div-eq_of_lt, add-mul-mod_self_left}

-- An operation on binary digits does `f` on each two, and `z` on what is left of the second number.
module _ (z : ℕ → ℕ) (f : ℕ → ℕ → ℕ) where
  run_out : (count b : ℕ) → digits z f count 0 b ≡ z b
  run_out zero b = refl
  run_out (suc count) b = refl

  same_count :
      (a b count more : ℕ) → a ≤ count → a ≤ more → digits z f count a b ≡ digits z f more a b
  same_count zero b count more p q = run_out count b ∙ sym (run_out more b)
  same_count (suc a) b zero more p q = absurd (omega arith)
  same_count (suc a) b (suc count) zero p q = absurd (omega arith)
  same_count (suc a) b (suc count) (suc more) p q =
      ap (λ n. n * 2 + f (suc a % 2) (b % 2))
        (same_count (suc a / 2) (b / 2) count more (omega arith) (omega arith))

  unroll :
      ((b : ℕ) → z b ≡ z (b / 2) * 2 + f 0 (b % 2))
      → (a b : ℕ) → digits z f a a b ≡ digits z f (a / 2) (a / 2) (b / 2) * 2 + f (a % 2) (b % 2)
  unroll rest zero b = rest b
  unroll rest (suc a) b =
      ap (λ n. n * 2 + f (suc a % 2) (b % 2))
        (same_count (suc a / 2) (b / 2) a (suc a / 2) (omega arith) (omega arith))

bit_and-halves : (a b : ℕ) → bit_and a b ≡ bit_and (a / 2) (b / 2) * 2 + min (a % 2) (b % 2)
bit_and-halves a b =
    bit_and-bitwise a b
    ∙ unroll (λ n. 0) min (λ n. omega arith) a b
    ∙ ap (λ n. n * 2 + min (a % 2) (b % 2)) (sym (bit_and-bitwise (a / 2) (b / 2)))

bit_or-halves : (a b : ℕ) → bit_or a b ≡ bit_or (a / 2) (b / 2) * 2 + max (a % 2) (b % 2)
bit_or-halves a b =
    bit_or-bitwise a b
    ∙ unroll (λ n. n) max (λ n. omega arith) a b
    ∙ ap (λ n. n * 2 + max (a % 2) (b % 2)) (sym (bit_or-bitwise (a / 2) (b / 2)))

no_common_digit : (count a : ℕ) → digits (λ n. 0) min count a 0 ≡ 0
no_common_digit zero a = refl
no_common_digit (suc count) zero = refl
no_common_digit (suc count) (suc a) = omega (arith, no_common_digit count (suc a / 2))

all_digits : (count a : ℕ) → a ≤ count → digits (λ n. n) max count a 0 ≡ a
all_digits count zero p = run_out (λ n. n) max count 0
all_digits zero (suc a) p = absurd (omega arith)
all_digits (suc count) (suc a) p = omega (arith, all_digits count (suc a / 2) (omega arith))

bit_and-zero : (a : ℕ) → bit_and a 0 ≡ 0
bit_and-zero a = bit_and-bitwise a 0 ∙ no_common_digit a a

pub bit_or-zero : (a : ℕ) → bit_or a 0 ≡ a
bit_or-zero a = bit_or-bitwise a 0 ∙ all_digits a a (omega arith)

-- Quotient and remainder from a splitting.
pub split-% : (q r m : ℕ) → r < m → (q * m + r) % m ≡ r
split-% q r m h = grind arith

pub split-/ : (q r m : ℕ) → r < m → (q * m + r) / m ≡ q
split-/ q r m h = grind arith

%-double : (a m : ℕ) → 0 < m → a % (m + m) ≡ a / 2 % m * 2 + a % 2
%-double a m p =
    let q = a / 2 / m in
    let r = a / 2 % m in
    let e : a / 2 ≡ q * m + r = grind arith in
    let lt : r < m = omega arith in
    let e' : a ≡ q * (m + m) + (r * 2 + a % 2) = grind arith in
    ap (λ n. n % (m + m)) e' ∙ split-% q (r * 2 + a % 2) (m + m) (omega arith)

pub pow_pos : (k : ℕ) → 0 < 2 ^ k
pow_pos zero = omega arith
pow_pos (suc k) = omega (arith, pow_pos k, two-pow-succ k)

pub bit_and-mask : (k a : ℕ) → bit_and a (2 ^ k - 1) ≡ a % 2 ^ k
bit_and-mask zero a = omega (arith, bit_and-zero a)
bit_and-mask (suc k) a =
    let p = pow_pos k in
    let half : (2 ^ suc k - 1) / 2 ≡ 2 ^ k - 1 = omega (arith, two-pow-succ k) in
    let odd : (2 ^ suc k - 1) % 2 ≡ 1 = omega (arith, two-pow-succ k) in
    omega (
      arith,
      bit_and-halves a (2 ^ suc k - 1),
      ap (bit_and (a / 2)) half,
      bit_and-mask k (a / 2),
      ap (λ n. a % n) (two-pow-succ k),
      %-double a (2 ^ k) p,
    )

pub bit_or-disjoint : (k a b : ℕ) → b < 2 ^ k → bit_or (a * 2 ^ k) b ≡ a * 2 ^ k + b
bit_or-disjoint zero a b h =
    let b0 : b ≡ 0 = omega arith in
    let a1 : a * 2 ^ 0 ≡ a = omega arith in rw (b0, a1) (bit_or-zero a ∙ omega arith)
bit_or-disjoint (suc k) a b h =
    let p = two-pow-succ k in
    let e : a * 2 ^ suc k ≡ a * 2 ^ k + a * 2 ^ k = ap (λ n. a * n) p ∙ grind arith in
    let half : a * 2 ^ suc k / 2 ≡ a * 2 ^ k = omega arith in
    omega (
      arith,
      bit_or-halves (a * 2 ^ suc k) b,
      ap (λ n. bit_or n (b / 2)) half,
      bit_or-disjoint k a (b / 2) (omega arith),
    )

pub pow_add : (a m n : ℕ) → a ^ (m + n) ≡ a ^ m * a ^ n
pow_add a m zero = grind (arith, pow-zero a)
pow_add a m (suc n) =
    let e : m + suc n ≡ suc (m + n) = omega arith in
    let assoc : a ^ m * a ^ n * a ≡ a ^ m * (a ^ n * a) = grind arith in
    ap (λ k. a ^ k) e
    ∙ pow-suc a (m + n)
    ∙ ap (λ k. k * a) (pow_add a m n)
    ∙ assoc
    ∙ ap (λ k. a ^ m * k) (sym (pow-suc a n))

-- Reducing a factor first does not change the remainder of a product.
pub %-*-% : (a b m : ℕ) → 0 < m → a % m * b % m ≡ a * b % m
%-*-% a b m p =
    let e : a * b ≡ a % m * b + m * (a / m * b) = grind arith in
    sym (ap (λ n. n % m) e ∙ add-mul-mod_self_left (a % m * b) m (a / m * b))

pub le_mul : (a b : ℕ) → 0 < b → a ≤ a * b
le_mul a b p = grind arith

pub ten_pow_pos : (k : ℕ) → 0 < 10 ^ k
ten_pow_pos zero = omega arith
ten_pow_pos (suc k) = omega (arith, ten_pow_pos k, pow-suc 10 k)

pub zero_quotient : (v k : ℕ) → v ≡ 0 → 0 < k → v / k ≡ 0
zero_quotient v k e p = ap (λ n. n / k) e ∙ div-eq_of_lt p
