-- ===== src/Safe/Number/Rests.antt =====
-- When a quotient of `safe_number_div` of src/safenumber/safenumber.cpp shows no digits after the dot.
use uvm.Base.{
  ℕ, ◌+◌, ◌-◌, ◌*◌, ◌/◌, ◌%◌, ◌^◌, ◌≤◌, ◌<◌, ◌≡◌, ap, ap₂, sym, ◌∙◌, arith, inl, inr, ◌⊎◌, lt_or_ge,
}
use native.Mathlib.Nat.{div-div-eq-div-mul, mul-div-mul_right, pow-le-pow_right, div-lt_iff_lt-mul}
use uvm.Base.Bits.{pow_add, ten_pow_pos, split-%, le_mul}
use uvm.Safe.Number.Truncation.{*-cancel}

pub quotient_parts : (a b : ℕ) → 0 < b → a ≡ a / b * b + a % b
quotient_parts a b p = grind arith

assoc : (a b c : ℕ) → a * (b * c) ≡ a * b * c
assoc a b c = grind arith

-- The first k of the places of a quotient.
cut_quotient : (a b k re : ℕ) → k ≤ re → a * 10 ^ re / b / 10 ^ (re - k) ≡ a * 10 ^ k / b
cut_quotient a b k re le =
    let j = re - k in
    let power : a * 10 ^ re ≡ a * 10 ^ k * 10 ^ j =
      ap (λ i. a * 10 ^ i) (omega arith)
      ∙ ap (λ i. a * i) (pow_add 10 k j)
      ∙ assoc a (10 ^ k) (10 ^ j) in
    div-div-eq-div-mul (a * 10 ^ re) b (10 ^ j)
    ∙ ap (λ n. n / (b * 10 ^ j)) power
    ∙ mul-div-mul_right (a * 10 ^ k) b (ten_pow_pos j)

-- A rest that does not show in k places is a small one.
hidden_rest : (a b v k : ℕ) → 0 < b → v ≡ a / b → v * 10 ^ k ≡ a * 10 ^ k / b → 10 ^ k * (a % b) < b
hidden_rest a b v k pb e same =
    let room : a * 10 ^ k < (v * 10 ^ k + 1) * b =
      (div-lt_iff_lt-mul {k = b} {x = a * 10 ^ k} {y = v * 10 ^ k + 1} pb).0 (omega arith) in
    let parts : a * 10 ^ k ≡ (v * b + a % b) * 10 ^ k =
      ap (λ n. n * 10 ^ k) (quotient_parts a b pb ∙ ap (λ n. n * b + a % b) (sym e)) in
    compare v b (a % b) (10 ^ k) (omega arith)
  where
    compare : (v b r p : ℕ) → (v * b + r) * p < (v * p + 1) * b → p * r < b
    compare v b r p h = grind arith

-- All digits of an exact quotient without places.
exact_rest : (a b v p : ℕ) → 0 < b → 0 < p → v * p ≡ a * p / b → a * p % b ≡ 0 → a % b ≡ 0
exact_rest a b v p pb pp same exact =
    let whole : a * p ≡ v * p * b =
      quotient_parts (a * p) b pb ∙ ap₂ (λ m n. m * b + n) (sym same) exact ∙ omega arith in
    let multiple : v * b + 0 ≡ a = *-cancel (v * b + 0) a p pp (swap v b p ∙ sym whole) in
    ap (λ n. n % b) (sym multiple) ∙ split-% v 0 b pb
  where
    swap : (v b p : ℕ) → (v * b + 0) * p ≡ v * p * b
    swap v b p = grind arith

-- The digits y of a / b to the place re, cut off after the place k, are a whole number only where there is no rest.
pub no_rest_of :
    (a b y v k re : ℕ)
    → 0 < b
    → b ≤ 10 ^ 16
    → a / b < 10 ^ 16
    → y ≡ a * 10 ^ re / b
    → k ≤ re
    → v * 10 ^ k ≡ y / 10 ^ (re - k)
    → v ≡ a / b
    → (re ≡ 32) ⊎ ((10 ^ 32 ≤ y) ⊎ (a * 10 ^ re % b ≡ 0))
    → (re ≡ 0) ⊎ (y < 10 ^ 33)
    → (y ≤ 10 ^ 32 → k ≡ re - (re - 16))
    → (y < 10 ^ 33 → re - 1 - (re - 17) ≤ k)
    → a % b ≡ 0
no_rest_of a b y v k re pb small_b small digits k_le cut whole stop digit keeps one =
    let same : v * 10 ^ k ≡ a * 10 ^ k / b =
      cut ∙ ap (λ n. n / 10 ^ (re - k)) digits ∙ cut_quotient a b k re k_le in
    elim (lt_or_ge 16 re) [
      | inl many ↦
          let y_small : y < 10 ^ 33 = elim digit [ inl z ↦ absurd (omega arith) | inr lt ↦ lt ] in
          let enough = one y_small in
          let power : 10 ^ 16 ≤ 10 ^ k =
            pow-le-pow_right {n = 10} (omega arith) {i = 16} {j = k}
              (omega (arith, enough, many)) in
          let hidden = hidden_rest a b v k pb whole same in
          elim (lt_or_ge 0 (a % b)) [
            | inl some_rest ↦ let grows = le_mul (10 ^ k) (a % b) some_rest in absurd (omega arith)
            | inr none ↦ omega arith
          ]
      | inr few ↦
          let power : 10 ^ re ≤ 10 ^ 16 = pow-le-pow_right {n = 10} (omega arith) few in
          let first : y / 10 ^ re < 10 ^ 16 =
            omega (arith, ap (λ n. n / 10 ^ re) digits, whole_part) in
          let below : y < 10 ^ 16 * 10 ^ re = (div-lt_iff_lt-mul (ten_pow_pos re)).0 first in
          let y_small : y < 10 ^ 32 = omega arith in
          let all : k ≡ re = omega (arith, keeps (omega arith)) in
          let same' : v * 10 ^ re ≡ a * 10 ^ re / b =
            ap (λ i. v * 10 ^ i) (sym all) ∙ same ∙ ap (λ i. a * 10 ^ i / b) all in
          elim stop [
            | inl end ↦ absurd (omega arith)
            | inr (inl large) ↦ absurd (omega arith)
            | inr (inr exact) ↦ exact_rest a b v (10 ^ re) pb (ten_pow_pos re) same' exact
          ]
    ]
  where
    whole_part : a * 10 ^ re / b / 10 ^ re ≡ a / b
    whole_part =
        div-div-eq-div-mul (a * 10 ^ re) b (10 ^ re) ∙ mul-div-mul_right a b (ten_pow_pos re)
