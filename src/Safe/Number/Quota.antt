-- ===== src/Safe/Number/Quota.antt =====
-- `safe_number_div` of src/safenumber/safenumber.cpp on whole numbers: its whole part is that of the
-- quotient, and it is never above the quotient.
use uvm.Base.{
  ℕ, ◌+◌, ◌-◌, ◌*◌, ◌/◌, ◌%◌, ◌^◌, ◌≤◌, ◌<◌, ◌≡◌, refl, ap, ap₂, sym, ◌∙◌, arith, true, not, inl,
  inr, ◌⊎◌,
}
use native.Mathlib.Nat.{
  div-div-eq-div-mul, div-mul-le_self, mul-div-mul_right, le_of_mul-le-mul_right, le_trans,
  le_of_eq, mul-le-mul_right, pow-zero,
}
use uvm.Base.Bits.{pow_add, ten_pow_pos}
use uvm.Safe.Word.{done}
use uvm.Safe.Uint128.{value}
use uvm.Safe.Number.{SafeNumber}
use uvm.Safe.Number.Compress.{IsStripped}
use uvm.Safe.Number.Rests.{no_rest_of}
use uvm.Safe.Number.Truncation.{scale_split}
use uvm.Safe.Number.Exact.{IsDecimal}
use uvm.Safe.Number.Division.{div_lem}
use uvm.Safe.Number.Arithmetic.{differ, div}

-- The digits x with e places are those of v with p places, and these those of y with q.
module _ (x e v p y q : ℕ) (le : e ≤ p) (le' : p ≤ q) (scaled : x * 10 ^ (p - e) ≡ v)
    (cut : v ≡ y / 10 ^ (q - p)) where
  pub whole_of_cut : x / 10 ^ e ≡ y / 10 ^ q
  whole_of_cut =
      let up : 10 ^ e * 10 ^ (p - e) ≡ 10 ^ p =
        sym (pow_add 10 e (p - e)) ∙ ap (λ k. 10 ^ k) (omega arith) in
      let down : 10 ^ (q - p) * 10 ^ p ≡ 10 ^ q =
        sym (pow_add 10 (q - p) p) ∙ ap (λ k. 10 ^ k) (omega arith) in
      sym (mul-div-mul_right x (10 ^ e) (ten_pow_pos (p - e)))
      ∙ ap₂ (λ m k. m / k) (scaled ∙ cut) up
      ∙ div-div-eq-div-mul y (10 ^ (q - p)) (10 ^ p)
      ∙ ap (λ k. y / k) down

  cut_le : x * 10 ^ (q - e) ≤ y
  cut_le =
      let split : x * 10 ^ (q - e) ≡ x * 10 ^ (p - e) * 10 ^ (q - p) =
        ap (λ k. x * 10 ^ k) (omega arith) ∙ scale_split x (p - e) (q - p) in
      let cut' : x * 10 ^ (p - e) * 10 ^ (q - p) ≡ y / 10 ^ (q - p) * 10 ^ (q - p) =
        ap (λ k. k * 10 ^ (q - p)) (scaled ∙ cut) in
      omega (arith, split, cut', div-mul-le_self y (10 ^ (q - p)))

-- n is a quotient of a by b, cut off at some place, without zeros after the dot. Where it has no places, nothing
-- was cut off.
abbrev pub IsQuota : SafeNumber → ℕ → ℕ → Type 0
IsQuota n a b =
    IsDecimal n
    × (value n.x / 10 ^ n.e ≡ a / b)
    × (value n.x * b ≤ a * 10 ^ n.e)
    × ((n.sign ≡ true) ⊎ (value n.x ≡ 0))
    × IsStripped (value n.x) n.e
    × (n.e ≡ 0 → a / b < 10 ^ 16 → b ≤ 10 ^ 16 → a % b ≡ 0)

whole_quotient : (a b q : ℕ) → a * 10 ^ q / b / 10 ^ q ≡ a / b
whole_quotient a b q =
    div-div-eq-div-mul (a * 10 ^ q) b (10 ^ q) ∙ mul-div-mul_right a b (ten_pow_pos q)

quota_le :
    (x e y q a b : ℕ) → e ≤ q → x * 10 ^ (q - e) ≤ y → y * b ≤ a * 10 ^ q → x * b ≤ a * 10 ^ e
quota_le x e y q a b le small bound =
    let power : 10 ^ q ≡ 10 ^ e * 10 ^ (q - e) =
      ap (λ k. 10 ^ k) (omega arith) ∙ pow_add 10 e (q - e) in
    let scaled : x * 10 ^ (q - e) * b ≤ y * b = mul-le-mul_right b small in
    let left : x * b * 10 ^ (q - e) ≡ x * 10 ^ (q - e) * b = swap x b (10 ^ (q - e)) in
    let right : a * 10 ^ q ≡ a * 10 ^ e * 10 ^ (q - e) =
      ap (λ k. a * k) power ∙ assoc a (10 ^ e) (10 ^ (q - e)) in
    le_of_mul-le-mul_right {m = x * b} {n = a * 10 ^ e} {k = 10 ^ (q - e)}
      (omega (arith, scaled, left, right, bound)) (ten_pow_pos (q - e))
  where
    swap : (x b k : ℕ) → x * b * k ≡ x * k * b
    swap x b k = grind arith

    assoc : (a k l : ℕ) → a * (k * l) ≡ a * k * l
    assoc a k l = grind arith

whole_units : {x e q : ℕ} → e ≡ 0 → x / 10 ^ e ≡ q → x ≡ q
whole_units {x = x} no_places same =
    sym (ap (λ i. x / 10 ^ i) no_places ∙ ap (λ i. x / i) (pow-zero 10) ∙ omega arith) ∙ same

-- A quotient of two positive whole numbers.
pub div_whole :
    (a b : SafeNumber)
    → IsDecimal a
    → IsDecimal b
    → a.e ≡ 0
    → b.e ≡ 0
    → a.sign ≡ true
    → b.sign ≡ true
    → 0 < value a.x
    → 0 < value b.x
    → value b.x < 2 ^ 127
    → (n : SafeNumber) × (div a b ≡ done n) × IsQuota n (value a.x) (value b.x)
div_whole a b p q e f s t pos_a pos_b small =
    let ((n, rx, re, run, long, placed), old) = div_lem a b p q pos_a pos_b small in
    let same : not (differ a.sign b.sign) ≡ true = ground (arith, s, t) in
    elim placed [
      | inl (le, k, (form, le_k, le_n, digits, keeps, same_sign)) ↦
          let place : re + a.e - b.e ≡ re = omega arith in
          let cut : value n.x * 10 ^ (k - n.e) ≡ value rx / 10 ^ (re - k) =
            digits ∙ ap (λ j. value rx / 10 ^ (j - k)) place in
          let k_le : k ≤ re = omega (arith, le_k, place) in
          let whole = whole_of_cut (value n.x) n.e _ k (value rx) re le_n k_le refl cut in
          let below = cut_le (value n.x) n.e _ k (value rx) re le_n k_le refl cut in
          let bound : value rx * value b.x ≤ value a.x * 10 ^ re =
            le_trans (le_of_eq (ap (λ j. j * value b.x) long.2))
              (div-mul-le_self (value a.x * 10 ^ re) (value b.x)) in
          (
            n,
            run,
            (
              (form.0, form.1, form.2),
              whole ∙ ap (λ j. j / 10 ^ re) long.2 ∙ whole_quotient (value a.x) (value b.x) re,
              quota_le (value n.x) n.e (value rx) re (value a.x) (value b.x) (omega arith) below
                  bound,
              elim same_sign [ inl e' ↦ inl (e' ∙ same) | inr z ↦ inr z ],
              form.3,
              (λ no_places small small_b.
                  no_rest_of (value a.x) (value b.x) (value rx) (value n.x) k re pos_b small_b small
                    long.2 k_le (ap (λ i. value n.x * 10 ^ i) (omega (arith, no_places)) ∙ cut)
                    (whole_units no_places (
                      whole
                      ∙ ap (λ j. j / 10 ^ re) long.2
                      ∙ whole_quotient (value a.x) (value b.x) re))
                    long.3 long.4 (λ few. keeps.0 few ∙ ap (λ i. i - (i - 16)) place)
                    (λ few. omega (arith, keeps.1 few, place))),
            ),
          )
      | inr (lt, rest, moved, same_sign) ↦ absurd (omega arith)
    ]
