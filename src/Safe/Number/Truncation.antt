-- ===== src/Safe/Number/Truncation.antt =====
-- `compress_number` of src/safenumber/safenumber.cpp brings a number to a normal form and truncates
-- it to 16 places.
use uvm.Base.{ℕ, suc, ◌+◌, ◌-◌, ◌*◌, ◌/◌, ◌^◌, ◌≤◌, ◌<◌, ◌≡◌, refl, ap, sym, ◌∙◌, arith}
use uvm.Base.{true, ltb, Bool-cases, inl, inr, ◌⊎◌}
use native.Mathlib.Nat.{pow-suc, div-div-eq-div-mul, div-mul-le_self, le_trans, le_of_eq}
use uvm.Base.Bits.{le_mul, ten_pow_pos, pow_add}
use uvm.Safe.Word.{done}
use uvm.Safe.Uint128.{SimpleUint128, IsUint128, value}
use uvm.Safe.Number.{SafeNumber, settle_number, restore_digits, compress_number}
use uvm.Safe.Number.Compress.{
  shorten_lem, drop_digits_lem, restore_digits_lem, strip_lem, IsStripped,
}

-- A number in normal form: at most 16 places, and no zero at their end unless its value is 0.
abbrev pub IsCompressed : SafeNumber → Type 0
IsCompressed n = (n.valid ≡ true) × IsUint128 n.x × (n.e ≤ 16) × IsStripped (value n.x) n.e

pub *-cancel : (a b c : ℕ) → 0 < c → a * c ≡ b * c → a ≡ b
*-cancel a b c p e = grind arith

div_pow_add : (v m k : ℕ) → v / 10 ^ m / 10 ^ k ≡ v / 10 ^ (m + k)
div_pow_add v m k = div-div-eq-div-mul v (10 ^ m) (10 ^ k) ∙ ap (λ n. v / n) (sym (pow_add 10 m k))

-- A product by a higher power of ten, split at the lower one.
pub scale_split : (v m k : ℕ) → v * 10 ^ (m + k) ≡ v * 10 ^ m * 10 ^ k
scale_split v m k = ap (λ n. v * n) (pow_add 10 m k) ∙ assoc v (10 ^ m) (10 ^ k)
  where
    assoc : (a b c : ℕ) → a * (b * c) ≡ a * b * c
    assoc a b c = grind arith

-- The places that are left after the first loops are stripped off, down to 16.
scale_down :
    (z y d f : ℕ)
    → f ≤ d
    → f ≤ 16
    → z * 10 ^ (d - f) ≡ y * 10 ^ (d - 16)
    → z * 10 ^ (d - (d - 16) - f) ≡ y
scale_down z y d f p q e =
    let split : d - f ≡ d - (d - 16) - f + (d - 16) = omega arith in
    *-cancel _ _ (10 ^ (d - 16)) (ten_pow_pos (d - 16))
      (sym (scale_split z (d - (d - 16) - f) (d - 16)) ∙ ap (λ n. z * 10 ^ n) (sym split) ∙ e)

-- More than 16 places are left only of zero.
scale_rest :
    (z y d f : ℕ) → f ≤ d → 16 < f → z * 10 ^ (d - f) ≡ y * 10 ^ (d - 16) → IsStripped z f → y ≡ 0
scale_rest z y d f p q e stripped =
    let split : d - 16 ≡ suc (f - 17) + (d - f) = omega arith in
    let z_tens : z ≡ y * 10 ^ suc (f - 17) =
      *-cancel _ _ (10 ^ (d - f)) (ten_pow_pos (d - f))
        (e ∙ ap (λ n. y * 10 ^ n) split ∙ scale_split y (suc (f - 17)) (d - f)) in
    let tens : y * 10 ^ suc (f - 17) ≡ y * 10 ^ (f - 17) * 10 =
      ap (λ n. y * n) (pow-suc 10 (f - 17)) ∙ assoc y (10 ^ (f - 17)) in
    let grows : y ≤ y * 10 ^ (f - 17) = le_mul y (10 ^ (f - 17)) (ten_pow_pos (f - 17)) in
    elim stripped [
      | inl none ↦ omega arith
      | inr (inl none) ↦ absurd (omega arith)
      | inr (inr digit) ↦ absurd (omega arith)
    ]
  where
    assoc : (a b : ℕ) → a * (b * 10) ≡ a * b * 10
    assoc a b = grind arith

-- n is a in normal form: the digits of a up to the place p, the sixteenth at most; p is the last
-- place of a, or the sixteenth, where a has no more than 32 digits, and at most one place less below 10 ^ 33.
abbrev pub IsTruncated : SafeNumber → SafeNumber → ℕ → Type 0
IsTruncated a n p =
    IsCompressed n
    × (p ≤ a.e)
    × (n.e ≤ p)
    × (value n.x * 10 ^ (p - n.e) ≡ value a.x / 10 ^ (a.e - p))
    × ((value a.x ≤ 10 ^ 32 → p ≡ a.e - (a.e - 16))
        × (value a.x < 10 ^ 33 → a.e - 1 - (a.e - 17) ≤ p))
    × ((n.sign ≡ a.sign) ⊎ (value n.x ≡ 0))

settle_lem :
    (a : SafeNumber) (y z : SimpleUint128) (d f : ℕ)
    → IsUint128 z
    → d ≤ a.e
    → f ≤ d
    → value z * 10 ^ (d - f) ≡ value y * 10 ^ (d - 16)
    → IsStripped (value z) f
    → value y ≡ value a.x / 10 ^ (a.e - (d - (d - 16)))
    → (value a.x ≤ 10 ^ 32 → d ≡ a.e)
    → (value a.x < 10 ^ 33 → a.e ≤ d + 1)
    → IsTruncated a (settle_number a.sign z f) (d - (d - 16))
settle_lem a y z d f ok le le' e stripped digits keeps one = elim (Bool-cases (ltb 16 f)) [
  | inl t ↦
      let none : value y ≡ 0 =
        scale_rest (value z) (value y) d f le' (ground (arith, t)) e stripped in
      rw t (
        (refl, (omega arith, omega arith), omega arith, inl refl),
        omega arith,
        omega arith,
        omega (arith, none, digits),
        ((λ small. ap (λ n. n - (n - 16)) (keeps small)), λ small. omega (arith, one small)),
        inr refl,
      )
  | inr t ↦
      let few : f ≤ 16 = ground (arith, t) in
      rw t (
        (refl, ok, few, stripped),
        omega arith,
        omega arith,
        scale_down (value z) (value y) d f le' few e ∙ digits,
        ((λ small. ap (λ n. n - (n - 16)) (keeps small)), λ small. omega (arith, one small)),
        inl refl,
      )
]

-- compress_number of a valid number ends with a normal form: 16 places at most, and no zero at their end
-- unless its value is 0. It is the number cut off at some place, which is its last or the sixteenth where
-- it has no more than 32 digits, and its sign is kept unless it is 0.
pub compress_number_lem :
    (a : SafeNumber)
    → a.valid ≡ true
    → IsUint128 a.x
    → (n : SafeNumber) × (p : ℕ) × (compress_number a ≡ done n) × IsTruncated a n p
unfolding compress_number
compress_number_lem a valid h =
    let (x, d, e1, ok1, le1, v1, keeps, one) = shorten_lem a.x a.e h in
    let (y, e2, ok2, v2) = drop_digits_lem x d ok1 in
    let cut : value y * 10 ^ (d - 16) ≤ value x =
      le_trans (le_of_eq (ap (λ n. n * 10 ^ (d - 16)) v2))
        (div-mul-le_self (value x) (10 ^ (d - 16))) in
    let (ok3, v3) = restore_digits_lem y (d - 16) ok2 (omega arith) in
    let (z, f, e4, ok4, le4, v4, stripped) = strip_lem (restore_digits y (d - 16)) d ok3 in
    let split : a.e - d + (d - 16) ≡ a.e - (d - (d - 16)) = omega arith in
    let digits =
      v2
      ∙ ap (λ n. n / 10 ^ (d - 16)) v1
      ∙ div_pow_add (value a.x) (a.e - d) (d - 16)
      ∙ ap (λ n. value a.x / 10 ^ n) split in
    (
      settle_number a.sign z f,
      d - (d - 16),
      rw (valid, e1, e2, e4, compress_number) refl,
      settle_lem a y z d f ok4 le1 le4 (v4 ∙ v3) stripped digits keeps one,
    )
