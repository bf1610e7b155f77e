-- ===== src/Safe/Number/Division.antt =====
-- `safe_number_div` of src/safenumber/safenumber.cpp: the signs and the places of a quotient.
use uvm.Base.{
  ℕ, ◌+◌, ◌-◌, ◌*◌, ◌/◌, ◌%◌, ◌^◌, ◌≤◌, ◌<◌, ◌≡◌, refl, ap, subst, ◌∙◌, arith, Bool, false, inl,
  inr, not, ◌||◌, ◌⊎◌, Bool-cases, leb,
}
use native.Mathlib.Nat.{pow-zero, div-le_self}
use uvm.Safe.Word.{Outcome, done}
use uvm.Safe.Uint128
use uvm.Safe.Uint128.{SimpleUint128, IsUint128, value, uint128_0}
use uvm.Safe.Uint128.Multi.{multi_word, multi_lem}
use uvm.Safe.Uint256
use uvm.Safe.Number.{SafeNumber, valid_number, create}
use uvm.Safe.Number.Truncation.{IsTruncated, compress_number_lem}
use uvm.Safe.Number.Exact.{IsDecimal, ten_pow_fits}
use uvm.Safe.Number.LongDivision.{IsLongQuotient, div_digits_lem}
use uvm.Safe.Number.Arithmetic.{differ, is_zero, place_quotient, div_to, div, div_old}

-- n has the digits rx, with the last of them at the place re + a_e - b_e. Where that is negative, the
-- digits are moved up to the units, modulo 2 ^ 128.
abbrev pub IsPlaced : Bool → ℕ → ℕ → SimpleUint128 → ℕ → SafeNumber → Type 0
IsPlaced sign a_e b_e rx re n =
    ((b_e ≤ re + a_e) × (p : ℕ) × IsTruncated (valid_number sign rx (re + a_e - b_e)) n p)
    ⊎ ((re + a_e < b_e)
        × (n.e ≡ 0)
        × (value n.x ≡ value rx * 10 ^ (b_e - a_e - re) % 2 ^ 128)
        × ((n.sign ≡ sign) ⊎ (value n.x ≡ 0)))

unscaled : (n m p k : ℕ) → p ≤ 0 → k ≤ p → n * 10 ^ (p - k) ≡ m / 10 ^ (0 - p) → n ≡ m
unscaled n m p k h h' e =
    let p_k : p - k ≡ 0 = omega arith in
    let p_0 : 0 - p ≡ 0 = omega arith in
    let left : n * 10 ^ (p - k) ≡ n * 10 ^ 0 = ap (λ j. n * 10 ^ j) p_k in
    let right : m / 10 ^ (0 - p) ≡ m / 10 ^ 0 = ap (λ j. m / 10 ^ j) p_0 in
    omega (arith, e, left, right, pow-zero 10)

place_quotient_lem :
    (sign : Bool) (a_e b_e : ℕ) (rx : SimpleUint128) (re : ℕ)
    → b_e ≤ 16
    → IsUint128 rx
    → (n : SafeNumber) × (place_quotient sign a_e b_e rx re ≡ done n)
      × IsPlaced sign a_e b_e rx re n
unfolding place_quotient create multi_word
place_quotient_lem sign a_e b_e rx re few ok = elim (Bool-cases (leb b_e (re + a_e))) [
  | inl t ↦
      let (n, p, run, form) = compress_number_lem (valid_number sign rx (re + a_e - b_e)) refl ok in
      (n, rw (t, place_quotient) run, inl (ground (arith, t), p, form))
  | inr t ↦
      let k = b_e - a_e - re in
      let fits = ten_pow_fits k (omega arith) in
      let (ok', v) = multi_lem rx (Uint128.create 0 (10 ^ k)) ok (omega arith, fits) in
      let power : value (Uint128.create 0 (10 ^ k)) ≡ 10 ^ k = omega arith in
      let (n, p, run, (form, le, le', digits, keeps, same_sign)) =
        compress_number_lem (valid_number sign (multi_word rx (10 ^ k)) 0) refl ok' in
      (
        n,
        rw (t, place_quotient) run,
        inr (
          ground (arith, t),
          omega arith,
          unscaled _ _ p n.e le le' digits ∙ v ∙ ap (λ j. value rx * j % 2 ^ 128) power,
          same_sign,
        ),
      )
]

first_digits : (n m b : ℕ) → m ≡ n → n * 10 ^ 0 ≡ 0 * b * 10 + m
first_digits n m b e = ap (λ k. n * k) (pow-zero 10) ∙ grind arith

-- The run gives a quotient of a and b, by a long division to a number of places.
abbrev pub IsQuotient : ℕ → Outcome SafeNumber → SafeNumber → SafeNumber → Type 0
IsQuotient places run a b =
    (n : SafeNumber) × (rx : SimpleUint128) × (re : ℕ) × (run ≡ done n)
    × IsLongQuotient places (value a.x) (value b.x) rx re
    × IsPlaced (not (differ a.sign b.sign)) a.e b.e rx re n

div_to_lem :
    (places : ℕ) (a b : SafeNumber)
    → IsDecimal a
    → IsDecimal b
    → 0 < value a.x
    → 0 < value b.x
    → value b.x < 2 ^ 127
    → IsQuotient places (div_to places a b) a b
unfolding div_to is_zero
div_to_lem places a b p q pos_a pos_b small =
    let valid : not a.valid || not b.valid ≡ false = ground (arith, p.0, q.0) in
    let some_a : is_zero a ≡ false = ground arith in
    let some_b : is_zero b ≡ false = ground arith in
    let a256 = Uint256.create uint128_0 a.x in
    let b256 = Uint256.create uint128_0 b.x in
    let va : Uint256.value a256 ≡ value a.x = omega arith in
    let vb : Uint256.value b256 ≡ value b.x = omega arith in
    let start : value a.x * 10 ^ 0
        ≡ value uint128_0 * Uint256.value b256 * 10 + Uint256.value a256 =
      first_digits (value a.x) _ (Uint256.value b256) va in
    let (rx, re, run, long) =
      div_digits_lem places (places + 1) a256 b256 uint128_0 0 (value a.x) (omega arith)
        (omega arith) ((omega arith, omega arith), p.1) ((omega arith, omega arith), q.1)
        (omega arith) (omega arith) (omega arith) (omega arith, omega arith) (omega arith)
        (omega (arith, div-le_self (Uint256.value a256) (Uint256.value b256))) start (inl refl) in
    let (n, run', placed) =
      place_quotient_lem (not (differ a.sign b.sign)) a.e b.e rx re q.2 long.0 in
    (
      n,
      rx,
      re,
      rw (valid, some_a, some_b, run, div_to) run',
      subst (λ d. IsLongQuotient places (value a.x) d rx re) vb long,
      placed,
    )

-- A quotient of two decimals, neither of them 0 and the divisor below 2 ^ 127, ends, and so does the
-- older one. Its digits are those of the long division up to a place where the rest is 0, the digits
-- are 10 ^ 32 or more, or 32 places are done, for the older one 16; it has the place that the places
-- of the two ask for, is moved up to the units modulo 2 ^ 128 where that is negative, and has the sign
-- of the two unless it is 0.
pub div_lem :
    (a b : SafeNumber)
    → IsDecimal a
    → IsDecimal b
    → 0 < value a.x
    → 0 < value b.x
    → value b.x < 2 ^ 127
    → IsQuotient 32 (div a b) a b × IsQuotient 16 (div_old a b) a b
unfolding div div_old
div_lem a b p q pos_a pos_b small =
    (div_to_lem 32 a b p q pos_a pos_b small, div_to_lem 16 a b p q pos_a pos_b small)
