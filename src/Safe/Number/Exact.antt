-- ===== src/Safe/Number/Exact.antt =====
-- `safe_number_create` of src/safenumber/safenumber.cpp keeps a number of at most 32 digits and 16
-- places, as a signed number of units of any of its places.
use uvm.Base.{
  ℕ, ◌-◌, ◌*◌, ◌/◌, ◌^◌, ◌≤◌, ◌<◌, ◌≡◌, refl, ap, ap₂, sym, ◌∙◌, arith, Bool, true, false, inl, inr,
}
use native.Mathlib.Nat.{pow-zero, pow-le-pow_right}
use uvm.Base.Int.{ℤ, pos, sub_ℕ}
use uvm.Safe.Word.{done}
use uvm.Safe.Uint128
use uvm.Safe.Uint128.{SimpleUint128, IsUint128, value}
use uvm.Safe.Uint128.Multi.{multi_word, multi_lem}
use uvm.Safe.Number.{SafeNumber, valid_number, create}
use uvm.Safe.Number.Truncation.{IsCompressed, compress_number_lem}

abbrev pub signed : Bool → ℕ → ℤ
signed true n = pos n
signed false n = sub_ℕ 0 n

-- The number of units of the m-th place, for m at least e, and the signed one.
abbrev pub units : ℕ → SafeNumber → ℕ
units m a = value a.x * 10 ^ (m - a.e)

abbrev pub signed_units : ℕ → SafeNumber → ℤ
signed_units m a = signed a.sign (units m a)

-- A valid number in the documented range of places.
abbrev pub IsDecimal : SafeNumber → Type 0
IsDecimal a = (a.valid ≡ true) × IsUint128 a.x × (a.e ≤ 16)

signed_zero : (s t : Bool) → signed s 0 ≡ signed t 0
signed_zero true true = refl
signed_zero true false = refl
signed_zero false true = refl
signed_zero false false = refl

-- The normal form stands for the same number of units of the places it came from.
pub create_exact :
    (sign : Bool) (x : SimpleUint128) (e : ℕ)
    → IsUint128 x
    → e ≤ 16
    → value x ≤ 10 ^ 32
    → (n : SafeNumber) × (create sign x e ≡ done n)
      × IsCompressed n
      × (n.e ≤ e)
      × (units e n ≡ value x)
      × (signed_units e n ≡ signed sign (value x))
unfolding create
create_exact sign x e h few small =
    let (n, p, run, (form, le, le', digits, keeps, same_sign)) =
      compress_number_lem (valid_number sign x e) refl h in
    let p_e : p ≡ e = omega (arith, keeps.0 small) in
    let none : e - p ≡ 0 = omega arith in
    let kept : units e n ≡ value x =
      sym (ap (λ k. value n.x * 10 ^ (k - n.e)) p_e)
      ∙ digits
      ∙ ap (λ k. value x / 10 ^ k) none
      ∙ ap (λ k. value x / k) (pow-zero 10)
      ∙ omega arith in
    let sign_kept : signed_units e n ≡ signed sign (value x) = elim same_sign [
      | inl s ↦ ap₂ signed s kept
      | inr z ↦
          let zero_units : units e n ≡ 0 = ap (λ k. k * 10 ^ (e - n.e)) z ∙ omega arith in
          let zero_x : value x ≡ 0 = sym kept ∙ zero_units in
          ap (signed n.sign) zero_units ∙ signed_zero n.sign sign ∙ sym (ap (signed sign) zero_x)
    ] in
    (n, run, form, omega arith, kept, sign_kept)

-- Ten to the power of up to 19 is a uint64_t.
pub ten_pow_fits : (k : ℕ) → k ≤ 16 → 10 ^ k < 2 ^ 64
ten_pow_fits k h =
    let le : 10 ^ k ≤ 10 ^ 16 = pow-le-pow_right {n = 10} (omega arith) h in omega arith

-- An alignment to more places multiplies by a power of ten.
pub multi_word_lem :
    (x : SimpleUint128) (n : ℕ)
    → IsUint128 x
    → n < 2 ^ 64
    → value x * n < 2 ^ 128
    → IsUint128 (multi_word x n) × (value (multi_word x n) ≡ value x * n)
unfolding multi_word
multi_word_lem x n h fits room =
    let (ok, e) = multi_lem x (Uint128.create 0 n) h (omega arith, fits) in
    let v : value (Uint128.create 0 n) ≡ n = omega arith in
    (ok, omega (arith, e, ap (λ k. value x * k) v))
