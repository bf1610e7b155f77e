-- ===== src/Safe/Number/Whole.antt =====
-- `safe_number_to_int64` and `safe_number_to_int64_floor` of src/safenumber/safenumber.cpp keep whole
-- parts below 2 ^ 62.
use uvm.Base.{
  ℕ, ◌-◌, ◌/◌, ◌%◌, ◌^◌, ◌≤◌, ◌<◌, ◌≡◌, ap, sym, ◌∙◌, arith, Bool, true, false, inl, inr, not,
  Bool-cases, ltb,
}
use native.Mathlib.Nat.{pow-zero}
use uvm.Base.Bits.{ten_pow_pos, zero_quotient}
use uvm.Base.Int.{pos, negsuc, ◌-ℤ◌}
use uvm.Safe.Word.{done}
use uvm.Safe.Uint128.{value}
use uvm.Safe.Uint128.Quotient.{divmod_small}
use uvm.Safe.Number.{SafeNumber}
use uvm.Safe.Number.Exact.{signed, IsDecimal, ten_pow_fits}
use uvm.Safe.Number.Arithmetic.{is_zero, drop_top_bit, with_sign, to_int64}

with_sign_lem :
    (s : Bool) (n : ℕ) → n < 2 ^ 62 → with_sign s (drop_top_bit (n % 2 ^ 64)) ≡ signed s n
unfolding drop_top_bit ◌-ℤ◌
with_sign_lem true n h = ground arith
with_sign_lem false n h = ground arith

zero_whole : (v e : ℕ) (s : Bool) → v ≡ 0 → pos 0 ≡ signed s (v / 10 ^ e)
zero_whole v e true z = ap pos (sym (zero_quotient v (10 ^ e) z (ten_pow_pos e)))
zero_whole v e false z = ground (arith, zero_quotient v (10 ^ e) z (ten_pow_pos e))

-- The conversion gives the whole part with its sign, where that is below 2 ^ 62.
pub to_int64_lem :
    (a : SafeNumber)
    → IsDecimal a
    → value a.x / 10 ^ a.e < 2 ^ 62
    → to_int64 a ≡ done (signed a.sign (value a.x / 10 ^ a.e))
unfolding to_int64 is_zero
to_int64_lem a p small =
    let valid : not a.valid ≡ false = ground (arith, p.0) in
    elim (Bool-cases (is_zero a)) [
      | inl z ↦
          rw (valid, z, to_int64) (ap done (zero_whole (value a.x) a.e a.sign (ground (arith, z))))
      | inr nz ↦ elim (Bool-cases (ltb 0 a.e)) [
        | inl t ↦
            rw
              (
                valid,
                nz,
                t,
                divmod_small a.x (10 ^ a.e) p.1 (ten_pow_pos a.e) (ten_pow_fits a.e p.2),
                to_int64,
              )
              (ap done (with_sign_lem a.sign (value a.x / 10 ^ a.e) small))
        | inr f ↦ rw (valid, nz, f, to_int64) (ap done (all_whole f))
      ]
    ]
  where
    all_whole :
        ltb 0 a.e ≡ false
        → with_sign a.sign (drop_top_bit a.x.low) ≡ signed a.sign (value a.x / 10 ^ a.e)
    all_whole f =
        let none : a.e ≡ 0 = ground (arith, f) in
        let whole : value a.x / 10 ^ a.e ≡ value a.x =
          ap (λ k. value a.x / 10 ^ k) none ∙ ap (λ k. value a.x / k) (pow-zero 10) ∙ omega arith in
        let low : a.x.low ≡ value a.x / 10 ^ a.e % 2 ^ 64 = omega (arith, whole) in
        ap (λ k. with_sign a.sign (drop_top_bit k)) low
        ∙ with_sign_lem a.sign (value a.x / 10 ^ a.e) small

-- A whole number from 2 ^ 62 to 2 ^ 63 - 1 comes out 2 ^ 63 too small, below 0.
pub to_int64_wraps :
    (a : SafeNumber)
    → IsDecimal a
    → a.sign ≡ true
    → a.e ≡ 0
    → 2 ^ 62 ≤ value a.x
    → value a.x < 2 ^ 63
    → to_int64 a ≡ done (negsuc (2 ^ 63 - value a.x - 1))
unfolding to_int64 is_zero drop_top_bit
to_int64_wraps a p sign none big small =
    let valid : not a.valid ≡ false = ground (arith, p.0) in
    let nonzero : is_zero a ≡ false = ground arith in
    let whole : ltb 0 a.e ≡ false = ground (arith, none) in
    let low : with_sign a.sign (drop_top_bit a.x.low) ≡ negsuc (2 ^ 63 - value a.x - 1) =
      ground (arith, sign) in
    rw (valid, nonzero, whole, to_int64) (ap done low)
