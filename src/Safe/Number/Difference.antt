-- ===== src/Safe/Number/Difference.antt =====
-- `safe_number_neg` and `safe_number_minus` of src/safenumber/safenumber.cpp are exact on numbers of up
-- to 32 digits.
use uvm.Base.{
  ℕ, ◌+◌, ◌-◌, ◌*◌, ◌^◌, ◌≤◌, ◌≡◌, refl, ap, ap₂, sym, ◌∙◌, arith, Bool, true, false, inl, inr,
  Bool-cases, not,
}
use uvm.Base.Int.{ℤ, pos, parts, ◌+ℤ◌, ◌-ℤ◌, +ℤ_parts, -ℤ_parts, eq_of_parts}
use native.Mathlib.Nat.{pow-zero}
use uvm.Base.Bits.{le_mul, ten_pow_pos}
use uvm.Safe.Word.{done}
use uvm.Safe.Uint128.{value}
use uvm.Safe.Number.{SafeNumber}
use uvm.Safe.Number.Exact.{signed, units, signed_units, IsDecimal, create_exact}
use uvm.Safe.Number.Arithmetic.{is_zero, neg, minus}
use uvm.Safe.Number.Sum.{scale_sum, units_scale, zero_units, add_exact}

opposite : (s : Bool) (v : ℕ) → pos 0 ≡ signed (not s) v +ℤ signed s v
unfolding ◌+ℤ◌
opposite true v = ground arith
opposite false v = ground arith

zero_opposite : (s : Bool) (v : ℕ) → v ≡ 0 → pos 0 ≡ signed s v +ℤ signed s v
unfolding ◌+ℤ◌
zero_opposite true v e = ground (arith, e)
zero_opposite false v e = ground (arith, e)

own_units : (b : SafeNumber) → units b.e b ≡ value b.x
own_units b =
    let none : b.e - b.e ≡ 0 = omega arith in
    ap (λ k. value b.x * 10 ^ k) none ∙ ap (λ k. value b.x * k) (pow-zero 10) ∙ omega arith

-- The negative of a number of up to 32 digits has the places of the number or fewer, the same number of
-- units and, in units of any place from its last one on, is the opposite.
pub neg_exact :
    (b : SafeNumber) (m : ℕ)
    → IsDecimal b
    → b.e ≤ m
    → value b.x ≤ 10 ^ 32
    → (n : SafeNumber) × (neg b ≡ done n)
      × IsDecimal n
      × (n.e ≤ b.e)
      × (units m n ≡ units m b)
      × (pos 0 ≡ signed_units m n +ℤ signed_units m b)
unfolding neg
neg_exact b m p le small =
    let valid : not b.valid ≡ false = ground (arith, p.0) in
    elim (Bool-cases (is_zero b)) [
      | inl z ↦ (
        b,
        rw (valid, z, neg) refl,
        p,
        omega arith,
        refl,
        zero_opposite b.sign (units m b) (zero_units b m z),
      )
      | inr nz ↦
          let (n, run, form, le_n, kept, exact) = create_exact (not b.sign) b.x b.e p.1 p.2 small in
          let same : units m n ≡ units m b =
            units_scale n b.e m le_n le
            ∙ ap (λ k. k * 10 ^ (m - b.e)) (kept ∙ sym (own_units b))
            ∙ sym (units_scale b b.e m (omega arith) le) in
          let base : pos 0 ≡ signed_units b.e n +ℤ signed_units b.e b =
            opposite b.sign (value b.x) ∙ sym (ap₂ ◌+ℤ◌ exact (ap (signed b.sign) (own_units b))) in
          let scaled : pos 0 ≡ signed_units m n +ℤ signed_units m b =
            ap pos zero_scale
            ∙ scale_sum true n.sign b.sign 0 _ _ (10 ^ (m - b.e)) base
            ∙ sym (
                ap₂ (λ x y. signed n.sign x +ℤ signed b.sign y) (units_scale n b.e m le_n le)
                  (units_scale b b.e m (omega arith) le)) in
          (n, rw (valid, nz, neg) run, (form.0, form.1, form.2), le_n, same, scaled)
    ]
  where
    zero_scale : 0 ≡ 0 * 10 ^ (m - b.e)
    zero_scale = omega arith

minus_parts : (n a b b' : ℤ) → n ≡ a +ℤ b' → pos 0 ≡ b' +ℤ b → n ≡ a -ℤ b
minus_parts n a b b' e f =
    eq_of_parts n (a -ℤ b)
      (omega (arith, parts e, parts f, +ℤ_parts a b', +ℤ_parts b' b, -ℤ_parts a b))

-- A difference is exact: counted in units of any place from the last of the two numbers on, the
-- sixteenth at most, it is the signed difference of the two, where their digits add up to 10 ^ 32 at
-- most.
pub minus_exact :
    (a b : SafeNumber) (m : ℕ)
    → IsDecimal a
    → IsDecimal b
    → a.e ≤ m
    → b.e ≤ m
    → units m a + units m b ≤ 10 ^ 32
    → (n : SafeNumber) × (minus a b ≡ done n)
      × IsDecimal n
      × (n.e ≤ m)
      × (signed_units m n ≡ signed_units m a -ℤ signed_units m b)
unfolding minus
minus_exact a b m p q le le' small =
    let grows = le_mul (value b.x) (10 ^ (m - b.e)) (ten_pow_pos (m - b.e)) in
    let (b', run, ok, le_b, same, opposite_b) = neg_exact b m q le' (omega arith) in
    let (n, run', ok', le_n, exact) = add_exact a b' m p ok le (omega arith) (omega arith) in
    (n, rw run run', ok', le_n, minus_parts _ _ _ _ exact opposite_b)
