-- ===== src/Safe/Number/Product.antt =====
-- `safe_number_multiply` of src/safenumber/safenumber.cpp is the product, truncated to 16 places.
use uvm.Base.{
  ℕ, zero, suc, ◌+◌, ◌-◌, ◌*◌, ◌/◌, ◌%◌, ◌^◌, ◌≤◌, ◌<◌, ◌≡◌, refl, ap, ap₂, sym, subst, ◌∙◌, arith,
  Bool, true, false, inl, inr, not, ◌||◌, ◌⊎◌, Bool-cases,
}
use uvm.Base.Bits.{zero_quotient, ten_pow_pos}
use uvm.Safe.Word.{done}
use uvm.Safe.Uint128
use uvm.Safe.Uint128.{SimpleUint128, IsUint128, value, uint128_0}
use uvm.Safe.Uint256
use uvm.Safe.Uint256.{SimpleUint256}
use uvm.Safe.Uint256.Product
use uvm.Safe.Number.{SafeNumber, valid_number, create, safe_number_zero}
use uvm.Safe.Number.Truncation.{IsCompressed, compress_number_lem}
use uvm.Safe.Number.Exact.{units, IsDecimal}
use uvm.Safe.Number.Arithmetic.{differ, is_zero, fit_product, multiply}

-- A product of 128 bits is left as it is.
fit_product_lem :
    (abx : SimpleUint256) (e : ℕ)
    → Uint256.IsUint256 abx
    → Uint256.value abx < 2 ^ 128
    → fit_product abx e ≡ done (abx, e)
unfolding fit_product
fit_product_lem abx zero h small = refl
fit_product_lem abx (suc e) h small =
    let none : Uint128.is_zero abx.big ≡ true = ground arith in rw (none, fit_product) refl

-- n is a product of digits with e places, truncated to 16, with the sign of the factors.
abbrev pub IsProduct : SafeNumber → Bool → ℕ → ℕ → Type 0
IsProduct n sign digits e =
    IsCompressed n
    × (n.e ≤ e - (e - 16))
    × (units (e - (e - 16)) n ≡ digits / 10 ^ (e - (e - (e - 16))))
    × ((n.sign ≡ sign) ⊎ (value n.x ≡ 0))

create-IsProduct :
    (sign : Bool) (x : SimpleUint128) (e : ℕ)
    → IsUint128 x
    → value x ≤ 10 ^ 32
    → (n : SafeNumber) × (create sign x e ≡ done n) × IsProduct n sign (value x) e
unfolding create
create-IsProduct sign x e h small =
    let (n, p, run, (form, le, le', digits, keeps, same_sign)) =
      compress_number_lem (valid_number sign x e) refl h in
    let place = keeps.0 small in
    (
      n,
      run,
      (
        form,
        omega (arith, place),
        sym (ap (λ k. units k n) place) ∙ digits ∙ ap (λ k. value x / 10 ^ (e - k)) place,
        same_sign,
      ),
    )

zero_product : (x y : ℕ) → (x ≡ 0) ⊎ (y ≡ 0) → x * y ≡ 0
zero_product x y (inl e) = ap (λ n. n * y) e ∙ omega arith
zero_product x y (inr e) = ap (λ n. x * n) e ∙ omega arith

-- A product of decimals whose digits give no more than 10 ^ 32 is that of the numbers, truncated to 16
-- places, with the sign of the two.
pub multiply_lem :
    (a b : SafeNumber)
    → IsDecimal a
    → IsDecimal b
    → value a.x * value b.x ≤ 10 ^ 32
    → (n : SafeNumber) × (multiply a b ≡ done n)
      × IsProduct n (not (differ a.sign b.sign)) (value a.x * value b.x) (a.e + b.e)
unfolding multiply is_zero
multiply_lem a b p q small =
    let valid : not a.valid || not b.valid ≡ false = ground (arith, p.0, q.0) in
    elim (Bool-cases (is_zero a || is_zero b)) [
      | inl z ↦
          let none : value a.x * value b.x ≡ 0 = zero_product _ _ (elim (Bool-cases (is_zero a)) [
            | inl za ↦ inl (ground (arith, za))
            | inr zb ↦ inr (ground (arith, z, zb))
          ]) in
          let e = a.e + b.e in
          let k = e - (e - (e - 16)) in
          (
            safe_number_zero,
            rw (valid, z, multiply) refl,
            (
              (refl, (omega arith, omega arith), omega arith, inl refl),
              omega arith,
              omega (arith, zero_quotient (value a.x * value b.x) (10 ^ k) none (ten_pow_pos k)),
              inr refl,
            ),
          )
      | inr nz ↦
          let a256 = Uint256.create uint128_0 a.x in
          let b256 = Uint256.create uint128_0 b.x in
          let ok_a : Uint256.IsUint256 a256 = ((omega arith, omega arith), p.1) in
          let ok_b : Uint256.IsUint256 b256 = ((omega arith, omega arith), q.1) in
          let va : Uint256.value a256 ≡ value a.x = omega arith in
          let vb : Uint256.value b256 ≡ value b.x = omega arith in
          let (ok, v) = Uint256.Product.value-multi a256 b256 ok_a ok_b in
          let product : Uint256.value (Uint256.Multi.multi a256 b256) ≡ value a.x * value b.x =
            v ∙ ap (λ k. k % 2 ^ 256) (ap₂ ◌*◌ va vb) ∙ omega arith in
          let fit = fit_product_lem (Uint256.Multi.multi a256 b256) (a.e + b.e) ok (omega arith) in
          let low : value (Uint256.Multi.multi a256 b256).low ≡ value a.x * value b.x =
            omega (arith, product) in
          let sign = not (differ a.sign b.sign) in
          let (n, run, form) = create-IsProduct sign _ (a.e + b.e) ok.1 (omega (arith, low)) in
          (
            n,
            rw (valid, nz, fit, multiply) run,
            subst (λ d. IsProduct n sign d (a.e + b.e)) low form,
          )
    ]
