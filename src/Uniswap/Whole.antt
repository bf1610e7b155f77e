-- ===== src/Uniswap/Whole.antt =====
-- Safe numbers that stand for whole numbers, as the calculations of
-- src/native_contract/native_uniswap_contract.cpp make them.
use uvm.Base.{
  ℕ, ◌+◌, ◌-◌, ◌*◌, ◌/◌, ◌^◌, ◌≤◌, ◌<◌, ◌≡◌, refl, ap, ap₂, sym, ◌∙◌, arith, Bool, true, false, not,
  inl, inr, ◌⊎◌,
}
use native.Mathlib.Nat.{pow-zero}
use uvm.Base.Bits.{zero_quotient, ten_pow_pos}
use uvm.Base.Int.{pos, ◌+ℤ◌}
use uvm.Safe.Word.{done}
use uvm.Safe.Uint128
use uvm.Safe.Uint128.{SimpleUint128, IsUint128, value}
use uvm.Safe.Number.{SafeNumber, valid_number}
use uvm.Safe.Number.Exact.{units, signed, IsDecimal}
use uvm.Safe.Number.Arithmetic
use uvm.Safe.Number.Arithmetic.{create_int64, multiply, to_int64, differ}
use uvm.Safe.Number.Sum.{add_exact}
use uvm.Safe.Number.Product.{multiply_lem}
use uvm.Safe.Number.Quota.{IsQuota}
use uvm.Safe.Number.Whole.{to_int64_lem}

abbrev pub whole : ℕ → SafeNumber
whole n = valid_number true (Uint128.create 0 n) 0

-- A positive number without places that stands for n.
abbrev IsWhole : SafeNumber → ℕ → Type 0
IsWhole a n = IsDecimal a × (a.e ≡ 0) × (value a.x ≡ n) × (a.sign ≡ true) × (0 < n)

pub create_int64-pos : (n : ℕ) → create_int64 (pos n) ≡ done (whole n)
unfolding create_int64 uvm.Safe.Number.create uvm.Safe.Number.compress_number
    uvm.Safe.Number.shorten uvm.Safe.Number.drop_digits uvm.Safe.Number.restore_digits
    uvm.Safe.Number.strip
create_int64-pos n = refl

pub whole-IsWhole : (n : ℕ) → 0 < n → n < 2 ^ 64 → IsWhole (whole n) n
whole-IsWhole n p h = ((refl, (omega arith, omega arith), omega arith), refl, omega arith, refl, p)

scaled_0 : (v i : ℕ) → i ≡ 0 → v * 10 ^ i ≡ v
scaled_0 v i e = ap (λ k. v * 10 ^ k) e ∙ ap (λ k. v * k) (pow-zero 10) ∙ omega arith

pub cut_0 : (v i : ℕ) → i ≡ 0 → v / 10 ^ i ≡ v
cut_0 v i e = ap (λ k. v / 10 ^ k) e ∙ ap (λ k. v / k) (pow-zero 10) ∙ omega arith

mul_pos : (m n : ℕ) → 0 < m → 0 < n → 0 < m * n
mul_pos m n p q = grind arith

sign_of_pos : (s t : Bool) (v n : ℕ) → (s ≡ t) ⊎ (v ≡ 0) → t ≡ true → v ≡ n → 0 < n → s ≡ true
sign_of_pos s t v n (inl e) f g p = e ∙ f
sign_of_pos s t v n (inr z) f g p = absurd (omega arith)

pub multiply-IsWhole :
    (a b : SafeNumber) (m n : ℕ)
    → IsWhole a m
    → IsWhole b n
    → m * n ≤ 10 ^ 32
    → (c : SafeNumber) × (multiply a b ≡ done c) × IsWhole c (m * n)
multiply-IsWhole a b m n p q small =
    let product = ap₂ ◌*◌ p.2 q.2 in
    let (c, run, (form, le, digits, sign)) = multiply_lem a b p.0 q.0 (omega (arith, product)) in
    let no_places : c.e ≡ 0 = omega (arith, p.1, q.1) in
    let v : value c.x ≡ m * n =
      sym (scaled_0 (value c.x) _ (omega (arith, p.1, q.1)))
      ∙ digits
      ∙ cut_0 (value a.x * value b.x) _ (omega (arith, p.1, q.1))
      ∙ product in
    let same : not (differ a.sign b.sign) ≡ true = ground (arith, p.3, q.3) in
    let positive = mul_pos m n p.4 q.4 in
    (
      c,
      run,
      ((form.0, form.1, form.2), no_places, v, sign_of_pos _ _ _ _ sign same v positive, positive),
    )

units_whole : (a : SafeNumber) (m : ℕ) → IsWhole a m → units 0 a ≡ m
units_whole a m p = scaled_0 (value a.x) (0 - a.e) (omega (arith, p.1)) ∙ p.2

signed_pos : (s : Bool) (v n : ℕ) → signed s v ≡ pos n → 0 < n → (v ≡ n) × (s ≡ true)
signed_pos true v n e p = (ground arith, refl)
signed_pos false v n e p = absurd (ground arith)

pos_add : (m n : ℕ) → pos m +ℤ pos n ≡ pos (m + n)
unfolding ◌+ℤ◌
pos_add m n = ground arith

pub add-IsWhole :
    (a b : SafeNumber) (m n : ℕ)
    → IsWhole a m
    → IsWhole b n
    → m + n ≤ 10 ^ 32
    → (c : SafeNumber) × (Arithmetic.add a b ≡ done c) × IsWhole c (m + n)
unfolding ◌+ℤ◌
add-IsWhole a b m n p q small =
    let um = units_whole a m p in
    let un = units_whole b n q in
    let (c, run, form, le, exact) =
      add_exact a b 0 p.0 q.0 (omega (arith, p.1)) (omega (arith, q.1)) (omega (arith, um, un)) in
    let no_places : c.e ≡ 0 = omega arith in
    let sum : signed c.sign (value c.x) ≡ pos (m + n) =
      ap (signed c.sign) (sym (scaled_0 (value c.x) (0 - c.e) (omega arith)))
      ∙ exact
      ∙ ap₂ ◌+ℤ◌ (ap₂ signed p.3 um) (ap₂ signed q.3 un)
      ∙ pos_add m n in
    let (v, sign) = signed_pos c.sign (value c.x) (m + n) sum (omega (arith, p.4)) in
    (c, run, (form, no_places, v, sign, omega (arith, p.4)))

pub signed_cut :
    (s : Bool) (v k r : ℕ) → (s ≡ true) ⊎ (v ≡ 0) → v / k ≡ r → 0 < k → signed s (v / k) ≡ pos r
signed_cut true v k r sign e p = ap pos e
signed_cut false v k r (inl f) e p = cc
signed_cut false v k r (inr z) e p = ground (arith, zero_quotient v k z p)

-- The whole part of a quotient.
pub to_int64_quota :
    (n : SafeNumber) (a b : ℕ) → IsQuota n a b → a / b < 2 ^ 62 → to_int64 n ≡ done (pos (a / b))
to_int64_quota n a b q small =
    to_int64_lem n q.0 (omega (arith, q.1))
    ∙ ap done (signed_cut n.sign (value n.x) (10 ^ n.e) (a / b) q.3 q.1 (ten_pow_pos n.e))
