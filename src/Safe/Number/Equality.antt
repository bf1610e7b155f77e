-- ===== src/Safe/Number/Equality.antt =====
-- `safe_number_eq` of src/safenumber/safenumber.cpp tells whether two numbers in normal form are the
-- same number.
use uvm.Base.{
  ℕ, suc, ◌+◌, ◌-◌, ◌*◌, ◌^◌, ◌≤◌, ◌<◌, ◌≡◌, refl, ap, ap₂, sym, ◌∙◌, arith, Bool, true, false, inl,
  inr, lt_or_ge,
}
use native.Mathlib.Nat.{pow-suc}
use uvm.Base.Bits.{ten_pow_pos}
use uvm.Base.Int.{parts}
use uvm.Safe.Uint128.{value}
use uvm.Safe.Uint128.Sums.{order_lem}
use uvm.Safe.Number.{SafeNumber}
use uvm.Safe.Number.Compress.{IsStripped}
use uvm.Safe.Number.Truncation.{IsCompressed, *-cancel, scale_split}
use uvm.Safe.Number.Exact.{signed, units, signed_units}
use uvm.Safe.Number.Arithmetic.{max, differ}
use uvm.Safe.Number.Comparison.{eq}

-- A stripped number has no more places than another form of it.
fewest_places :
    (x e y f m : ℕ)
    → e ≤ m
    → f ≤ m
    → x * 10 ^ (m - e) ≡ y * 10 ^ (m - f)
    → 0 < y
    → IsStripped y f
    → f ≤ e
fewest_places x e y f m p q h nonzero stripped = elim (lt_or_ge e f) [
  | inr ge ↦ ge
  | inl lt ↦
      let split : m - e ≡ suc (f - e - 1) + (m - f) = omega arith in
      let tens : x * 10 ^ suc (f - e - 1) ≡ y =
        *-cancel _ _ (10 ^ (m - f)) (ten_pow_pos (m - f))
          (sym (scale_split x (suc (f - e - 1)) (m - f)) ∙ ap (λ k. x * 10 ^ k) (sym split) ∙ h) in
      let ten : x * 10 ^ suc (f - e - 1) ≡ x * 10 ^ (f - e - 1) * 10 =
        ap (λ k. x * k) (pow-suc 10 (f - e - 1)) ∙ assoc x (10 ^ (f - e - 1)) in
      elim stripped [
        | inl none ↦ absurd (omega arith)
        | inr (inl none) ↦ absurd (omega arith)
        | inr (inr digit) ↦ absurd (omega arith)
      ]
]
  where
    assoc : (a b : ℕ) → a * (b * 10) ≡ a * b * 10
    assoc a b = grind arith

-- The same digits and places, for the same number of units.
same_form :
    (a b : SafeNumber) (m : ℕ)
    → IsCompressed a
    → IsCompressed b
    → a.e ≤ m
    → b.e ≤ m
    → 0 < value a.x
    → 0 < value b.x
    → units m a ≡ units m b
    → (value a.x ≡ value b.x) × (a.e ≡ b.e)
same_form a b m p q le le' pos_a pos_b h =
    let down = fewest_places (value a.x) a.e (value b.x) b.e m le le' h pos_b q.3 in
    let up = fewest_places (value b.x) b.e (value a.x) a.e m le' le (sym h) pos_a p.3 in
    let e : a.e ≡ b.e = omega arith in
    (
      *-cancel _ _ (10 ^ (m - a.e)) (ten_pow_pos (m - a.e))
          (h ∙ ap (λ k. value b.x * 10 ^ (m - k)) (sym e)),
      e,
    )

signed_injective :
    (s t : Bool) (u v : ℕ)
    → 0 < u
    → 0 < v
    → signed s u ≡ signed t v
    → (differ s t ≡ false) × (u ≡ v)
signed_injective true true u v p q h = (refl, omega (arith, parts h))
signed_injective true false u v p q h = absurd (ground (arith, parts h))
signed_injective false true u v p q h = absurd (ground (arith, parts h))
signed_injective false false u v p q h = (refl, ground (arith, parts h))

units_pos : (a : SafeNumber) (m : ℕ) → 0 < value a.x → 0 < units m a
units_pos a m p = pos_product (value a.x) (10 ^ (m - a.e)) p (ten_pow_pos (m - a.e))
  where
    pos_product : (x y : ℕ) → 0 < x → 0 < y → 0 < x * y
    pos_product x y p q = grind arith

signed_congr : (s t : Bool) (u v : ℕ) → differ s t ≡ false → u ≡ v → signed s u ≡ signed t v
signed_congr true true u v d e = ap (signed true) e
signed_congr true false u v d e = absurd (ground (arith, d))
signed_congr false true u v d e = absurd (ground (arith, d))
signed_congr false false u v d e = ap (signed false) e

-- Two numbers in normal form, neither of them 0, are equal for the code exactly when they are the same
-- number of units of the last place of the two.
pub eq_lem :
    (a b : SafeNumber)
    → IsCompressed a
    → IsCompressed b
    → 0 < value a.x
    → 0 < value b.x
    → (eq a b ≡ true → signed_units (max a.e b.e) a ≡ signed_units (max a.e b.e) b)
      × (signed_units (max a.e b.e) a ≡ signed_units (max a.e b.e) b → eq a b ≡ true)
unfolding eq
eq_lem a b p q pos_a pos_b =
    let m = max a.e b.e in
    let left : a.e ≤ m = ground arith in
    let right : b.e ≤ m = ground arith in
    let digits = (order_lem a.x b.x p.1 q.1).2 in
    (
      (λ same.
          let sign : differ a.sign b.sign ≡ false = ground (arith, same) in
          let x : value a.x ≡ value b.x = ground (arith, same, digits) in
          let e : a.e ≡ b.e = ground (arith, same) in
          signed_congr a.sign b.sign _ _ sign (ap₂ (λ v k. v * 10 ^ (m - k)) x e)),
      (λ same.
          let (sign, u) =
            signed_injective a.sign b.sign _ _ (units_pos a m pos_a) (units_pos b m pos_b) same in
          let (x, e) = same_form a b m p q left right pos_a pos_b u in
          ground (arith, p.0, q.0, sign, digits, x, e)),
    )
