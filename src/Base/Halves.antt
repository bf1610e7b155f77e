-- ===== src/Base/Halves.antt =====
-- Numbers of two halves below m, scaled by a factor p of m: what the two halves become, and the cases
-- and the powers of two of a shift.
use Prim.Native.Nat.{ℕ, ◌+◌, ◌-◌, ◌*◌, ◌^◌, ◌/◌, ◌%◌, ◌<◌, ◌≤◌}
use mathlib.Core.Path.{◌≡◌, ap, ap₂, sym, ◌∙◌}
use mathlib.Core.Logic.{◌⊎◌, inl, inr}
use native.Mathlib.Omega.{arith}
use native.Mathlib.Nat.{mod-eq_of_lt, mod-add-mod}
use uvm.Base.Tests.{lt_or_ge}
use uvm.Base.Bits.{split-/, split-%, pow_add}

%-square : (x m v : ℕ) → v < m → (x * m + v) % (m * m) ≡ x % m * m + v
%-square x m v h =
    let w = x / m in
    let z = x % m in
    let parts : x ≡ w * m + z = grind arith in
    let small : z < m = omega arith in
    let bound : z * m + m ≤ m * m = grind arith in
    ap (λ n. (n * m + v) % (m * m)) parts
    ∙ ap (λ n. n % (m * m)) (regroup w z)
    ∙ split-% w (z * m + v) (m * m) (omega arith)
  where
    regroup : (w z : ℕ) → (w * m + z) * m + v ≡ w * (m * m) + (z * m + v)
    regroup w z = grind arith

module _ (p q m big low : ℕ) (e : p * q ≡ m) (pos_p : 0 < p) (pos_q : 0 < q) where
  pub scaled_up : (big * p % m + low / q) % m * m + low * p % m ≡ (big * m + low) * p % (m * m)
  scaled_up =
      let u = low / q in
      let v = low % q in
      let bound : v * p + p ≤ q * p = grind arith in
      let parts : low ≡ u * q + v = grind arith in
      let comm : q * p ≡ p * q = grind arith in
      let small : v * p < m = omega arith in
      let low_p : low * p ≡ u * m + v * p =
        ap (λ n. n * p) parts ∙ expand u v ∙ ap (λ n. u * n + v * p) e in
      let all_p : (big * m + low) * p ≡ (big * p + u) * m + v * p =
        split_sum big low ∙ ap (λ n. big * p * m + n) low_p ∙ join (big * p) u (v * p) in
      ap₂ (λ n k. n * m + k) (mod-add-mod (big * p) m u)
        (ap (λ n. n % m) low_p ∙ split-% u (v * p) m small)
      ∙ sym (ap (λ n. n % (m * m)) all_p ∙ %-square (big * p + u) m (v * p) small)
    where
      expand : (u v : ℕ) → (u * q + v) * p ≡ u * (p * q) + v * p
      expand u v = grind arith

      split_sum : (big low : ℕ) → (big * m + low) * p ≡ big * p * m + low * p
      split_sum big low = grind arith

      join : (x u y : ℕ) → x * m + (u * m + y) ≡ (x + u) * m + y
      join x u y = grind arith

  pub scaled_down : low < m → big / p * m + (big * q % m + low / p) % m ≡ (big * m + low) / p
  scaled_down h =
      let u = big / p in
      let v = big % p in
      let w = low / p in
      let x = low % p in
      let bound : v * q + q ≤ p * q = grind arith in
      let big_parts : big ≡ u * p + v = grind arith in
      let low_parts : low ≡ w * p + x = grind arith in
      let small : x < p = omega arith in
      let w_bound : w < q = elim (lt_or_ge w q) [
        | inl lt ↦ lt
        | inr ge ↦ let over : p * q ≤ w * p = grind arith in absurd (omega arith)
      ] in
      let big_q : big * q ≡ u * m + v * q =
        ap (λ n. n * q) big_parts ∙ expand_q u v ∙ ap (λ n. u * n + v * q) e in
      let rest : (big * q % m + w) % m ≡ v * q + w =
        ap (λ n. (n + w) % m) (ap (λ n. n % m) big_q ∙ split-% u (v * q) m (omega arith))
        ∙ mod-eq_of_lt (omega arith) in
      let all : big * m + low ≡ (u * m + (v * q + w)) * p + x =
        ap (λ n. big * n + low) (sym e)
        ∙ ap₂ (λ n k. n * (p * q) + k) big_parts low_parts
        ∙ expand u v w x
        ∙ ap (λ n. (u * n + (v * q + w)) * p + x) e in
      ap (λ n. u * m + n) rest ∙ sym (ap (λ n. n / p) all ∙ split-/ (u * m + (v * q + w)) x p small)
    where
      expand_q : (u v : ℕ) → (u * p + v) * q ≡ u * (p * q) + v * q
      expand_q u v = grind arith

      expand :
          (u v w x : ℕ) → (u * p + v) * (p * q) + (w * p + x) ≡ (u * (p * q) + (v * q + w)) * p + x
      expand u v w x = grind arith

pub pow_split : (m k : ℕ) → k ≤ m → 2 ^ k * 2 ^ (m - k) ≡ 2 ^ m
pow_split m k h =
    let e : k + (m - k) ≡ m = omega arith in sym (pow_add 2 k (m - k)) ∙ ap (λ n. 2 ^ n) e

pub pow_from : (k m : ℕ) → m ≤ k → 2 ^ k ≡ 2 ^ (k - m) * 2 ^ m
pow_from k m p = let e : k ≡ k - m + m = omega arith in ap (λ n. 2 ^ n) e ∙ pow_add 2 (k - m) m

-- A shift goes past the end, by more than a half, by less, or by none or one.
pub shift_cases :
    {P : Type 0} (half k : ℕ)
    → (half + half ≤ k → P)
    → (half < k → k < half + half → P)
    → (0 < k → k < half → P)
    → ((k ≡ 0) ⊎ (k ≡ half) → P)
    → P
shift_cases half k past high low at = elim (lt_or_ge k (half + half)) [
  | inr p ↦ past p
  | inl p ↦ elim (lt_or_ge half k) [
    | inl q ↦ high q p
    | inr q ↦ elim (lt_or_ge 0 k) [
      | inr z ↦ at (inl (omega arith))
      | inl z ↦ elim (lt_or_ge k half) [ inl r ↦ low z r | inr r ↦ at (inr (omega arith)) ]
    ]
  ]
]
