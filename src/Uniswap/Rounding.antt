-- ===== src/Uniswap/Rounding.antt =====
-- The rounding up of a proportion in src/native_contract/native_uniswap_contract.cpp.
use uvm.Base.{
  ℕ, suc, ◌+◌, ◌-◌, ◌*◌, ◌/◌, ◌%◌, ◌^◌, ◌≤◌, ◌<◌, ◌≡◌, ap, sym, ◌∙◌, arith, true, false, ◌==◌, ltb,
  subst, if◌then◌else◌, inl, inr, lt_or_ge,
}
use native.Mathlib.Nat.{
  pow-suc, div-mul-le_self, le_of_mul-le-mul_right, pow-zero, div-lt_iff_lt-mul,
}
use uvm.Base.Bits.{split-/, ten_pow_pos, le_mul}
use uvm.Base.Int.{pos, ◌+ℤ◌}
use uvm.Token.Numbers.{wrap64}
use uvm.Safe.Word.{done}
use uvm.Safe.Uint128.{value}
use uvm.Safe.Uint128.Sums.{order_lem}
use uvm.Safe.Number.{SafeNumber}
use uvm.Safe.Number.Compress.{IsStripped}
use uvm.Safe.Number.Quota.{IsQuota, div_whole}
use uvm.Safe.Number.Rests.{quotient_parts}
use uvm.Safe.Number.Comparison
use uvm.Uniswap.Pools.{wrap_add}
use uvm.Uniswap.Prices.{asset2_for}
use uvm.Uniswap.Whole.{create_int64-pos, multiply-IsWhole, to_int64_quota, whole, whole-IsWhole}

-- A quotient that leaves no rest has no places.
no_places_of :
    (v e q a b : ℕ)
    → 0 < b
    → 0 < q
    → a ≡ q * b
    → v * b ≤ a * 10 ^ e
    → v / 10 ^ e ≡ q
    → IsStripped v e
    → (e ≡ 0) × (v ≡ q)
no_places_of v e q a b pb pq exact le whole_part stripped =
    let scaled : a * 10 ^ e ≡ q * 10 ^ e * b = ap (λ n. n * 10 ^ e) exact ∙ swap q b (10 ^ e) in
    let upper : v ≤ q * 10 ^ e =
      le_of_mul-le-mul_right {m = v} {n = q * 10 ^ e} {k = b} (omega (arith, le, scaled)) pb in
    let lower = div-mul-le_self v (10 ^ e) in
    let scaled' = ap (λ n. n * 10 ^ e) whole_part in
    let same : v ≡ q * 10 ^ e = omega arith in
    let grows = le_mul q (10 ^ e) (ten_pow_pos e) in
    elim stripped [
      | inl none ↦ absurd (omega arith)
      | inr (inl no_places) ↦ (no_places, unscaled no_places same)
      | inr (inr digit) ↦ elim (lt_or_ge 0 e) [
        | inr none ↦ let no_places : e ≡ 0 = omega arith in (no_places, unscaled no_places same)
        | inl some_places ↦
            let place : e ≡ suc (e - 1) = omega arith in
            let tens : v ≡ q * 10 ^ (e - 1) * 10 =
              same
              ∙ ap (λ i. q * 10 ^ i) place
              ∙ ap (λ i. q * i) (pow-suc 10 (e - 1))
              ∙ assoc q (10 ^ (e - 1)) in
            absurd (omega arith)
      ]
    ]
  where
    swap : (q b p : ℕ) → q * b * p ≡ q * p * b
    swap q b p = grind arith

    assoc : (q p : ℕ) → q * (p * 10) ≡ q * p * 10
    assoc q p = grind arith

    unscaled : e ≡ 0 → v ≡ q * 10 ^ e → v ≡ q
    unscaled none same =
        same ∙ ap (λ i. q * 10 ^ i) none ∙ ap (λ i. q * i) (pow-zero 10) ∙ omega arith

some_whole : (a b : ℕ) → 0 < a → a ≡ a / b * b + 0 → 0 < a / b
some_whole a b pa parts = elim (lt_or_ge 0 (a / b)) [
  | inl some_whole_part ↦ some_whole_part
  | inr none ↦
      let zero_part : a / b ≡ 0 = omega arith in
      let nothing = ap (λ k. k * b) zero_part in absurd (omega arith)
]

-- A quotient is not its whole part exactly where there is a rest.
ne-whole :
    (n : SafeNumber) (a b : ℕ)
    → IsQuota n a b
    → 0 < a
    → 0 < b
    → b ≤ 10 ^ 16
    → a / b < 10 ^ 16
    → Comparison.ne (whole (a / b)) n ≡ ltb 0 (a % b)
unfolding Comparison.ne Comparison.eq
ne-whole n a b quota pa pb small_b small = elim (lt_or_ge 0 (a % b)) [
  | inl rest ↦ elim (lt_or_ge 0 n.e) [
    | inl places ↦
        let valid = quota.0.0 in
        let other : (0 == n.e) ≡ false = ground (arith, places) in
        let is_rest : ltb 0 (a % b) ≡ true = ground (arith, rest) in
        ground (arith, valid, other, is_rest)
    | inr none ↦ let no_rest = quota.5 (omega arith) small small_b in absurd (omega arith)
  ]
  | inr none ↦
      let no_rest : a % b ≡ 0 = omega arith in
      let parts : a ≡ a / b * b + 0 = quotient_parts a b pb ∙ ap (λ r. a / b * b + r) no_rest in
      let pq = some_whole a b pa parts in
      let (no_places, v) =
        no_places_of (value n.x) n.e (a / b) a b pb pq (omega (arith, parts)) quota.2 quota.1
          quota.4 in
      let w = whole-IsWhole (a / b) pq (omega arith) in
      let digits = (order_lem (whole (a / b)).x n.x w.0.1 quota.0.1).2 in
      let valid = quota.0.0 in
      let is_rest : ltb 0 (a % b) ≡ false = ground (arith, none) in
      let sign : n.sign ≡ true = elim quota.3 [ inl e ↦ e | inr z ↦ absurd (omega arith) ] in
      ground (arith, valid, sign, digits, w.2, v, no_places, is_rest)
]

-- The whole part, and one more where there is a rest, is the quotient rounded up.
ceiling :
    (a b : ℕ)
    → 0 < b
    → a / b < 2 ^ 62
    → (if ltb 0 (a % b) then wrap64 (pos (a / b) +ℤ pos 1) else pos (a / b))
      ≡ pos ((a + (b - 1)) / b)
ceiling a b pb small =
    let parts = quotient_parts a b pb in
    let q = a / b in
    let r = a % b in
    elim (lt_or_ge 0 (a % b)) [
      | inl rest ↦
          let is_rest : ltb 0 (a % b) ≡ true = ground (arith, rest) in
          let low : r < b = omega arith in
          let next : a + (b - 1) ≡ (q + 1) * b + (r - 1) = omega (arith, parts, one_more q b) in
          rw is_rest (
            wrap_add q 1 (omega arith)
            ∙ ap pos (sym (ap (λ n. n / b) next ∙ split-/ (q + 1) (r - 1) b (omega arith))))
      | inr none ↦
          let is_rest : ltb 0 (a % b) ≡ false = ground (arith, none) in
          let next : a + (b - 1) ≡ q * b + (b - 1) = omega arith in
          rw is_rest (ap pos (sym (ap (λ n. n / b) next ∙ split-/ q (b - 1) b (omega arith))))
    ]
  where
    one_more : (q b : ℕ) → (q + 1) * b ≡ q * b + b
    one_more q b = grind arith

-- What is rounded up pays for the whole of the quotient, and is at most one more than the whole part.
pub ceiling-bounds :
    (a b : ℕ) → 0 < b → (a ≤ (a + (b - 1)) / b * b) × ((a + (b - 1)) / b ≤ a / b + 1)
ceiling-bounds a b pb =
    let parts = quotient_parts a b pb in
    let r_lt : a % b < b = omega arith in
    let two : (a / b + 2) * b ≡ a / b * b + b + b = spread (a / b) b in
    let next = (div-lt_iff_lt-mul {k = b} {x = a + (b - 1)} {y = a / b + 2} pb).1 (omega arith) in
    let whole = quotient_parts (a + (b - 1)) b pb in
    let rest : (a + (b - 1)) % b < b = omega arith in (omega arith, omega arith)
  where
    spread : (q b : ℕ) → (q + 2) * b ≡ q * b + b + b
    spread q b = grind arith

-- x * b / a, rounded up
pub asset2_for-ceiling :
    (x b a : ℕ)
    → 0 < x
    → 0 < b
    → 0 < a
    → x < 2 ^ 63
    → b < 2 ^ 63
    → a ≤ 10 ^ 16
    → x * b ≤ 10 ^ 32
    → x * b / a < 10 ^ 16
    → asset2_for (pos x) (pos b) (pos a) ≡ done (pos ((x * b + (a - 1)) / a))
unfolding asset2_for
asset2_for-ceiling x b a px pb pa hx hb ha small room =
    let wx = whole-IsWhole x px (omega arith) in
    let wb = whole-IsWhole b pb (omega arith) in
    let wa = whole-IsWhole a pa (omega arith) in
    let (n, run_n, wn) = multiply-IsWhole (whole x) (whole b) x b wx wb small in
    let (q, run_q, quota) =
      div_whole n (whole a) wn.0 wa.0 wn.1 wa.1 wn.3 wa.3 (omega (arith, wn.2, wn.4))
        (omega (arith, wa.2, pa)) (omega (arith, wa.2)) in
    let quota' : IsQuota q (x * b) a =
      subst (λ v. IsQuota q v a) wn.2 (subst (λ v. IsQuota q (value n.x) v) wa.2 quota) in
    let up = ne-whole q (x * b) a quota' wn.4 pa ha room in
    rw
      (
        create_int64-pos x,
        create_int64-pos b,
        create_int64-pos a,
        run_n,
        run_q,
        to_int64_quota q (x * b) a quota' (omega (arith, room)),
        create_int64-pos (x * b / a),
        up,
        asset2_for,
      )
      (ap done (ceiling (x * b) a pa (omega (arith, room))))
