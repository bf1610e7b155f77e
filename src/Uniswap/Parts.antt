-- ===== src/Uniswap/Parts.antt =====
-- What is paid for liquidity tokens in src/native_contract/native_uniswap_contract.cpp.
use uvm.Base.{
  ℕ, ◌+◌, ◌-◌, ◌*◌, ◌/◌, ◌^◌, ◌≤◌, ◌<◌, ◌≡◌, ap, sym, subst, ◌∙◌, arith, Bool, true, not, inl, inr,
  ◌⊎◌,
}
use native.Mathlib.Nat.{
  div-mul-le_self, div-le_of_le-mul, le_trans, mul-le-mul_right, mul-le-mul, le_of_mul-le-mul_right,
  pow-le-pow_right,
}
use uvm.Base.Bits.{ten_pow_pos}
use uvm.Base.Int.{pos}
use uvm.Safe.Word.{done}
use uvm.Safe.Uint128.{value}
use uvm.Safe.Number.{SafeNumber}
use uvm.Safe.Number.Arithmetic.{multiply, to_int64, differ}
use uvm.Safe.Number.Product.{multiply_lem}
use uvm.Safe.Number.Quota.{div_whole, IsQuota, whole_of_cut}
use uvm.Safe.Number.Whole.{to_int64_lem}
use uvm.Uniswap.Prices.{tokens_for, share_of}
use uvm.Uniswap.Whole.{create_int64-pos, cut_0, signed_cut, whole, whole-IsWhole}
use uvm.Uniswap.Rates.{tokens_for_lem}

below_power : (v s t k : ℕ) → v * s ≤ t * k → t < s → 0 < k → v ≤ k
below_power v s t k h lt p = grind arith

share_le : (r v p s t k : ℕ) → r * k ≤ v * p → v * s ≤ t * k → 0 < k → r * s ≤ t * p
share_le r v p s t k h h' pk =
    let one : r * k * s ≤ v * p * s = mul-le-mul_right s h in
    let two : v * s * p ≤ t * k * p = mul-le-mul_right p h' in
    le_of_mul-le-mul_right {m = r * s} {n = t * p} {k = k}
      (omega (arith, one, two, swap r k s, swap v p s, swap t k p)) pk
  where
    swap : (a b c : ℕ) → a * b * c ≡ a * c * b
    swap a b c = grind arith

sign_of_product :
    (s t : Bool) (v p w k : ℕ)
    → (s ≡ true) ⊎ (v ≡ 0)
    → (t ≡ not (differ s true)) ⊎ (w ≡ 0)
    → w * 10 ^ k ≡ v * p
    → (t ≡ true) ⊎ (w ≡ 0)
sign_of_product s t v p w k (inl e) (inl f) h = inl (ground (arith, e, f))
sign_of_product s t v p w k e (inr z) h = inr z
sign_of_product s t v p w k (inr z) (inl f) h =
    inr (none_of (10 ^ k) (ten_pow_pos k) (h ∙ ap (λ n. n * p) z))
  where
    none_of : (j : ℕ) → 0 < j → w * j ≡ 0 * p → w ≡ 0
    none_of j q e = grind arith

-- The product of a quota, at most 1, and a pool.
share_of_quota :
    (q : SafeNumber) (t s p : ℕ)
    → IsQuota q t s
    → t < s
    → 0 < p
    → p ≤ 10 ^ 16
    → (m : SafeNumber) × (r : ℕ) × (multiply q (whole p) ≡ done m)
      × (to_int64 m ≡ done (pos r))
      × (r * s ≤ t * p)
share_of_quota q t s p (dec, floor, below, sign, _, _) lt pp hp =
    let w = whole-IsWhole p pp (omega arith) in
    let places : 10 ^ q.e ≤ 10 ^ 16 = pow-le-pow_right {n = 10} (omega arith) dec.2 in
    let quota_small = below_power (value q.x) s t (10 ^ q.e) below lt (ten_pow_pos q.e) in
    let product : value q.x * value (whole p).x ≡ value q.x * p = ap (λ k. value q.x * k) w.2 in
    let bound : value q.x * p ≤ 10 ^ 16 * 10 ^ 16 =
      mul-le-mul {n₁ = value q.x} {m₁ = p} {n₂ = 10 ^ 16} {m₂ = 10 ^ 16}
        (le_trans quota_small places) hp in
    let (m, run, (form, le, digits, sign')) =
      multiply_lem q (whole p) dec w.0 (omega (arith, product, bound)) in
    let e = q.e in
    let same_places : e + (whole p).e - (e + (whole p).e - 16) ≡ e = omega (arith, dec.2) in
    let scaled : value m.x * 10 ^ (e - m.e) ≡ value q.x * p =
      sym (ap (λ k. value m.x * 10 ^ (k - m.e)) same_places)
      ∙ digits
      ∙ cut_0 _ _ (omega (arith, dec.2))
      ∙ product in
    let r = value q.x * p / 10 ^ e in
    let m_le : m.e ≤ e = subst (λ k. m.e ≤ k) same_places le in
    let cut : value m.x / 10 ^ m.e ≡ r =
      whole_of_cut (value m.x) m.e _ e (value q.x * p) e m_le (omega arith) scaled
        (sym (cut_0 _ _ (omega arith))) in
    let part_le : r ≤ p =
      div-le_of_le-mul (10 ^ e) {m = value q.x * p} {n = p} (mul-le-mul_right p quota_small) in
    let sign'' =
      sign_of_product q.sign m.sign (value q.x) p (value m.x) (e - m.e) sign sign' scaled in
    let run_r =
      to_int64_lem m (form.0, form.1, form.2) (omega (arith, cut, part_le, hp))
      ∙ ap done (signed_cut m.sign (value m.x) (10 ^ m.e) r sign'' cut (ten_pow_pos m.e)) in
    (
      m,
      r,
      run,
      run_r,
      share_le r (value q.x) p s t (10 ^ e) (div-mul-le_self (value q.x * p) (10 ^ e)) below
          (ten_pow_pos e),
    )

-- Never more than the share t / s of the pool p.
pub share_of_lem :
    (t s p : ℕ)
    → 0 < t
    → t < s
    → 0 < p
    → s < 2 ^ 63
    → p ≤ 10 ^ 16
    → (r : ℕ) × (share_of (pos t) (pos s) (pos p) ≡ done (pos r)) × (r * s ≤ t * p)
unfolding share_of
share_of_lem t s p pt lt pp hs hp =
    let wt = whole-IsWhole t pt (omega arith) in
    let ws = whole-IsWhole s (omega arith) (omega arith) in
    let (q, run_q, quota) =
      div_whole (whole t) (whole s) wt.0 ws.0 wt.1 ws.1 wt.3 ws.3 (omega (arith, wt.2, pt))
        (omega (arith, ws.2)) (omega (arith, ws.2)) in
    let quota' : IsQuota q t s =
      subst (λ v. IsQuota q v s) wt.2 (subst (λ v. IsQuota q (value (whole t).x) v) ws.2 quota) in
    let (m, r, run_m, run_r, le) = share_of_quota q t s p quota' lt pp hp in
    (
      r,
      rw (create_int64-pos t, create_int64-pos s, create_int64-pos p, run_q, run_m, share_of) run_r,
      le,
    )

share_le-added : (x s a t r : ℕ) → t * a ≤ x * s → r * (s + t) ≤ t * (a + x) → 0 < s → r ≤ x
share_le-added x s a t r minted paid ps =
    let fair : t * (a + x) ≤ x * (s + t) = grind arith in
    le_of_mul-le-mul_right {m = r} {n = x} {k = s + t} (le_trans paid fair) (omega arith)

-- The tokens, at least 1, that an amount x > 0 of the first asset brings to a pool of a > 0 with a supply
-- of s > 0, given back at once to the pool of a + x with the supply that includes them, are paid with at
-- most x. It is for a + x of at most 10 ^ 16, s below 2 ^ 62, x * s of at most 10 ^ 32 and x * s / a below
-- 2 ^ 62.
pub tokens_for-share_of :
    (x s a t : ℕ)
    → 0 < x
    → 0 < s
    → 0 < a
    → a + x ≤ 10 ^ 16
    → s < 2 ^ 62
    → x * s ≤ 10 ^ 32
    → x * s / a < 2 ^ 62
    → tokens_for (pos x) (pos s) (pos a) ≡ done (pos t)
    → 0 < t
    → (r : ℕ) × (share_of (pos t) (pos (s + t)) (pos (a + x)) ≡ done (pos r)) × (r ≤ x)
tokens_for-share_of x s a t px ps pa ha hs small room minted pt =
    let e : t ≡ x * s / a = done_pos (
      sym minted
      ∙ tokens_for_lem x s a px ps pa (omega arith) (omega arith) (omega arith) small room) in
    let le : t * a ≤ x * s = subst (λ n. n * a ≤ x * s) (sym e) (div-mul-le_self (x * s) a) in
    let (r, run, paid) =
      share_of_lem t (s + t) (a + x) pt (omega arith) (omega arith) (omega (arith, e)) ha in
    (r, run, share_le-added x s a t r le paid ps)
  where
    done_pos : {m n : ℕ} → done (pos m) ≡ done (pos n) → m ≡ n
    done_pos h = ground (arith, h)
