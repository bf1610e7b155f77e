-- ===== src/Uniswap/Rates.antt =====
-- What a price and an addition of liquidity in src/native_contract/native_uniswap_contract.cpp come to.
use uvm.Base.{
  ℕ, ◌+◌, ◌*◌, ◌/◌, ◌^◌, ◌≤◌, ◌<◌, ◌≡◌, refl, ap, ap₂, ◌∙◌, arith, Bool, true, false, if◌then◌else◌,
}
use native.Mathlib.Nat.{div-le_of_le-mul, mul-le-mul_right}
use uvm.Base.Int.{pos, ◌+ℤ◌}
use uvm.Safe.Word.{done}
use uvm.Safe.Uint128.{value}
use uvm.Safe.Number.Quota.{div_whole}
use uvm.Safe.Number.Comparison
use uvm.Token.Numbers.{wrap64}
use uvm.Uniswap.Pools.{wrap_add}
use uvm.Uniswap.Prices.{asset2_for, get_input_price, tokens_for}
use uvm.Uniswap.Whole.{
  add-IsWhole, create_int64-pos, multiply-IsWhole, to_int64_quota, whole, whole-IsWhole,
}

-- For positive x and a below 2 ^ 63 and a positive b below 2 ^ 62, with x * b of at most 10 ^ 32,
-- getInputPrice is the whole part of x * b / (a + x): computing with decimals loses nothing.
pub get_input_price_lem :
    (x a b : ℕ)
    → 0 < x
    → 0 < a
    → 0 < b
    → x < 2 ^ 63
    → a < 2 ^ 63
    → b < 2 ^ 62
    → x * b ≤ 10 ^ 32
    → get_input_price (pos x) (pos a) (pos b) ≡ done (pos (x * b / (a + x)))
unfolding get_input_price
get_input_price_lem x a b px pa pb hx ha hb small =
    let wx = whole-IsWhole x px (omega arith) in
    let wa = whole-IsWhole a pa (omega arith) in
    let wb = whole-IsWhole b pb (omega arith) in
    let (n, run_n, wn) = multiply-IsWhole (whole x) (whole b) x b wx wb small in
    let (d, run_d, wd) = add-IsWhole (whole a) (whole x) a x wa wx (omega arith) in
    let (q, run_q, quota) =
      div_whole n d wn.0 wd.0 wn.1 wd.1 wn.3 wd.3 (omega (arith, wn.2, wn.4))
        (omega (arith, wd.2, wd.4)) (omega (arith, wd.2)) in
    let price_le : x * b / (a + x) ≤ b =
      div-le_of_le-mul (a + x) {m = x * b} {n = b} (mul-le-mul_right b (omega arith)) in
    let same = ap₂ (λ v w. v / w) wn.2 wd.2 in
    rw
      (
        create_int64-pos a,
        create_int64-pos b,
        create_int64-pos x,
        run_n,
        run_d,
        run_q,
        get_input_price,
      )
      (to_int64_quota q (value n.x) (value d.x) quota (omega (arith, same, price_le))
        ∙ ap (λ v. done (pos v)) same)

-- x * s / a
pub tokens_for_lem :
    (x s a : ℕ)
    → 0 < x
    → 0 < s
    → 0 < a
    → x < 2 ^ 63
    → s < 2 ^ 63
    → a < 2 ^ 63
    → x * s ≤ 10 ^ 32
    → x * s / a < 2 ^ 62
    → tokens_for (pos x) (pos s) (pos a) ≡ done (pos (x * s / a))
unfolding tokens_for
tokens_for_lem x s a px ps pa hx hs ha small room =
    let wx = whole-IsWhole x px (omega arith) in
    let ws = whole-IsWhole s ps (omega arith) in
    let wa = whole-IsWhole a pa (omega arith) in
    let (n, run_n, wn) = multiply-IsWhole (whole x) (whole s) x s wx ws small in
    let (q, run_q, quota) =
      div_whole n (whole a) wn.0 wa.0 wn.1 wa.1 wn.3 wa.3 (omega (arith, wn.2, wn.4))
        (omega (arith, wa.2, pa)) (omega (arith, wa.2)) in
    let same = ap₂ (λ v w. v / w) wn.2 wa.2 in
    rw (create_int64-pos x, create_int64-pos s, create_int64-pos a, run_n, run_q, tokens_for)
      (to_int64_quota q (value n.x) (value (whole a).x) quota (omega (arith, same, room))
        ∙ ap (λ v. done (pos v)) same)

-- x * b / a, or one more
pub asset2_for_lem :
    (x b a : ℕ)
    → 0 < x
    → 0 < b
    → 0 < a
    → x < 2 ^ 63
    → b < 2 ^ 63
    → a < 2 ^ 63
    → x * b ≤ 10 ^ 32
    → x * b / a < 2 ^ 62
    → (r : ℕ) × (asset2_for (pos x) (pos b) (pos a) ≡ done (pos r))
      × (x * b / a ≤ r)
      × (r ≤ x * b / a + 1)
unfolding asset2_for
asset2_for_lem x b a px pb pa hx hb ha small room =
    let wx = whole-IsWhole x px (omega arith) in
    let wb = whole-IsWhole b pb (omega arith) in
    let wa = whole-IsWhole a pa (omega arith) in
    let (n, run_n, wn) = multiply-IsWhole (whole x) (whole b) x b wx wb small in
    let (q, run_q, quota) =
      div_whole n (whole a) wn.0 wa.0 wn.1 wa.1 wn.3 wa.3 (omega (arith, wn.2, wn.4))
        (omega (arith, wa.2, pa)) (omega (arith, wa.2)) in
    let same = ap₂ (λ v w. v / w) wn.2 wa.2 in
    let run_k =
      to_int64_quota q (value n.x) (value (whole a).x) quota (omega (arith, same, room))
      ∙ ap (λ v. done (pos v)) same in
    let (r, run_r, low, high) = one_more (Comparison.ne (whole (x * b / a)) q) (x * b / a) room in
    (
      r,
      rw
          (
            create_int64-pos x,
            create_int64-pos b,
            create_int64-pos a,
            run_n,
            run_q,
            run_k,
            create_int64-pos (x * b / a),
            asset2_for,
          )
          run_r,
      low,
      high,
    )
  where
    one_more :
        (c : Bool) (n : ℕ)
        → n < 2 ^ 62
        → (r : ℕ) × (done (if c then wrap64 (pos n +ℤ pos 1) else pos n) ≡ done (pos r))
          × (n ≤ r)
          × (r ≤ n + 1)
    one_more true n h = (n + 1, ap done (wrap_add n 1 (omega arith)), omega arith, omega arith)
    one_more false n h = (n, refl, omega arith, omega arith)
