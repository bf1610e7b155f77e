-- ===== src/Safe/Number/LongDivision.antt =====
-- The loop of `safe_number_div` of src/safenumber/safenumber.cpp is a long division.
use uvm.Base.{
  ℕ, zero, suc, ◌+◌, ◌*◌, ◌/◌, ◌%◌, ◌^◌, ◌≤◌, ◌<◌, ◌≡◌, refl, ap, sym, ◌∙◌, arith, Bool, true,
  false, inl, inr, not, ◌&&◌, ◌⊎◌, Bool-cases, ltb, lt_or_ge,
}
use native.Mathlib.Nat.{pow-suc, div-mul-le_self, div-le_self}
use uvm.Base.Bits.{split-/, split-%}
use uvm.Safe.Word.{done}
use uvm.Safe.Uint128
use uvm.Safe.Uint128.{SimpleUint128, IsUint128, value, uint128_0}
use uvm.Safe.Uint128.Sums.{order_lem, add_lem}
use uvm.Safe.Uint128.Multi.{multi_word}
use uvm.Safe.Uint256
use uvm.Safe.Uint256.{SimpleUint256, IsUint256, uint256_10}
use uvm.Safe.Uint256.Sums.{word-IsUint256}
use uvm.Safe.Uint256.Quotient.{divmod-word}
use uvm.Safe.Uint256.Product.{value-multi}
use uvm.Safe.Number.{largest_x}
use uvm.Safe.Number.Compress.{largest_lem}
use uvm.Safe.Number.Exact.{multi_word_lem}
use uvm.Safe.Number.Arithmetic.{div_digits}

-- The loop stops after the digits of a / b to the place re: at the last place asked for, with more
-- than 32 digits, or with no rest. After the first round there are no more than 33 digits.
abbrev pub IsLongQuotient : ℕ → ℕ → ℕ → SimpleUint128 → ℕ → Type 0
IsLongQuotient places a b rx re =
    IsUint128 rx
    × (re ≤ places)
    × (value rx ≡ a * 10 ^ re / b)
    × ((re ≡ places) ⊎ ((10 ^ 32 ≤ value rx) ⊎ (a * 10 ^ re % b ≡ 0)))
    × ((re ≡ 0) ⊎ (value rx < 10 ^ 33))

-- One digit of a long division: a number in units of ten, and the digits and the rest of it.
long_step :
    (n b rx left : ℕ)
    → 0 < b
    → n ≡ rx * b * 10 + left
    → (n ≡ (rx * 10 + left / b) * b + left % b) × (left % b < b)
long_step n b rx left p e =
    let q = left / b in
    let r = left % b in
    let parts : left ≡ q * b + r = grind arith in
    let small : r < b = omega arith in (e ∙ ap (λ k. rx * b * 10 + k) parts ∙ collect q r, small)
  where
    collect : (q r : ℕ) → rx * b * 10 + (q * b + r) ≡ (rx * 10 + q) * b + r
    collect q r = grind arith

power_next : (a re : ℕ) → a * 10 ^ (re + 1) ≡ a * 10 ^ re * 10
power_next a re =
    let e : re + 1 ≡ suc re = omega arith in
    ap (λ k. a * 10 ^ k) e ∙ ap (λ k. a * k) (pow-suc 10 re) ∙ assoc (10 ^ re)
  where
    assoc : (k : ℕ) → a * (k * 10) ≡ a * k * 10
    assoc k = grind arith

next_place :
    (n q b r y left : ℕ) → n ≡ q * b + r → y ≡ q → left ≡ r * 10 → n * 10 ≡ y * b * 10 + left
next_place n q b r y left e f g = let h : y * b ≡ q * b = ap (λ k. k * b) f in omega arith

tenth : (left r b : ℕ) → left ≡ r * 10 → r < b → left / b < 10
tenth left r b e f = elim (lt_or_ge (left / b) 10) [
  | inl p ↦ p
  | inr p ↦
      let q = left / b in
      let small : q * b ≤ left = div-mul-le_self left b in
      let large : 10 * b ≤ q * b = grind (arith, p) in absurd (omega arith)
]

-- The condition of the loop of `div`.
abbrev goes_on : ℕ → ℕ → SimpleUint128 → SimpleUint256 → Bool
goes_on places re y left = ltb re places && Uint128.lt y largest_x && not (Uint256.is_zero left)

no_rest :
    (a b y : ℕ) (left : SimpleUint256) (r : ℕ) {k : ℕ}
    → Uint256.value left ≡ r * 10
    → r < b
    → k ≡ y * b + r
    → Uint256.is_zero left ≡ true
    → k % b ≡ 0
no_rest a b y left r e small f t =
    let none : Uint256.value left ≡ 0 = ground (arith, t) in
    let no_r : r ≡ 0 = omega arith in ap (λ k. k % b) f ∙ split-% y r b small ∙ no_r

last_test : {p q r : Bool} → p ≡ true → q ≡ true → p && q && not r ≡ false → r ≡ true
last_test {r = r} e f g = ground arith

why_stopped :
    (places a b : ℕ) (y : SimpleUint128) (left : SimpleUint256) (re r : ℕ)
    → IsUint128 y
    → re ≤ places
    → Uint256.value left ≡ r * 10
    → r < b
    → a * 10 ^ re ≡ value y * b + r
    → goes_on places re y left ≡ false
    → (re ≡ places) ⊎ ((10 ^ 32 ≤ value y) ⊎ (a * 10 ^ re % b ≡ 0))
why_stopped places a b y left re r ok re_le left_is small quotient f =
    let order = (order_lem y largest_x ok largest_lem.0).1 in
    elim (Bool-cases (ltb re places)) [
      | inr g ↦ inl (ground (arith, g))
      | inl g ↦ elim (Bool-cases (Uint128.lt y largest_x)) [
        | inr h ↦ inr (inl (ground (arith, h, order, largest_lem.1)))
        | inl h ↦ inr (inr (no_rest a b (value y) left r left_is small quotient (last_test g h f)))
      ]
    ]

-- The loop ends within one round more than there are places asked for, with the digits of the quotient.
pub div_digits_lem :
    (places fuel : ℕ) (big_a big_b : SimpleUint256) (rx : SimpleUint128) (re a : ℕ)
    → fuel + re ≡ places + 1
    → 0 < fuel
    → IsUint256 big_a
    → IsUint256 big_b
    → 0 < Uint256.value big_b
    → Uint256.value big_b < 2 ^ 127
    → Uint256.value big_a < 2 ^ 131
    → IsUint128 rx
    → value rx < 10 ^ 32
    → value rx * 10 + Uint256.value big_a / Uint256.value big_b < 2 ^ 128
    → a * 10 ^ re ≡ value rx * Uint256.value big_b * 10 + Uint256.value big_a
    → (re ≡ 0) ⊎ (Uint256.value big_a / Uint256.value big_b < 10)
    → (y : SimpleUint128) × (d : ℕ) × (div_digits places fuel big_a big_b rx re ≡ done (y, d))
      × IsLongQuotient places a (Uint256.value big_b) y d
unfolding div_digits
div_digits_lem places zero big_a big_b rx re a fuel_re some_fuel ok_a ok_b pos_b small_b small_a
      ok_x below fits e digit =
    absurd (omega arith)
div_digits_lem places (suc fuel) big_a big_b rx re a fuel_re some_fuel ok_a ok_b pos_b small_b
      small_a ok_x below fits e digit =
    let b = Uint256.value big_b in
    let left = Uint256.value big_a in
    let (n_is, r_small) = long_step (a * 10 ^ re) b (value rx) left pos_b e in
    let run = divmod-word big_a big_b ok_a ok_b pos_b small_b (omega arith) in
    let q_le = div-le_self left b in
    let (ok_q, v_q) = word-IsUint256 (left / b) (omega arith) in
    let (ok_r, v_r) = word-IsUint256 (left % b) (omega arith) in
    let (ok_10, v_10) = multi_word_lem rx 10 ok_x (omega arith) (omega arith) in
    let q_low : value (Uint256.word (left / b)).low ≡ left / b = omega arith in
    let (ok_y, v_y) = add_lem (multi_word rx 10) (Uint256.word (left / b)).low ok_10 ok_q.1 in
    let y = Uint128.add (multi_word rx 10) (Uint256.word (left / b)).low in
    let y_is : value y ≡ value rx * 10 + left / b = omega arith in
    let (ok_l, v_l) =
      value-multi (Uint256.word (left % b)) uint256_10 ok_r
        ((omega arith, omega arith), (omega arith, omega arith)) in
    let left' = Uint256.Multi.multi (Uint256.word (left % b)) uint256_10 in
    let left_is : Uint256.value left' ≡ left % b * 10 = omega arith in
    let next : a * 10 ^ (re + 1) ≡ value y * b * 10 + Uint256.value left' =
      power_next a re
      ∙ next_place (a * 10 ^ re) (value rx * 10 + left / b) b (left % b) (value y)
          (Uint256.value left') n_is y_is left_is in
    let y_quotient : a * 10 ^ re ≡ value y * b + left % b =
      n_is ∙ ap (λ k. k * b + left % b) (sym y_is) in
    let order = (order_lem y largest_x ok_y largest_lem.0).1 in
    elim (Bool-cases (goes_on places re y left')) [
      | inl t ↦
          let more : re < places = ground (arith, t) in
          let y_small : value y < 10 ^ 32 = ground (arith, t, order, largest_lem.1) in
          let nine : Uint256.value left' / b < 10 =
            tenth (Uint256.value left') (left % b) b left_is r_small in
          let (z, d, eq, result) =
            div_digits_lem places fuel left' big_b y (re + 1) a (omega arith) (omega arith) ok_l
              ok_b pos_b small_b (omega arith) ok_y y_small (omega arith) next (inr nine) in
          (z, d, rw (run, t, div_digits) eq, result)
      | inr f ↦ (
        y,
        re,
        rw (run, f, div_digits) refl,
        (
          ok_y,
          omega arith,
          sym (ap (λ k. k / b) y_quotient ∙ split-/ (value y) (left % b) b r_small),
          why_stopped places a b y left' re (left % b) ok_y (omega arith) left_is r_small y_quotient
              f,
          elim digit [ inl z ↦ inl z | inr nine ↦ inr (omega (arith, nine, y_is, below)) ],
        ),
      )
    ]
