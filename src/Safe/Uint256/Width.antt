-- ===== src/Safe/Uint256/Width.antt =====
-- `simple_uint256_bits` of src/safenumber/safenumber.cpp finds the number of binary digits, as a
-- uint8_t.
use uvm.Base.{
  ℕ, zero, suc, ◌+◌, ◌*◌, ◌/◌, ◌%◌, ◌^◌, ◌≤◌, ◌<◌, ◌≡◌, refl, arith, inl, inr, ap, subst, sym,
  lt_or_ge, ◌∙◌, Bool-cases,
}
use native.Mathlib.Nat.{two-pow-succ, pow-le-pow_right}
use uvm.Base.Bits.{pow_add}
use uvm.Safe.Uint128
use uvm.Safe.Uint128.{SimpleUint128, IsUint128}
use uvm.Safe.Uint128.Shifts
use uvm.Safe.Uint128.Width.{IsWidth, IsWidth-suc}
use uvm.Safe.Uint256.{SimpleUint256, IsUint256, value}
use uvm.Safe.Uint256.Divmod.{count_bits, bits}

count_bits_lem :
    (fuel : ℕ) (up : SimpleUint128) (out : ℕ)
    → IsUint128 up
    → Uint128.value up < 2 ^ fuel
    → out < 2 ^ 8
    → (n : ℕ) × (count_bits fuel up out ≡ (out + n) % 2 ^ 8)
      × (n ≤ fuel)
      × IsWidth n (Uint128.value up)
unfolding count_bits
count_bits_lem zero up out ok h room = (0, omega arith, omega arith, (omega arith, inr refl))
count_bits_lem (suc fuel) up out ok h room = elim (Bool-cases (Uint128.is_zero up)) [
  | inl e ↦ (0, ground arith, omega arith, (ground (arith, e), inr refl))
  | inr e ↦
      let half = Uint128.Shifts.shift_right_lem up 1 ok in
      let (n, eq, le, width) =
        count_bits_lem fuel (Uint128.shift_right up 1) ((out + 1) % 2 ^ 8) half.0
          (omega (arith, two-pow-succ fuel, half.1)) (omega arith) in
      let half_value : Uint128.value (Uint128.shift_right up 1) ≡ Uint128.value up / 2 =
        omega (arith, half.1) in
      let width' : IsWidth n (Uint128.value up / 2) = subst (IsWidth n) half_value width in
      (
        suc n,
        rw (e, count_bits) (eq ∙ omega arith),
        omega arith,
        IsWidth-suc n (Uint128.value up) (ground (arith, e)) width',
      )
]

IsWidth-high :
    (n big low : ℕ)
    → 0 < big
    → low < 2 ^ 128
    → IsWidth n big
    → IsWidth (128 + n) (big * 2 ^ 128 + low)
IsWidth-high n big low p h (lt, inl ge) =
    (omega (arith, pow_add 2 128 n), inl (omega (arith, pow_add 2 128 n)))
IsWidth-high n big low p h (lt, inr z) =
    let e : 2 ^ n ≡ 1 = ap (λ k. 2 ^ k) z in absurd (omega arith)

-- `bits` gives the number of binary digits of a 256-bit number, but 0 in place of 256.
pub bits_lem :
    (a : SimpleUint256)
    → IsUint256 a
    → (n : ℕ) × (bits a ≡ n % 2 ^ 8) × (n ≤ 256) × IsWidth n (value a)
unfolding bits
bits_lem a h = elim (Bool-cases (Uint128.is_zero a.big)) [
  | inl e ↦
      let (n, eq, le, width) = count_bits_lem 128 a.low 0 h.1 (omega arith) (omega arith) in
      let v : value a ≡ Uint128.value a.low = ground (arith, e) in
      (n, rw (e, bits) (eq ∙ omega arith), omega arith, rw v width)
  | inr e ↦
      let (n, eq, le, width) = count_bits_lem 128 a.big 128 h.0 (omega arith) (omega arith) in
      (
        128 + n,
        rw (e, bits) eq,
        omega arith,
        IsWidth-high n (Uint128.value a.big) (Uint128.value a.low) (ground (arith, e)) (omega arith)
            width,
      )
]

-- Below 2 ^ 255 the count does not wrap.
pub bits_below : (a : SimpleUint256) → IsUint256 a → value a < 2 ^ 255 → value a < 2 ^ bits a
bits_below a h room =
    let (n, eq, le, width) = bits_lem a h in
    let small : n ≤ 255 = elim (lt_or_ge n 256) [
      | inl lt ↦ omega arith
      | inr ge ↦ elim (width.1) [
        | inl double ↦
            let grows : 2 ^ 256 ≤ 2 ^ n = pow-le-pow_right {n = 2} (omega arith) ge in
            absurd (omega arith)
        | inr none ↦ absurd (omega arith)
      ]
    ] in
    let no_wrap : bits a ≡ n = omega arith in subst (λ k. value a < 2 ^ k) (sym no_wrap) width.0

-- From 2 ^ 255 on the count is 256, which wraps to 0.
pub bits_top : (a : SimpleUint256) → IsUint256 a → 2 ^ 255 ≤ value a → bits a ≡ 0
bits_top a h top =
    let (n, eq, le, width) = bits_lem a h in
    let all : n ≡ 256 = elim (lt_or_ge n 256) [
      | inl lt ↦
          let le' : n ≤ 255 = omega arith in
          let fits : 2 ^ n ≤ 2 ^ 255 = pow-le-pow_right {n = 2} (omega arith) le' in
          absurd (omega (arith, width.0))
      | inr ge ↦ omega arith
    ] in
    omega arith
