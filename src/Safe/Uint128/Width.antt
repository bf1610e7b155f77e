-- ===== src/Safe/Uint128/Width.antt =====
-- `simple_uint128_bits` of src/safenumber/safenumber.cpp finds the number of binary digits.
use uvm.Base.{
  ℕ, zero, suc, ◌+◌, ◌*◌, ◌/◌, ◌%◌, ◌^◌, ◌≤◌, ◌<◌, ◌≡◌, refl, arith, inl, inr, ap, ◌∙◌, ◌⊎◌,
  Bool-cases, ◌==◌,
}
use native.Mathlib.Nat.{two-pow-succ}
use uvm.Base.Bits.{pow_add}
use uvm.Safe.Uint128.{SimpleUint128, IsUint128, value}
use uvm.Safe.Uint128.Divmod.{count_bits, bits}

-- n is the number of binary digits of v.
abbrev pub IsWidth : ℕ → ℕ → Type 0
IsWidth n v = (v < 2 ^ n) × ((2 ^ n ≤ 2 * v) ⊎ (n ≡ 0))

pub IsWidth-suc : (n v : ℕ) → 0 < v → IsWidth n (v / 2) → IsWidth (suc n) v
IsWidth-suc n v p (lt, inl ge) =
    (omega (arith, two-pow-succ n), inl (omega (arith, two-pow-succ n)))
IsWidth-suc n v p (lt, inr z) =
    let e : 2 ^ n ≡ 1 = ap (λ k. 2 ^ k) z in
    (omega (arith, two-pow-succ n), inl (omega (arith, two-pow-succ n)))

count_bits_lem :
    (fuel up out : ℕ)
    → up < 2 ^ fuel
    → out + fuel < 2 ^ 8
    → (n : ℕ) × (count_bits fuel up out ≡ out + n) × (n ≤ fuel) × IsWidth n up
unfolding count_bits
count_bits_lem zero up out h room = (0, omega arith, omega arith, (omega arith, inr refl))
count_bits_lem (suc fuel) up out h room = elim (Bool-cases (up == 0)) [
  | inl e ↦ (0, ground arith, omega arith, (ground arith, inr refl))
  | inr e ↦
      let wrap : (out + 1) % 2 ^ 8 ≡ out + 1 = omega arith in
      let half : up / 2 < 2 ^ fuel = omega (arith, two-pow-succ fuel) in
      let (n, eq, le, width) =
        count_bits_lem fuel (up / 2) ((out + 1) % 2 ^ 8) half (omega arith) in
      (suc n, ground arith, omega arith, IsWidth-suc n up (ground arith) width)
]

-- A number with digits above the 64 lowest has 64 more than they have.
IsWidth-high :
    (n big low : ℕ) → 0 < big → low < 2 ^ 64 → IsWidth n big → IsWidth (64 + n) (big * 2 ^ 64 + low)
IsWidth-high n big low p h (lt, inl ge) =
    (omega (arith, pow_add 2 64 n), inl (omega (arith, pow_add 2 64 n)))
IsWidth-high n big low p h (lt, inr z) =
    let e : 2 ^ n ≡ 1 = ap (λ k. 2 ^ k) z in absurd (omega arith)

-- `bits` gives the number of binary digits of a 128-bit number, at most 128.
pub bits_lem : (a : SimpleUint128) → IsUint128 a → IsWidth (bits a) (value a) × (bits a ≤ 128)
unfolding bits
bits_lem a h = elim (Bool-cases (a.big == 0)) [
  | inl e ↦
      let (n, eq, le, width) = count_bits_lem 64 a.low 0 h.1 (omega arith) in
      let v : value a ≡ a.low = ground arith in
      let eq' : bits a ≡ n = rw (e, bits) (eq ∙ omega arith) in (rw (eq', v) width, omega arith)
  | inr e ↦
      let (n, eq, le, width) = count_bits_lem 64 a.big 64 h.0 (omega arith) in
      let eq' : bits a ≡ 64 + n = rw (e, bits) eq in
      (rw eq' (IsWidth-high n a.big a.low (ground arith) h.1 width), omega arith)
]
