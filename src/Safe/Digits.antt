-- ===== src/Safe/Digits.antt =====
-- The digits that the two `to_string` functions of src/safenumber/safenumber.cpp write, and a reader
-- of them.
use uvm.Base.{
  ℕ, zero, suc, ◌+◌, ◌-◌, ◌*◌, ◌/◌, ◌%◌, ◌^◌, ◌≤◌, ◌<◌, ◌≡◌, Bool, true, ◌&&◌, ◌==◌, inl, inr,
  Bool-cases, refl, ap, ◌∙◌, arith,
}
use uvm.Base.{[], ◌∷◌, ◌++◌, if◌then◌else◌, ltb, length, replicate, length-append, length-replicate}
use uvm.Base.{some, none, get_elem?}
use native.Mathlib.Nat.{pow-suc, pow-zero}
use uvm.Cbor.Value.{Bytes}

-- "0123456789abcdef"
abbrev hex_digits : Bytes
hex_digits = 48 ∷ 49 ∷ 50 ∷ 51 ∷ 52 ∷ 53 ∷ 54 ∷ 55 ∷ 56 ∷ 57 ∷ 97 ∷ 98 ∷ 99 ∷ 100 ∷ 101 ∷ 102 ∷ []

-- The character at a place of the literal; at its end stands the terminating 0.
unfoldable pub hex_digit : ℕ → ℕ
hex_digit n = elim (get_elem? hex_digits n) [ some c ↦ c | none ↦ 0 ]

-- out filled up to `len` characters with '0' on the left
unfoldable pub pad : Bytes → ℕ → Bytes
pad out len = if ltb (length out) len then replicate (len - length out) 48 ++ out else out

abbrev pub digit_of : ℕ → ℕ
digit_of c = if ltb c 58 then c - 48 else c - 87

-- The number that the digits of a text stand for, read from the left after `acc`.
abbrev pub read_digits : ℕ → ℕ → Bytes → ℕ
read_digits base acc [] = acc
read_digits base acc (c ∷ cs) = read_digits base (acc * base + digit_of c) cs

digit_at : Bytes → ℕ → ℕ
digit_at cs i = digit_of (elim (get_elem? cs i) [ some c ↦ c | none ↦ 0 ])

-- The characters stand for one number after the other.
counts_up : Bytes → ℕ → Bool
counts_up [] start = true
counts_up (c ∷ cs) start = (digit_of c == start) && counts_up cs (start + 1)

digit_at-counts_up :
    (cs : Bytes) (start i : ℕ)
    → counts_up cs start ≡ true
    → i < length cs
    → digit_at cs i ≡ start + i
unfolding digit_at counts_up
digit_at-counts_up [] start i h inside = absurd (omega arith)
digit_at-counts_up (c ∷ cs) start zero h inside = ground (arith, h)
digit_at-counts_up (c ∷ cs) start (suc i) h inside =
    let rest : counts_up cs (start + 1) ≡ true = ground (arith, h) in
    omega (arith, digit_at-counts_up cs (start + 1) i rest (omega arith))

hex_digits-counts_up : counts_up hex_digits 0 ≡ true
unfolding counts_up
hex_digits-counts_up = refl

digit_of-hex_digit : (n : ℕ) → n < 16 → digit_of (hex_digit n) ≡ n
unfolding hex_digit digit_at
digit_of-hex_digit n h =
    digit_at-counts_up hex_digits 0 n hex_digits-counts_up (omega arith) ∙ omega arith

pub read_digits_from :
    (base acc : ℕ) (cs : Bytes)
    → read_digits base acc cs ≡ acc * base ^ length cs + read_digits base 0 cs
read_digits_from base acc [] = omega (arith, pow-zero base, ap (λ n. acc * n) (pow-zero base))
read_digits_from base acc (c ∷ cs) =
    let d = digit_of c in
    let power = base ^ length cs in
    let step : (acc * base + d) * power ≡ acc * (power * base) + d * power = grind arith in
    omega (
      arith,
      step,
      ap (λ n. acc * n) (pow-suc base (length cs)),
      read_digits_from base (acc * base + d) cs,
      read_digits_from base (0 * base + d) cs,
      ap (λ n. n * power) (zero_left base d),
    )
  where
    zero_left : (base d : ℕ) → 0 * base + d ≡ d
    zero_left base d = omega arith

pub read_digits-hex_digit :
    (base n : ℕ) (cs : Bytes)
    → n < 16
    → read_digits base 0 (hex_digit n ∷ cs) ≡ n * base ^ length cs + read_digits base 0 cs
read_digits-hex_digit base n cs h =
    let e : 0 * base + digit_of (hex_digit n) ≡ n = omega (arith, digit_of-hex_digit n h) in
    ap (λ k. read_digits base k cs) e ∙ read_digits_from base n cs

-- The last digit of n, written before digits for what is left of n.
pub read_digits_step :
    (base n : ℕ) (out : Bytes)
    → 0 < base
    → base ≤ 16
    → n / base * base ^ length (hex_digit (n % base) ∷ out)
        + read_digits base 0 (hex_digit (n % base) ∷ out)
      ≡ n * base ^ length out + read_digits base 0 out
read_digits_step base n out p q =
    let d = n / base in
    let m = n % base in
    let power = base ^ length out in
    let parts : n ≡ d * base + m = grind arith in
    let all : n * power ≡ d * (power * base) + m * power =
      ap (λ k. k * power) parts ∙ distribute d m power in
    omega (
      arith,
      all,
      ap (λ k. d * k) (pow-suc base (length out)),
      read_digits-hex_digit base m out (omega arith),
    )
  where
    distribute : (d m power : ℕ) → (d * base + m) * power ≡ d * (power * base) + m * power
    distribute d m power = grind arith

read_digits-zeros :
    (base n : ℕ) (out : Bytes) → read_digits base 0 (replicate n 48 ++ out) ≡ read_digits base 0 out
read_digits-zeros base zero out = refl
read_digits-zeros base (suc n) out =
    let e : 0 * base + digit_of 48 ≡ 0 = omega arith in
    ap (λ k. read_digits base k (replicate n 48 ++ out)) e ∙ read_digits-zeros base n out

-- Filling up does not change the number.
pub read_digits-pad :
    (base : ℕ) (out : Bytes) (len : ℕ)
    → (read_digits base 0 (pad out len) ≡ read_digits base 0 out) × (len ≤ length (pad out len))
unfolding pad
read_digits-pad base out len = elim (Bool-cases (ltb (length out) len)) [
  | inl e ↦
      let zeros : Bytes = replicate (len - length out) 48 in
      rw (e, pad)
        (
          read_digits-zeros base (len - length out) out,
          ground
              (arith, e, length-append zeros out, length-replicate {A = ℕ} (len - length out) 48),
        )
  | inr e ↦ rw (e, pad) (refl, ground (arith, e))
]
