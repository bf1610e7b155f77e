-- ===== src/Safe/Uint128/Printing.antt =====
-- `simple_uint128_to_string` of src/safenumber/safenumber.cpp, and that its digits are those of the
-- number.
use uvm.Base.{ℕ, zero, suc, ◌+◌, ◌*◌, ◌/◌, ◌%◌, ◌^◌, ◌≤◌, ◌<◌, ◌≡◌, refl, ap, ◌∙◌, arith}
use uvm.Base.{[], ◌∷◌, if◌then◌else◌, ltb, ◌||◌, length, false, Bool-cases, inl, inr}
use native.Mathlib.Nat.{div-mul-le_self, mul-le-mul_left, two-pow-succ, pow-zero}
use uvm.Cbor.Value.{Bytes}
use uvm.Safe.Word.{Outcome, done, invalid_argument, no_fuel, ◌>>=◌}
use uvm.Safe.Digits.{hex_digit, pad, read_digits, read_digits_step, read_digits-pad}
use uvm.Safe.Uint128.{SimpleUint128, IsUint128, value, word, create, is_zero}
use uvm.Safe.Uint128.Sums.{word-IsUint128}
use uvm.Safe.Uint128.Divmod.{divmod}
use uvm.Safe.Uint128.Quotient.{divmod_small}

-- The loop: `q` is `qr.div_result`, of which at least one digit is written.
unfoldable pub digits_loop : ℕ → SimpleUint128 → SimpleUint128 → Bytes → Outcome Bytes
digits_loop zero base q out = no_fuel
digits_loop (suc fuel) base q out = divmod q base >>= λ qr.
    let out' = hex_digit (qr.mod_result.low % 2 ^ 8) ∷ out in
    let rest = digits_loop fuel base qr.div_result out' in
    if is_zero qr.div_result then done out' else rest

unfoldable pub to_string : SimpleUint128 → ℕ → ℕ → Outcome Bytes
to_string a base len =
    if ltb base 2 || ltb 16 base
    then invalid_argument
    else (if is_zero a then done (48 ∷ []) else digits_loop 128 (create 0 base) a []) >>= λ out.
        done (pad out len)

digits_loop_step :
    (fuel base : ℕ) (q : SimpleUint128) (out : Bytes)
    → 2 ≤ base
    → base ≤ 16
    → IsUint128 q
    → digits_loop (suc fuel) (create 0 base) q out ≡ (
        if is_zero (word (value q / base))
        then done (hex_digit (value q % base) ∷ out)
        else digits_loop fuel
            (create 0 base)
            (word (value q / base))
            (hex_digit (value q % base) ∷ out))
unfolding digits_loop
digits_loop_step fuel base q out p p' ok =
    let m_low : value q % base % 2 ^ 64 % 2 ^ 8 ≡ value q % base = omega arith in
    rw (divmod_small q base ok (omega arith) (omega arith), m_low) refl

digits_loop_lem :
    (fuel base : ℕ) (q : SimpleUint128) (out : Bytes)
    → 2 ≤ base
    → base ≤ 16
    → IsUint128 q
    → 0 < value q
    → value q < 2 ^ fuel
    → (s : Bytes) × (digits_loop fuel (create 0 base) q out ≡ done s)
      × (read_digits base 0 s ≡ value q * base ^ length out + read_digits base 0 out)
digits_loop_lem zero base q out p p' ok pos h = absurd (omega arith)
digits_loop_lem (suc fuel) base q out p p' ok pos h =
    let d = value q / base in
    let bound : d * base ≤ value q = div-mul-le_self (value q) base in
    let halves : d * 2 ≤ d * base = mul-le-mul_left d p in
    let (ok_d, v_d) = word-IsUint128 d (omega arith) in
    let out' : Bytes = hex_digit (value q % base) ∷ out in
    let number : ℕ → ℕ = λ k. k * base ^ length out' + read_digits base 0 out' in
    let read = read_digits_step base (value q) out (omega arith) p' in
    let step = digits_loop_step fuel base q out p p' ok in
    elim (Bool-cases (is_zero (word d))) [
      | inl z ↦
          let d0 : d ≡ 0 = ground (arith, z, v_d) in
          (out', step ∙ rw z refl, omega (arith, ap number d0, read))
      | inr nz ↦
          let room : value (word d) < 2 ^ fuel = omega (arith, two-pow-succ fuel) in
          let (s, eq, value_s) =
            digits_loop_lem fuel base (word d) out' p p' ok_d (ground (arith, nz, v_d)) room in
          (s, step ∙ rw nz eq, value_s ∙ ap number v_d ∙ read)
    ]

-- In a base from 2 to 16 the text of a 128-bit number reads back as that number and has the length
-- asked for, or more.
pub to_string_lem :
    (a : SimpleUint128) (base len : ℕ)
    → 2 ≤ base
    → base ≤ 16
    → IsUint128 a
    → (s : Bytes) × (to_string a base len ≡ done s)
      × (read_digits base 0 s ≡ value a)
      × (len ≤ length s)
unfolding to_string
to_string_lem a base len p q ok =
    let range : ltb base 2 || ltb 16 base ≡ false = ground arith in
    elim (Bool-cases (is_zero a)) [
      | inl z ↦
          let (read, long) = read_digits-pad base (48 ∷ []) len in
          (pad (48 ∷ []) len, rw (range, z, to_string) refl, read ∙ ground (arith, z), long)
      | inr nz ↦
          let (s, e, read) =
            digits_loop_lem 128 base a [] p q ok (ground (arith, nz)) (omega arith) in
          let (read', long) = read_digits-pad base s len in
          let one : value a * base ^ 0 + 0 ≡ value a =
            omega (arith, pow-zero base, ap (λ n. value a * n) (pow-zero base)) in
          (pad s len, rw (range, nz, e, to_string) refl, read' ∙ read ∙ one, long)
    ]
