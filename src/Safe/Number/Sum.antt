-- ===== src/Safe/Number/Sum.antt =====
-- `safe_number_add` and `safe_number_minus` of src/safenumber/safenumber.cpp are exact on numbers of up
-- to 32 digits.
use uvm.Base.{
  ℕ, ◌+◌, ◌-◌, ◌*◌, ◌^◌, ◌≤◌, ◌<◌, ◌≡◌, refl, ap, ap₂, sym, ◌∙◌, arith, Bool, true, false, inl, inr,
  Bool-cases, not, ◌||◌,
}
use uvm.Base.Bits.{ten_pow_pos, pow_add, le_mul}
use uvm.Base.Int.{ℤ, pos_part, neg_part, parts, ◌+ℤ◌, +ℤ_parts, eq_of_parts}
use uvm.Safe.Word.{done}
use uvm.Safe.Uint128.{SimpleUint128, IsUint128, value}
use uvm.Safe.Uint128.Sums.{order_lem, add_lem, minus_lem}
use uvm.Safe.Number.{SafeNumber}
use uvm.Safe.Number.Truncation.{IsCompressed}
use uvm.Safe.Number.Exact.{
  signed, units, signed_units, IsDecimal, create_exact, ten_pow_fits, multi_word_lem,
}
use uvm.Safe.Number.Arithmetic.{max, is_zero, signed_sum, aligned_sum, add}

-- The sign and the digits of a sum, where it stays below 2 ^ 128.
signed_sum_lem :
    (s : Bool) (ax : SimpleUint128) (t : Bool) (bx : SimpleUint128)
    → IsUint128 ax
    → IsUint128 bx
    → value ax + value bx < 2 ^ 128
    → IsUint128 (signed_sum s ax t bx).1
      × (value (signed_sum s ax t bx).1 ≤ value ax + value bx)
      × (signed (signed_sum s ax t bx).0 (value (signed_sum s ax t bx).1)
          ≡ signed s (value ax) +ℤ signed t (value bx))
unfolding signed_sum ◌+ℤ◌
signed_sum_lem true ax true bx p q room = let sum = add_lem ax bx p q in ground (arith, sum)
signed_sum_lem false ax false bx p q room = let sum = add_lem ax bx p q in ground (arith, sum)
signed_sum_lem true ax false bx p q room =
    let order = order_lem ax bx p q in
    let less = minus_lem bx ax q p in
    let more = minus_lem ax bx p q in ground (arith, order.0, order.2, less, more)
signed_sum_lem false ax true bx p q room =
    let order = order_lem ax bx p q in
    let less = minus_lem bx ax q p in
    let more = minus_lem ax bx p q in ground (arith, order.0, order.2, less, more)

sum_parts :
    (a b c : ℤ)
    → a ≡ b +ℤ c
    → pos_part a + neg_part b + neg_part c ≡ neg_part a + pos_part b + pos_part c
sum_parts a b c e = omega (arith, parts e, +ℤ_parts b c)

of_sum_parts :
    (a b c : ℤ)
    → pos_part a + neg_part b + neg_part c ≡ neg_part a + pos_part b + pos_part c
    → a ≡ b +ℤ c
of_sum_parts a b c e = eq_of_parts a (b +ℤ c) (omega (arith, e, +ℤ_parts b c))

negative_parts : (n : ℕ) → (pos_part (signed false n) ≡ 0) × (neg_part (signed false n) ≡ n)
negative_parts n = (ground arith, ground arith)

parts_scale :
    (s : Bool) (v k : ℕ)
    → (pos_part (signed s (v * k)) ≡ pos_part (signed s v) * k)
      × (neg_part (signed s (v * k)) ≡ neg_part (signed s v) * k)
parts_scale true v k = (refl, omega arith)
parts_scale false v k =
    let (none, all) = negative_parts (v * k) in
    let (none', all') = negative_parts v in
    (none ∙ sym (ap (λ n. n * k) none' ∙ omega arith), all ∙ sym (ap (λ n. n * k) all'))

-- A signed sum of units is one of smaller units.
pub scale_sum :
    (r s t : Bool) (u v w k : ℕ)
    → signed r u ≡ signed s v +ℤ signed t w
    → signed r (u * k) ≡ signed s (v * k) +ℤ signed t (w * k)
scale_sum r s t u v w k h = of_sum_parts _ _ _ (
    ap₂ ◌+◌ (ap₂ ◌+◌ (parts_scale r u k).0 (parts_scale s v k).1) (parts_scale t w k).1
    ∙ scale _ _ _ _ _ _ (sum_parts _ _ _ h)
    ∙ sym (ap₂ ◌+◌ (ap₂ ◌+◌ (parts_scale r u k).1 (parts_scale s v k).0) (parts_scale t w k).0))
  where
    scale :
        (a b c d e f : ℕ) → a + b + c ≡ d + e + f → a * k + b * k + c * k ≡ d * k + e * k + f * k
    scale a b c d e f h = distribute a b c ∙ ap (λ n. n * k) h ∙ sym (distribute d e f)
      where
        distribute : (a b c : ℕ) → a * k + b * k + c * k ≡ (a + b + c) * k
        distribute a b c = grind arith

aligned_sum_exact :
    (a b : SafeNumber)
    → IsDecimal a
    → IsDecimal b
    → units (max a.e b.e) a + units (max a.e b.e) b ≤ 10 ^ 32
    → (n : SafeNumber) × (aligned_sum a b ≡ done n)
      × IsCompressed n
      × (n.e ≤ max a.e b.e)
      × (signed_units (max a.e b.e) n
          ≡ signed_units (max a.e b.e) a +ℤ signed_units (max a.e b.e) b)
unfolding aligned_sum
aligned_sum_exact a b p q small =
    let m = max a.e b.e in
    let few : m ≤ 16 = ground arith in
    let (ok, ax) =
      multi_word_lem a.x (10 ^ (m - a.e)) p.1 (ten_pow_fits (m - a.e) (omega arith))
        (omega arith) in
    let (ok', bx) =
      multi_word_lem b.x (10 ^ (m - b.e)) q.1 (ten_pow_fits (m - b.e) (omega arith))
        (omega arith) in
    let (ok'', le, sum) = signed_sum_lem a.sign _ b.sign _ ok ok' (omega arith) in
    let (n, run, form, le', kept, exact) = create_exact _ _ m ok'' few (omega arith) in
    (n, run, form, le', exact ∙ sum ∙ ap₂ (λ x y. signed a.sign x +ℤ signed b.sign y) ax bx)

-- A place further down has ten units for one.
pub units_scale :
    (a : SafeNumber) (l m : ℕ) → a.e ≤ l → l ≤ m → units m a ≡ units l a * 10 ^ (m - l)
units_scale a l m p q =
    let split : m - a.e ≡ l - a.e + (m - l) = omega arith in
    ap (λ n. value a.x * 10 ^ n) split
    ∙ ap (λ n. value a.x * n) (pow_add 10 (l - a.e) (m - l))
    ∙ assoc (value a.x) (10 ^ (l - a.e)) (10 ^ (m - l))
  where
    assoc : (x y z : ℕ) → x * (y * z) ≡ x * y * z
    assoc x y z = grind arith

scale_units :
    (n a b : SafeNumber) (l m : ℕ)
    → n.e ≤ l
    → a.e ≤ l
    → b.e ≤ l
    → l ≤ m
    → signed_units l n ≡ signed_units l a +ℤ signed_units l b
    → signed_units m n ≡ signed_units m a +ℤ signed_units m b
scale_units n a b l m p q r le h =
    ap (signed n.sign) (units_scale n l m p le)
    ∙ scale_sum n.sign a.sign b.sign _ _ _ (10 ^ (m - l)) h
    ∙ sym (
        ap₂ (λ x y. signed a.sign x +ℤ signed b.sign y) (units_scale a l m q le)
          (units_scale b l m r le))

pub zero_units : (b : SafeNumber) (m : ℕ) → is_zero b ≡ true → units m b ≡ 0
unfolding is_zero
zero_units b m z =
    let none : value b.x ≡ 0 = ground (arith, z) in ap (λ k. k * 10 ^ (m - b.e)) none ∙ omega arith

+ℤ-none : (s t : Bool) (u v : ℕ) → v ≡ 0 → signed s u ≡ signed s u +ℤ signed t v
unfolding ◌+ℤ◌
+ℤ-none s t u v e = ground (arith, e)

none-+ℤ : (s t : Bool) (u v : ℕ) → u ≡ 0 → signed t v ≡ signed s u +ℤ signed t v
unfolding ◌+ℤ◌
none-+ℤ s t u v e = ground (arith, e)

-- A sum is exact: counted in units of any place from the last of the two numbers on, the sixteenth at
-- most, it is the signed sum of the two, where their digits add up to 10 ^ 32 at most.
pub add_exact :
    (a b : SafeNumber) (m : ℕ)
    → IsDecimal a
    → IsDecimal b
    → a.e ≤ m
    → b.e ≤ m
    → units m a + units m b ≤ 10 ^ 32
    → (n : SafeNumber) × (add a b ≡ done n)
      × IsDecimal n
      × (n.e ≤ m)
      × (signed_units m n ≡ signed_units m a +ℤ signed_units m b)
unfolding add
add_exact a b m p q le le' small =
    let valid : not a.valid || not b.valid ≡ false = ground (arith, p.0, q.0) in
    elim (Bool-cases (is_zero b)) [
      | inl z ↦ (a, rw (valid, z, add) refl, p, le, +ℤ-none a.sign b.sign _ _ (zero_units b m z))
      | inr nz ↦ elim (Bool-cases (is_zero a)) [
        | inl z ↦
            (b, rw (valid, nz, z, add) refl, q, le', none-+ℤ a.sign b.sign _ _ (zero_units a m z))
        | inr nz' ↦
            let l = max a.e b.e in
            let up : l ≤ m = ground arith in
            let left : a.e ≤ l = ground arith in
            let right : b.e ≤ l = ground arith in
            let a_grows = le_mul (units l a) (10 ^ (m - l)) (ten_pow_pos (m - l)) in
            let b_grows = le_mul (units l b) (10 ^ (m - l)) (ten_pow_pos (m - l)) in
            let (n, run, form, le_n, exact) = aligned_sum_exact a b p q (
              omega
                (arith, a_grows, b_grows, units_scale a l m left up, units_scale b l m right up)) in
            (
              n,
              rw (valid, nz, nz', add) run,
              (form.0, form.1, form.2),
              omega arith,
              scale_units n a b l m le_n left right up exact,
            )
      ]
    ]
