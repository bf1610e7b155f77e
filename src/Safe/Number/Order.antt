-- ===== src/Safe/Number/Order.antt =====
-- `safe_number_gt` of src/safenumber/safenumber.cpp is the order of the numbers it compares.
use uvm.Base.{
  ℕ, ◌+◌, ◌-◌, ◌*◌, ◌/◌, ◌%◌, ◌^◌, ◌≤◌, ◌<◌, ◌≡◌, refl, ap, ap₂, sym, subst, ◌∙◌, arith, Bool, true,
  false, inl, inr, Bool-cases, not, ◌||◌, ◌⊎◌, ltb, if◌then◌else◌, lt_or_ge,
}
use uvm.Base.Int.{ltb_ℤ}
use native.Mathlib.Nat.{pow-zero, div-le_self}
use uvm.Base.Bits.{ten_pow_pos, pow_add}
use uvm.Safe.Word.{done}
use uvm.Safe.Uint128.{SimpleUint128, IsUint128, value, word}
use uvm.Safe.Uint128.Sums.{order_lem, word-IsUint128}
use uvm.Safe.Uint128.Quotient.{divmod_small}
use uvm.Safe.Number.{SafeNumber}
use uvm.Safe.Number.Exact.{signed, units, signed_units, IsDecimal, ten_pow_fits, multi_word_lem}
use uvm.Safe.Number.Arithmetic.{max, differ}
use uvm.Safe.Number.Comparison.{gt_parts, extend, gt}

-- Two numbers of a whole part and a rest below m are compared by the whole parts first.
lexicographic :
    (wa ra wb rb m : ℕ)
    → ra < m
    → rb < m
    → ltb (wb * m + rb) (wa * m + ra)
      ≡ (if ltb wb wa then true else if ltb wa wb then false else ltb rb ra)
lexicographic wa ra wb rb m p q = elim (lt_or_ge wb wa) [
  | inl lt ↦ let above : wb * m + m ≤ wa * m = grind arith in ground arith
  | inr ge ↦ elim (lt_or_ge wa wb) [
    | inl lt ↦ let below : wa * m + m ≤ wb * m = grind arith in ground arith
    | inr ge' ↦ let same : wa * m ≡ wb * m = ap (λ n. n * m) (omega arith) in ground arith
  ]
]

gt_parts_lem :
    (sign : Bool) (wa wb ra rb : SimpleUint128) (m : ℕ)
    → IsUint128 wa
    → IsUint128 wb
    → IsUint128 ra
    → IsUint128 rb
    → value ra < m
    → value rb < m
    → gt_parts sign wa wb ra rb
      ≡ ltb_ℤ (signed sign (value wb * m + value rb)) (signed sign (value wa * m + value ra))
unfolding gt_parts
gt_parts_lem true wa wb ra rb m p q r s h h' =
    let whole = order_lem wa wb p q in
    let rest = order_lem ra rb r s in
    let lex = lexicographic (value wa) (value ra) (value wb) (value rb) m h h' in
    ground (arith, whole.0, whole.1, rest.0, rest.2, lex)
gt_parts_lem false wa wb ra rb m p q r s h h' =
    let whole = order_lem wa wb p q in
    let rest = order_lem ra rb r s in
    let lex = lexicographic (value wb) (value rb) (value wa) (value ra) m h' h in
    ground (arith, whole.0, whole.1, rest.0, rest.2, lex)

-- Whole part and rest of a number, in units of the m-th place.
units_split :
    (a : SafeNumber) (m : ℕ)
    → a.e ≤ m
    → (units m a ≡ value a.x / 10 ^ a.e * 10 ^ m + value a.x % 10 ^ a.e * 10 ^ (m - a.e))
      × (value a.x % 10 ^ a.e * 10 ^ (m - a.e) < 10 ^ m)
units_split a m le =
    let p = 10 ^ a.e in
    let s = 10 ^ (m - a.e) in
    let q = value a.x / p in
    let r = value a.x % p in
    let pos_p = ten_pow_pos a.e in
    let pos_s = ten_pow_pos (m - a.e) in
    let parts : value a.x ≡ q * p + r = grind arith in
    let whole : a.e + (m - a.e) ≡ m = omega arith in
    let power : p * s ≡ 10 ^ m = sym (pow_add 10 a.e (m - a.e)) ∙ ap (λ k. 10 ^ k) whole in
    let below : r < p = omega arith in
    (
      ap (λ n. n * s) parts ∙ distribute q p r s ∙ ap (λ n. q * n + r * s) power,
      scaled r p s _ below pos_s power,
    )
  where
    distribute : (q p r s : ℕ) → (q * p + r) * s ≡ q * (p * s) + r * s
    distribute q p r s = grind arith

    scaled : (r p s t : ℕ) → r < p → 0 < s → p * s ≡ t → r * s < t
    scaled r p s t h nonzero e = let bound : r * s + s ≤ p * s = grind arith in omega arith

extend_lem :
    (rest : SimpleUint128) (e e' : ℕ)
    → IsUint128 rest
    → e ≤ 16
    → e' ≤ 16
    → value rest * 10 ^ (max e e' - e) < 10 ^ max e e'
    → IsUint128 (extend rest e e') × (value (extend rest e e') ≡ value rest * 10 ^ (max e e' - e))
extend_lem rest e e' ok h h' bound = elim (Bool-cases (ltb e e')) [
  | inl t ↦
      let m_is : max e e' ≡ e' = rw t refl in
      let fits = ten_pow_fits e' h' in
      let bound' : value rest * 10 ^ (e' - e) < 10 ^ e' =
        subst (λ m. value rest * 10 ^ (m - e) < 10 ^ m) m_is bound in
      let (ok', v) =
        multi_word_lem rest (10 ^ (e' - e)) ok (ten_pow_fits (e' - e) (omega arith))
          (omega arith) in
      rw t (ok', v)
  | inr f ↦
      let none : e - e ≡ 0 = omega arith in
      rw f (
        ok,
        sym (
            ap (λ k. value rest * 10 ^ k) none
            ∙ ap (λ k. value rest * k) (pow-zero 10)
            ∙ omega arith),
      )
]

max_comm : (a b : ℕ) → max a b ≡ max b a
max_comm a b = ground arith

different_signs :
    (s t : Bool) (x y : ℕ)
    → differ s t ≡ true
    → (t ≡ true) ⊎ (0 < y)
    → s ≡ ltb_ℤ (signed t y) (signed s x)
different_signs true true x y d h = absurd (ground (arith, d))
different_signs true false x y d h = ground (arith, h)
different_signs false true x y d h = ground arith
different_signs false false x y d h = absurd (ground (arith, d))

same_signs : (s t : Bool) → differ s t ≡ false → s ≡ t
same_signs true true d = refl
same_signs true false d = absurd (ground (arith, d))
same_signs false true d = absurd (ground (arith, d))
same_signs false false d = refl

-- The two parts of a number that `gt` compares, against its units.
prepared :
    (a : SafeNumber) (e' : ℕ)
    → IsDecimal a
    → e' ≤ 16
    → IsUint128 (word (value a.x / 10 ^ a.e))
      × IsUint128 (extend (word (value a.x % 10 ^ a.e)) a.e e')
      × (value (extend (word (value a.x % 10 ^ a.e)) a.e e') < 10 ^ max a.e e')
      × (value (word (value a.x / 10 ^ a.e)) * 10 ^ max a.e e'
            + value (extend (word (value a.x % 10 ^ a.e)) a.e e')
          ≡ units (max a.e e') a)
prepared a e' p few =
    let m = max a.e e' in
    let (split, bound) = units_split a m (ground arith) in
    let whole_le = div-le_self (value a.x) (10 ^ a.e) in
    let fits = ten_pow_fits a.e p.2 in
    let pos_p = ten_pow_pos a.e in
    let rest_lt : value a.x % 10 ^ a.e < 10 ^ a.e = omega arith in
    let (ok, v) = word-IsUint128 (value a.x / 10 ^ a.e) (omega arith) in
    let (ok', v') = word-IsUint128 (value a.x % 10 ^ a.e) (omega arith) in
    let (ok'', v'') =
      extend_lem (word (value a.x % 10 ^ a.e)) a.e e' ok' p.2 few
        (omega (arith, ap (λ k. k * 10 ^ (m - a.e)) v')) in
    let rest = v'' ∙ ap (λ k. k * 10 ^ (m - a.e)) v' in
    (ok, ok'', omega arith, omega (arith, ap (λ k. k * 10 ^ m) v, rest, split))

-- A comparison of decimals answers whether the first is above the second, counted in units of the last
-- place of the two, where a zero with a minus sign is left out.
pub gt_lem :
    (a b : SafeNumber)
    → IsDecimal a
    → IsDecimal b
    → (b.sign ≡ true) ⊎ (0 < units (max a.e b.e) b)
    → gt a b ≡ done (ltb_ℤ (signed_units (max a.e b.e) b) (signed_units (max a.e b.e) a))
unfolding gt
gt_lem a b p q zero_sign =
    let m = max a.e b.e in
    let valid : not a.valid || not b.valid ≡ false = ground (arith, p.0, q.0) in
    elim (Bool-cases (differ a.sign b.sign)) [
      | inl d ↦
          rw (valid, d, gt)
            (ap done (different_signs a.sign b.sign (units m a) (units m b) d zero_sign))
      | inr d ↦
          let (ok_a, ok_ra, lt_a, sum_a) = prepared a b.e p q.2 in
          let (ok_b, ok_rb, lt_b, sum_b) = prepared b a.e q p.2 in
          let swap = max_comm b.e a.e in
          let lt_b' =
            subst (λ k. value (extend (word (value b.x % 10 ^ b.e)) b.e a.e) < 10 ^ k) swap lt_b in
          let sum_b' =
            subst
              (λ k.
                value (word (value b.x / 10 ^ b.e)) * 10 ^ k
                  + value (extend (word (value b.x % 10 ^ b.e)) b.e a.e)
                ≡ units k b)
              swap sum_b in
          let parts = gt_parts_lem a.sign _ _ _ _ (10 ^ m) ok_a ok_b ok_ra ok_rb lt_a lt_b' in
          rw
            (
              valid,
              d,
              divmod_small a.x (10 ^ a.e) p.1 (ten_pow_pos a.e) (ten_pow_fits a.e p.2),
              divmod_small b.x (10 ^ b.e) q.1 (ten_pow_pos b.e) (ten_pow_fits b.e q.2),
              gt,
            )
            (ap done (
              parts
              ∙ ap₂ (λ x y. ltb_ℤ x y) (ap₂ signed (same_signs a.sign b.sign d) sum_b')
                  (ap (signed a.sign) sum_a)))
    ]
