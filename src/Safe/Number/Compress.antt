-- ===== src/Safe/Number/Compress.antt =====
-- The four loops of `compress_number` of src/safenumber/safenumber.cpp, as quotients and products by
-- powers of ten.
use uvm.Base.{ℕ, zero, suc, ◌+◌, ◌-◌, ◌*◌, ◌/◌, ◌%◌, ◌^◌, ◌≤◌, ◌<◌, ◌≡◌, refl, ap, sym, ◌∙◌, arith}
use uvm.Base.{Bool, not, ◌&&◌, ltb, Bool-cases, inl, inr, ◌⊎◌}
use native.Mathlib.Nat.{pow-suc, pow-succ', pow-zero, div-div-eq-div-mul}
use uvm.Base.Bits.{le_mul, ten_pow_pos}
use uvm.Safe.Word.{done}
use uvm.Safe.Uint128
use uvm.Safe.Uint128.{SimpleUint128, IsUint128, value, word, uint128_10}
use uvm.Safe.Uint128.Sums.{word-IsUint128, order_lem}
use uvm.Safe.Uint128.Multi.{multi, multi_lem}
use uvm.Safe.Uint128.Quotient.{divmod_small}
use uvm.Safe.Number.{largest_x, shorten, drop_digits, restore_digits, strip}

pub largest_lem : IsUint128 largest_x × (value largest_x ≡ 10 ^ 32)
largest_lem =
    let (ok, e) =
      multi_lem (Uint128.create 0 (10 ^ 16)) (Uint128.create 0 (10 ^ 16)) (omega arith, omega arith)
        (omega arith, omega arith) in
    (ok, e ∙ omega arith)

div_pow : (v b k : ℕ) → v / b / b ^ k ≡ v / b ^ suc k
div_pow v b k = div-div-eq-div-mul v b (b ^ k) ∙ ap (λ n. v / n) (sym (pow-succ' b k))

div_one : (v b : ℕ) → v / b ^ 0 ≡ v
div_one v b = ap (λ n. v / n) (pow-zero b) ∙ omega arith

-- The number without its last digit.
tenth_lem :
    (x : SimpleUint128)
    → IsUint128 x
    → IsUint128 (word (value x / 10)) × (value (word (value x / 10)) ≡ value x / 10)
tenth_lem x h = word-IsUint128 (value x / 10) (omega arith)

-- `shorten` drops as many digits as places, none of a number up to 10 ^ 32, and one of a number below 10 ^ 33.
pub shorten_lem :
    (x : SimpleUint128) (e : ℕ)
    → IsUint128 x
    → (y : SimpleUint128) × (d : ℕ) × (shorten x e ≡ done (y, d))
      × IsUint128 y
      × (d ≤ e)
      × (value y ≡ value x / 10 ^ (e - d))
      × (value x ≤ 10 ^ 32 → d ≡ e)
      × (value x < 10 ^ 33 → e ≤ d + 1)
unfolding shorten
shorten_lem x zero h = (
  x,
  0,
  refl,
  h,
  omega arith,
  sym (div_one (value x) 10),
  (λ small. refl),
  (λ small. omega arith),
)
shorten_lem x (suc e) h =
    let largest = largest_lem in
    let order = (order_lem x largest_x h largest.0).0 in
    elim (Bool-cases (Uint128.gt x largest_x)) [
      | inl t ↦
          let (ok, tenth) = tenth_lem x h in
          let (y, d, eq, ok', le, v, same, one) = shorten_lem (word (value x / 10)) e ok in
          let more : suc e - d ≡ suc (e - d) = omega arith in
          let v' : value y ≡ value x / 10 ^ (suc e - d) =
            v
            ∙ ap (λ n. n / 10 ^ (e - d)) tenth
            ∙ div_pow (value x) 10 (e - d)
            ∙ ap (λ n. value x / 10 ^ n) (sym more) in
          (
            y,
            d,
            rw (t, divmod_small x 10 h (omega arith) (omega arith), shorten) eq,
            ok',
            omega arith,
            v',
            (λ small. absurd (ground (arith, t, order, largest.1, small))),
            (λ small. let d_e = same (omega (arith, tenth, small)) in omega (arith, d_e)),
          )
      | inr f ↦
          let none : suc e - suc e ≡ 0 = omega arith in
          (
            x,
            suc e,
            rw (f, shorten) refl,
            h,
            omega arith,
            sym (ap (λ n. value x / 10 ^ n) none ∙ div_one (value x) 10),
            (λ small. refl),
            (λ small. omega arith),
          )
    ]

-- `drop_digits` drops the digits of the places past the sixteenth.
pub drop_digits_lem :
    (x : SimpleUint128) (count : ℕ)
    → IsUint128 x
    → (y : SimpleUint128) × (drop_digits x count ≡ done y)
      × IsUint128 y
      × (value y ≡ value x / 10 ^ (count - 16))
unfolding drop_digits
drop_digits_lem x zero h = (x, refl, h, sym (div_one (value x) 10))
drop_digits_lem x (suc count) h = elim (Bool-cases (ltb 16 (suc count))) [
  | inl t ↦
      let (ok, tenth) = tenth_lem x h in
      let (y, eq, ok', v) = drop_digits_lem (word (value x / 10)) count ok in
      let more : suc count - 16 ≡ suc (count - 16) = ground (arith, t) in
      (
        y,
        rw (t, divmod_small x 10 h (omega arith) (omega arith), drop_digits) eq,
        ok',
        v
            ∙ ap (λ n. n / 10 ^ (count - 16)) tenth
            ∙ div_pow (value x) 10 (count - 16)
            ∙ ap (λ n. value x / 10 ^ n) (sym more),
      )
  | inr f ↦
      let none : suc count - 16 ≡ 0 = ground (arith, f) in
      (x, rw (f, drop_digits) refl, h, sym (ap (λ n. value x / 10 ^ n) none ∙ div_one (value x) 10))
]

-- `restore_digits` appends n zeros.
pub restore_digits_lem :
    (x : SimpleUint128) (n : ℕ)
    → IsUint128 x
    → value x * 10 ^ n < 2 ^ 128
    → IsUint128 (restore_digits x n) × (value (restore_digits x n) ≡ value x * 10 ^ n)
unfolding restore_digits
restore_digits_lem x zero h room = (h, sym (ap (λ n. value x * n) (pow-zero 10) ∙ omega arith))
restore_digits_lem x (suc n) h room =
    let (ok, e) = multi_lem x uint128_10 h (omega arith, omega arith) in
    let one_more : value x * 10 ^ suc n ≡ value x * 10 * 10 ^ n =
      ap (λ k. value x * k) (pow-succ' 10 n) ∙ regroup (value x) (10 ^ n) in
    let grows : value x * 10 ≤ value x * 10 * 10 ^ n =
      le_mul (value x * 10) (10 ^ n) (ten_pow_pos n) in
    let e' : value (multi x uint128_10) ≡ value x * 10 = omega arith in
    let (ok', v) =
      restore_digits_lem (multi x uint128_10) n ok (omega (arith, ap (λ k. k * 10 ^ n) e')) in
    (ok', v ∙ ap (λ k. k * 10 ^ n) e' ∙ sym one_more)
  where
    regroup : (v p : ℕ) → v * (10 * p) ≡ v * 10 * p
    regroup v p = grind arith

-- The condition of the loop of `strip`.
abbrev ends_with_zero : SimpleUint128 → Bool
ends_with_zero x = not (Uint128.is_zero x) && Uint128.eq (multi (word (value x / 10)) uint128_10) x

-- Nothing is left to drop: the number is 0, has no places, or ends with another digit than 0.
abbrev pub IsStripped : ℕ → ℕ → Type 0
IsStripped v e = (v ≡ 0) ⊎ ((e ≡ 0) ⊎ (0 < v % 10))

-- `strip` keeps the number that a digit string with places stands for.
pub strip_lem :
    (x : SimpleUint128) (e : ℕ)
    → IsUint128 x
    → (y : SimpleUint128) × (d : ℕ) × (strip x e ≡ done (y, d))
      × IsUint128 y
      × (d ≤ e)
      × (value y * 10 ^ (e - d) ≡ value x)
      × IsStripped (value y) d
unfolding strip
strip_lem x zero h =
    (x, 0, refl, h, omega arith, ap (λ n. value x * n) (pow-zero 10) ∙ omega arith, inr (inl refl))
strip_lem x (suc e) h =
    let (ok, tenth) = tenth_lem x h in
    let div = divmod_small x 10 h (omega arith) (omega arith) in
    let (ok', product) = multi_lem (word (value x / 10)) uint128_10 ok (omega arith, omega arith) in
    let same = (order_lem (multi (word (value x / 10)) uint128_10) x ok' h).2 in
    elim (Bool-cases (ends_with_zero x)) [
      | inl t ↦
          let whole : value x / 10 * 10 ≡ value x = ground (arith, t, same, product, tenth) in
          let (y, d, eq, ok'', le, v, stripped) = strip_lem (word (value x / 10)) e ok in
          let more : suc e - d ≡ suc (e - d) = omega arith in
          let v' : value y * 10 ^ suc (e - d) ≡ value x =
            one_more (value y) (10 ^ (e - d)) (value x / 10) (v ∙ tenth) (pow-suc 10 (e - d))
            ∙ whole in
          (
            y,
            d,
            rw (div, t, strip) eq,
            ok'',
            omega arith,
            ap (λ n. value y * 10 ^ n) more ∙ v',
            stripped,
          )
      | inr f ↦
          let none : suc e - suc e ≡ 0 = omega arith in
          (
            x,
            suc e,
            rw (div, f, strip) refl,
            h,
            omega arith,
            ap (λ n. value x * 10 ^ n) none ∙ ap (λ n. value x * n) (pow-zero 10) ∙ omega arith,
            elim (Bool-cases (Uint128.is_zero x)) [
              | inl z ↦ inl (ground (arith, z))
              | inr nz ↦ inr (inr (ground (arith, f, nz, same, product, tenth)))
            ],
          )
    ]
  where
    one_more : {q : ℕ} (v p w : ℕ) → v * p ≡ w → q ≡ p * 10 → v * q ≡ w * 10
    one_more v p w e f = ap (λ n. v * n) f ∙ assoc v p ∙ ap (λ n. n * 10) e
      where
        assoc : (v p : ℕ) → v * (p * 10) ≡ v * p * 10
        assoc v p = grind arith
