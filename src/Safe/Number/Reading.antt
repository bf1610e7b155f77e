-- ===== src/Safe/Number/Reading.antt =====
-- `safe_number_create` of a string of src/safenumber/safenumber.cpp on the texts of decimals.
use uvm.Base.{
  ℕ, suc, ◌+◌, ◌*◌, ◌%◌, ◌^◌, ◌≤◌, ◌<◌, ◌≡◌, refl, ap, ap₂, sym, ◌∙◌, arith, Bool, true, false,
  ◌&&◌, if◌then◌else◌, ltb, ◌==◌,
}
use uvm.Base.{subst, [], ◌∷◌, ◌++◌, length, length-append, append-nil}
use native.Mathlib.Nat.{pow-suc, pow-zero, pow-le-pow_right}
use uvm.Cbor.Value.{Bytes}
use uvm.Safe.Word.{done}
use uvm.Safe.Digits.{read_digits, read_digits_from, digit_of}
use uvm.Base.Bits.{le_mul, ten_pow_pos}
use uvm.Safe.Uint128
use uvm.Safe.Uint128.{SimpleUint128, IsUint128, value, word, uint128_0, uint128_10, add_word}
use uvm.Safe.Uint128.Sums.{add_lem, of_value, word-IsUint128}
use uvm.Safe.Uint128.Multi.{multi, multi_lem}
use uvm.Safe.Number.{SafeNumber, valid_number, create}
use uvm.Safe.Number.Truncation.{IsTruncated, compress_number_lem}
use uvm.Safe.Number.Text.{byte_digit, read_loop, create_of_string}

abbrev pub all_digits : Bytes → Bool
all_digits [] = true
all_digits (c ∷ cs) = ltb 47 c && ltb c 58 && all_digits cs

-- The text of a decimal: its whole digits, and a dot with the digits after it where there are any.
abbrev pub number_text : Bytes → Bytes → Bytes
number_text ds [] = ds
number_text ds (f ∷ fs) = ds ++ (46 ∷ f ∷ fs)

abbrev pub signed_text : Bool → Bytes → Bytes
signed_text true s = s
signed_text false s = 45 ∷ s

read_digits-le : (acc : ℕ) (cs : Bytes) → acc ≤ read_digits 10 acc cs
read_digits-le acc cs =
    omega (arith, read_digits_from 10 acc cs, le_mul acc (10 ^ length cs) (ten_pow_pos (length cs)))

read_digits-append :
    (acc : ℕ) (cs ds : Bytes)
    → read_digits 10 (read_digits 10 acc cs) ds ≡ read_digits 10 acc (cs ++ ds)
read_digits-append acc [] ds = refl
read_digits-append acc (c ∷ cs) ds = read_digits-append (acc * 10 + digit_of c) cs ds

all_digits-append :
    (cs ds : Bytes) → all_digits cs ≡ true → all_digits ds ≡ true → all_digits (cs ++ ds) ≡ true
all_digits-append [] ds p q = q
all_digits-append (c ∷ cs) ds p q = ground (arith, all_digits-append cs ds, p, q)

read_digits-lt :
    (acc : ℕ) (cs : Bytes)
    → all_digits cs ≡ true
    → read_digits 10 acc cs < (acc + 1) * 10 ^ length cs
read_digits-lt acc [] h = omega (arith, ap (λ k. (acc + 1) * k) (pow-zero 10))
read_digits-lt acc (c ∷ cs) h =
    let digit : (47 < c) × (c < 58) × (all_digits cs ≡ true) = ground (arith, h) in
    let d = digit_of c in
    let small : d < 10 = ground (arith, digit) in
    let rest = read_digits-lt (acc * 10 + d) cs digit.2 in
    let power = 10 ^ length cs in
    let carry : (acc * 10 + d + 1) * power ≤ (acc + 1) * (power * 10) = grind (arith, small) in
    let unroll : (acc + 1) * 10 ^ suc (length cs) ≡ (acc + 1) * (power * 10) =
      ap (λ k. (acc + 1) * k) (pow-suc 10 (length cs)) in
    omega (arith, rest, carry, unroll)

word_of : (d : ℕ) → d < 10 → d < 2 ^ 64
word_of d h = omega arith

-- One digit is read.
digit_lem :
    (x : SimpleUint128) (c : ℕ)
    → IsUint128 x
    → 47 < c
    → c < 58
    → value x * 10 + digit_of c < 2 ^ 128
    → IsUint128 (add_word (multi x uint128_10) (byte_digit c))
      × (value (add_word (multi x uint128_10) (byte_digit c)) ≡ value x * 10 + digit_of c)
unfolding add_word
digit_lem x c h low high room =
    let (ok, v) = multi_lem x uint128_10 h (omega arith, omega arith) in
    let d : byte_digit c ≡ digit_of c = ground (arith, low, high) in
    let small : digit_of c < 10 = ground (arith, low, high) in
    let (ok', v') =
      add_lem (multi x uint128_10) (Uint128.create 0 (digit_of c)) ok
        (omega arith, word_of (digit_of c) small) in
    let ten : value uint128_10 ≡ 10 = omega arith in
    let v'' = v ∙ ap (λ k. value x * k % 2 ^ 128) ten in
    subst
      (λ k.
        IsUint128 (add_word (multi x uint128_10) k)
        × (value (add_word (multi x uint128_10) k) ≡ value x * 10 + digit_of c))
      (sym d) (ok', omega arith)

count_none : (after_dot : Bool) (e : ℕ) → (if after_dot then e + 0 else e) ≡ e
count_none true e = omega arith
count_none false e = refl

count_one :
    (after_dot : Bool) (e n : ℕ)
    → (if after_dot then (if after_dot then e + 1 else e) + n else (if after_dot then e + 1 else e))
      ≡ (if after_dot then e + suc n else e)
count_one true e n = omega arith
count_one false e n = refl

-- Digits are read one after another, and counted where they stand after the dot.
read_some :
    (cs rest : Bytes) (sign : Bool) (x : SimpleUint128) (e : ℕ) (after_dot : Bool)
    → all_digits cs ≡ true
    → IsUint128 x
    → read_digits 10 (value x) cs < 2 ^ 128
    → (y : SimpleUint128) × (read_loop (cs ++ rest) sign x e after_dot
        ≡ read_loop rest sign y (if after_dot then e + length cs else e) after_dot)
      × IsUint128 y
      × (value y ≡ read_digits 10 (value x) cs)
unfolding read_loop
read_some [] rest sign x e after_dot h ok small =
    (x, ap (λ k. read_loop rest sign x k after_dot) (sym (count_none after_dot e)), ok, refl)
read_some (c ∷ cs) rest sign x e after_dot h ok small =
    let digit : (47 < c) × (c < 58) × (all_digits cs ≡ true) = ground (arith, h) in
    let bound = read_digits-le (value x * 10 + digit_of c) cs in
    let (ok', v) = digit_lem x c ok digit.0 digit.1 (omega arith) in
    let same = ap (λ k. read_digits 10 k cs) v in
    let (y, run, ok_y, v_y) =
      read_some cs rest sign (add_word (multi x uint128_10) (byte_digit c))
        (if after_dot then e + 1 else e) after_dot digit.2 ok' (omega (arith, same)) in
    let no_dot : (c == 46) ≡ false = ground (arith, digit) in
    (
      y,
      rw (no_dot, read_loop)
          (run ∙ ap (λ k. read_loop rest sign y k after_dot) (count_one after_dot e (length cs))),
      ok_y,
      v_y ∙ same,
    )

-- The digits up to the end give the number.
read_all :
    (cs : Bytes) (sign : Bool) (x : SimpleUint128) (e : ℕ) (after_dot : Bool)
    → all_digits cs ≡ true
    → IsUint128 x
    → read_digits 10 (value x) cs < 2 ^ 128
    → read_loop cs sign x e after_dot
      ≡ create sign (word (read_digits 10 (value x) cs)) (if after_dot then e + length cs else e)
unfolding read_loop
read_all cs sign x e after_dot h ok small =
    let (y, run, ok', v) = read_some cs [] sign x e after_dot h ok small in
    let is_word : y ≡ word (read_digits 10 (value x) cs) = of_value y _ ok' v in
    ap (λ t. read_loop t sign x e after_dot) (sym (append-nil cs))
    ∙ run
    ∙ ap (λ k. create sign k (if after_dot then e + length cs else e)) is_word

-- The whole text is read as the number that its digits are, with as many places as it has digits
-- after the dot.
read_text :
    (ds fs : Bytes) (sign : Bool)
    → all_digits ds ≡ true
    → all_digits fs ≡ true
    → read_digits 10 0 (ds ++ fs) < 2 ^ 128
    → read_loop (number_text ds fs) sign uint128_0 0 false
      ≡ create sign (word (read_digits 10 0 (ds ++ fs))) (length fs)
unfolding read_loop
read_text ds [] sign p q small =
    let same = ap (λ t. read_digits 10 0 t) (append-nil ds) in
    read_all ds sign uint128_0 0 false p (omega arith, omega arith) (omega (arith, same, small))
    ∙ ap (λ k. create sign (word k) 0) (sym same)
read_text ds (f ∷ fs) sign p q small =
    let whole = read_digits-append 0 ds (f ∷ fs) in
    let bound = read_digits-le (read_digits 10 0 ds) (f ∷ fs) in
    let (y, run, ok, v) =
      read_some ds (46 ∷ f ∷ fs) sign uint128_0 0 false p (omega arith, omega arith)
        (omega (arith, bound, whole, small)) in
    let same = ap (λ k. read_digits 10 k (f ∷ fs)) v in
    let places : 0 + length (f ∷ fs) ≡ length (f ∷ fs) = omega arith in
    run
    ∙ read_all (f ∷ fs) sign y 0 true q ok (omega (arith, same, whole, small))
    ∙ ap₂ (λ k e. create sign (word k) e) (same ∙ whole) places

-- A text of at most 38 digits, one of them before the dot at least, with a minus or without.
abbrev pub IsNumberText : Bytes → Bytes → Type 0
IsNumberText ds fs =
    (all_digits ds ≡ true) × (all_digits fs ≡ true) × (0 < length ds) × (length ds + length fs ≤ 38)

digits-lt : (ds fs : Bytes) → IsNumberText ds fs → read_digits 10 0 (ds ++ fs) < 2 ^ 128
digits-lt ds fs form =
    let below = read_digits-lt 0 (ds ++ fs) (all_digits-append ds fs form.0 form.1) in
    let few : length (ds ++ fs) ≤ 38 = omega (arith, length-append ds fs, form.3) in
    let bound : 10 ^ length (ds ++ fs) ≤ 10 ^ 38 = pow-le-pow_right {n = 10} (omega arith) few in
    omega (arith, below, bound)

length-number_text : (ds fs : Bytes) → length (number_text ds fs) ≤ length ds + length fs + 1
length-number_text ds [] = omega arith
length-number_text ds (f ∷ fs) = omega (arith, length-append ds (46 ∷ f ∷ fs))

plain_start :
    (d : ℕ) (cs : Bytes)
    → ltb 47 d && ltb d 58 ≡ true
    → length (d ∷ cs) ≤ 39
    → create_of_string (d ∷ cs) ≡ read_loop (d ∷ cs) true uint128_0 0 false
unfolding create_of_string
plain_start d cs digit few =
    let some_text : (length (d ∷ cs) == 0) ≡ false = ground arith in
    let short : ltb 40 (length (d ∷ cs)) ≡ false = ground (arith, few) in
    let no_n : (d == 78) ≡ false = ground (arith, digit) in
    let no_plus : (d == 43) ≡ false = ground (arith, digit) in
    let no_minus : (d == 45) ≡ false = ground (arith, digit) in
    rw (some_text, short, no_n, no_plus, no_minus, create_of_string) refl

minus_start :
    (t : Bytes) → length t ≤ 39 → create_of_string (45 ∷ t) ≡ read_loop t false uint128_0 0 false
unfolding create_of_string
minus_start t few =
    let some_text : (length (45 ∷ t) == 0) ≡ false = ground arith in
    let short : ltb 40 (length (45 ∷ t)) ≡ false = ground (arith, few) in
    rw (some_text, short, create_of_string) refl

start_of_text :
    (ds fs : Bytes) (sign : Bool)
    → IsNumberText ds fs
    → create_of_string (signed_text sign (number_text ds fs))
      ≡ read_loop (number_text ds fs) sign uint128_0 0 false
start_of_text [] fs sign form = absurd (omega (arith, form.2))
start_of_text (d ∷ ds) fs false form =
    minus_start _ (omega (arith, length-number_text (d ∷ ds) fs, form.3))
start_of_text (d ∷ ds) [] true form =
    plain_start d ds (ground (arith, form.0)) (omega (arith, form.3))
start_of_text (d ∷ ds) (f ∷ fs) true form =
    plain_start d (ds ++ (46 ∷ f ∷ fs)) (ground (arith, form.0))
      (omega (arith, length-number_text (d ∷ ds) (f ∷ fs), form.3))

-- A text of at most 38 digits, with a minus or without, one digit or more and then none or a dot and
-- some, is read as the number that its digits are, with as many places as there are after the dot, in
-- normal form and cut off at the sixteenth place or before it.
pub create_of_string-number_text :
    (sign : Bool) (ds fs : Bytes)
    → IsNumberText ds fs
    → (n : SafeNumber) × (p : ℕ) × (create_of_string (signed_text sign (number_text ds fs))
        ≡ done n)
      × IsTruncated (valid_number sign (word (read_digits 10 0 (ds ++ fs))) (length fs)) n p
unfolding create
create_of_string-number_text sign ds fs form =
    let small = digits-lt ds fs form in
    let (n, p, run, truncated) =
      compress_number_lem (valid_number sign (word (read_digits 10 0 (ds ++ fs))) (length fs)) refl
        (word-IsUint128 _ small).0 in
    (
      n,
      p,
      start_of_text ds fs sign form ∙ read_text ds fs sign form.0 form.1 small ∙ run,
      truncated,
    )
