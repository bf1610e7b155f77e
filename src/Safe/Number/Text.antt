-- ===== src/Safe/Number/Text.antt =====
-- `safe_number_create` of a string and `safe_number_to_string` of src/safenumber/safenumber.cpp.
use uvm.Base.{ℕ, ◌+◌, ◌-◌, ◌%◌, ◌^◌, Bool, true, false, not, ◌&&◌, ◌||◌, if◌then◌else◌, ltb, ◌==◌}
use uvm.Base.{[], ◌∷◌, ◌++◌, length}
use uvm.Cbor.Value.{Bytes}
use uvm.Safe.Word.{Outcome, done, ◌>>=◌}
use uvm.Safe.Uint128
use uvm.Safe.Uint128.{SimpleUint128, uint128_0, uint128_10, add_word}
use uvm.Safe.Uint128.Multi.{multi}
use uvm.Safe.Uint128.Divmod.{divmod}
use uvm.Safe.Uint128.Printing
use uvm.Safe.Number.{SafeNumber, uint64_pow, create, create_invalid, compress_number}
use uvm.Safe.Number.Arithmetic.{is_zero}

-- "NaN"
abbrev pub nan_str : Bytes
nan_str = 78 ∷ 97 ∷ 78 ∷ []

abbrev same_text : Bytes → Bytes → Bool
same_text [] [] = true
same_text [] (c ∷ cs) = false
same_text (c ∷ cs) [] = false
same_text (c ∷ cs) (d ∷ ds) = (c == d) && same_text cs ds

-- `c - '0'` as the uint64_t parameter takes it; a char is signed, so from 128 on it stands for c - 256.
abbrev pub byte_digit : ℕ → ℕ
byte_digit c = if ltb c 128 then (c + 2 ^ 64 - 48) % 2 ^ 64 else (c + 2 ^ 64 - (256 + 48)) % 2 ^ 64

-- The loop over the characters after the sign; a second dot gives NaN.
unfoldable pub read_loop : Bytes → Bool → SimpleUint128 → ℕ → Bool → Outcome SafeNumber
read_loop [] sign x e after_dot = create sign x e
read_loop (c ∷ cs) sign x e after_dot =
    let next =
      read_loop cs sign (add_word (multi x uint128_10) (byte_digit c))
        (if after_dot then e + 1 else e) after_dot in
    let dotted = read_loop cs sign x e true in
    if c == 46 then if after_dot then done create_invalid else dotted else next

abbrev read_signed : Bytes → Outcome SafeNumber
read_signed [] = done create_invalid
read_signed (c ∷ cs) =
    if (c == 43) || (c == 45)
    then read_loop cs (not (c == 45)) uint128_0 0 false
    else read_loop (c ∷ cs) (not (c == 45)) uint128_0 0 false

unfoldable pub create_of_string : Bytes → Outcome SafeNumber
create_of_string str =
    if length str == 0
    then done create_invalid
    else if ltb 40 (length str)
    then done create_invalid
    else if same_text str nan_str
    then done create_invalid
    else read_signed str

-- The whole part, then a dot and the rest where there is one.
unfoldable pub decimal_text : SimpleUint128 → ℕ → Outcome Bytes
decimal_text x e = divmod x (Uint128.create 0 (uint64_pow 10 e)) >>= λ pq.
    Uint128.Printing.to_string pq.div_result 10 0 >>= λ whole.
    let decimals =
      Uint128.Printing.to_string pq.mod_result 10 e >>= λ decimal. done (whole ++ (46 ∷ decimal)) in
    if not (Uint128.is_zero pq.mod_result) then decimals else done whole

unfoldable pub to_string : SafeNumber → Outcome Bytes
to_string a = compress_number a >>= λ val.
    let text = decimal_text val.x val.e >>= λ t. done (if not val.sign then 45 ∷ t else t) in
    if not val.valid then done nan_str else if is_zero val then done (48 ∷ []) else text
