-- ===== src/Safe/Number/Comparison.antt =====
-- The comparisons of src/safenumber/safenumber.cpp, `safe_number_eq` to `safe_number_lte`.
use uvm.Base.{ℕ, ◌-◌, Bool, true, false, not, ◌&&◌, ◌||◌, if◌then◌else◌, ltb, ◌==◌}
use uvm.Safe.Word.{Outcome, done, ◌>>=◌}
use uvm.Safe.Uint128
use uvm.Safe.Uint128.{SimpleUint128}
use uvm.Safe.Uint128.Multi.{multi_word}
use uvm.Safe.Uint128.Divmod.{divmod}
use uvm.Safe.Number.{SafeNumber, uint64_pow}
use uvm.Safe.Number.Arithmetic.{differ}

unfoldable pub eq : SafeNumber → SafeNumber → Bool
eq a b =
    if not a.valid || not b.valid
    then false
    else not (differ a.sign b.sign) && Uint128.eq a.x b.x && (a.e == b.e)

unfoldable pub ne : SafeNumber → SafeNumber → Bool
ne a b = if not a.valid || not b.valid then false else not (eq a b)

-- The end of `safe_number_gt`: the whole parts, then the rests brought to the same number of places.
unfoldable pub gt_parts :
    Bool → SimpleUint128 → SimpleUint128 → SimpleUint128 → SimpleUint128 → Bool
gt_parts sign a_whole b_whole a_rest b_rest =
    if Uint128.gt a_whole b_whole
    then sign
    else if Uint128.lt a_whole b_whole
    then not sign
    else if Uint128.eq a_rest b_rest
    then false
    else if Uint128.gt a_rest b_rest
    then sign
    else not sign

-- `extend_a_remaining`, to the places of the number with more of them
abbrev pub extend : SimpleUint128 → ℕ → ℕ → SimpleUint128
extend rest e e' = if ltb e e' then multi_word rest (uint64_pow 10 (e' - e)) else rest

unfoldable pub gt : SafeNumber → SafeNumber → Outcome Bool
gt a b =
    let compared = divmod a.x (Uint128.create 0 (uint64_pow 10 a.e)) >>= λ a_divmod.
    divmod b.x (Uint128.create 0 (uint64_pow 10 b.e)) >>= λ b_divmod. done (
      gt_parts a.sign a_divmod.div_result b_divmod.div_result (extend a_divmod.mod_result a.e b.e)
        (extend b_divmod.mod_result b.e a.e)) in
    if not a.valid || not b.valid
    then done false
    else if differ a.sign b.sign
    then done a.sign
    else compared

unfoldable pub gte : SafeNumber → SafeNumber → Outcome Bool
gte a b = if eq a b then done true else gt a b

unfoldable pub lt : SafeNumber → SafeNumber → Outcome Bool
lt a b = gt b a

unfoldable pub lte : SafeNumber → SafeNumber → Outcome Bool
lte a b = if eq a b then done true else lt a b
