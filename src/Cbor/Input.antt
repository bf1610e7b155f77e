-- ===== src/Cbor/Input.antt =====
-- include/cborcpp/input.h and src/cborcpp/input.cpp: the cursor that the decoder reads through.
-- The buffer and the offset are kept as the bytes from the offset on, and as the number of bytes by
-- which `skip_bytes` has moved the offset past the end. `hi << 8 | lo` is `hi * 256 + lo` on bytes.
use uvm.Base.{ℕ, ◌+◌, ◌-◌, ◌*◌, ◌^◌, Bool, [], ◌∷◌, take, drop, length}
use uvm.Base.{
  if◌then◌else◌, ltb, leb, ◌%◌, ◌<◌, ◌≤◌, ◌≡◌, refl, true, arith, inl, inr, Bool-cases, take-length,
  length-take_le,
}
use uvm.Cbor.Value.{Bytes}

pub record Input : Type 0 where
  pub pending : Bytes
  pub overrun : ℕ

-- `input::input`, whose `int` takes a `size_t`: the size comes modulo 2 ^ 32, and from 2 ^ 31 on it is
-- negative, which leaves the offset past the end.
unfoldable pub input_of : Bytes → Input
input_of data_bytes =
    let size = length data_bytes % 2 ^ 32 in
    if ltb size (2 ^ 31)
    then record { pending = take size data_bytes; overrun = 0 }
    else record { pending = []; overrun = 2 ^ 32 - size }

pub input_of_small :
    (bs : Bytes) → length bs < 2 ^ 31 → input_of bs ≡ record { pending = bs; overrun = 0 }
unfolding input_of
input_of_small bs h =
    let same : length bs % 2 ^ 32 ≡ length bs = omega arith in
    let fits : ltb (length bs % 2 ^ 32) (2 ^ 31) ≡ true = ground arith in
    rw (fits, same, take-length bs, input_of) refl

pub input_of_le : (bs : Bytes) → length (input_of bs).pending ≤ length bs
unfolding input_of
input_of_le bs = elim (Bool-cases (ltb (length bs % 2 ^ 32) (2 ^ 31))) [
  | inl e ↦ rw (e) (length-take_le (length bs % 2 ^ 32) bs)
  | inr e ↦ rw (e) (omega arith)
]

-- `input::has_bytes`. The `int` count comes as its 32-bit pattern: from 2 ^ 31 on it is negative.
unfoldable pub has_bytes : ℕ → Input → Bool
has_bytes count i =
    if ltb count (2 ^ 31)
    then leb (count + i.overrun) (length i.pending)
    else leb i.overrun (length i.pending + (2 ^ 32 - count))

-- The byte at a distance from the offset. One past the end is read by no caller, and stands for 0.
abbrev pub peek : ℕ → Bytes → ℕ
peek n bs = elim (drop n bs) [ [] ↦ 0 | b ∷ _ ↦ b ]

abbrev pub advance : ℕ → Input → Input
advance n i = record { pending = drop n i.pending; overrun = i.overrun + (n - length i.pending) }

-- `input::get_byte`, `get_short`, `get_int` and `get_long`: big-endian numbers.
unfoldable pub get_byte : Input → ℕ × Input
get_byte i = (peek 0 i.pending, advance 1 i)

unfoldable pub get_short : Input → ℕ × Input
get_short i = (peek 0 i.pending * 256 + peek 1 i.pending, advance 2 i)

abbrev pub four_bytes : ℕ → Bytes → ℕ
four_bytes n bs =
    peek n bs * 2 ^ 24 + peek (n + 1) bs * 2 ^ 16 + peek (n + 2) bs * 2 ^ 8 + peek (n + 3) bs

unfoldable pub get_int : Input → ℕ × Input
get_int i = (four_bytes 0 i.pending, advance 4 i)

unfoldable pub get_long : Input → ℕ × Input
get_long i = (four_bytes 0 i.pending * 2 ^ 32 + four_bytes 4 i.pending, advance 8 i)

-- `input::get_bytes` and `input::skip_bytes`
unfoldable pub get_bytes : ℕ → Input → Bytes × Input
get_bytes n i = (take n i.pending, advance n i)

unfoldable pub skip_bytes : ℕ → Input → Input
skip_bytes n i = advance n i
