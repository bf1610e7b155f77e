-- ===== src/Cbor/Output.antt =====
-- The buffers that the encoder writes to, of src/cborcpp/output_dynamic.cpp and
-- src/cborcpp/output_static.cpp. The bytes below `_offset` are kept as a list, whose length is the
-- offset; what the buffer holds above is not read. Sizes are `unsigned int`.
use uvm.Base.{ℕ, zero, suc, ◌+◌, ◌-◌, ◌*◌, ◌%◌, ◌^◌, ◌≤◌, ◌≡◌, refl, arith, inl, inr}
use uvm.Base.{[], ◌∷◌, ◌++◌, Option, none, some, length, length-append, if◌then◌else◌, ltb}
use uvm.Base.{Bool-cases, ltb→lt}
use uvm.Cbor.Value.{Bytes}

pub record Output : Type 0 where
  pub written : Bytes
  pub capacity : ℕ

-- `init`, and the constructor of `output_static`
unfoldable pub init : ℕ → Output
init initial_capacity = record { written = []; capacity = initial_capacity }

-- `output_dynamic::put_byte`
unfoldable pub put_byte : ℕ → Output → Output
put_byte value o =
    if ltb (length o.written) o.capacity
    then record o { written = o.written ++ (value ∷ []) }
    else record { written = o.written ++ (value ∷ []); capacity = o.capacity * 2 % 2 ^ 32 }

-- The loop of `output_dynamic::put_bytes`; `none` means that the fuel ran out.
unfoldable pub grow : ℕ → ℕ → ℕ → Option ℕ
grow zero needed capacity = if ltb capacity needed then none else some capacity
grow (suc fuel) needed capacity =
    let rest = grow fuel needed (capacity * 2 % 2 ^ 32) in
    if ltb capacity needed then rest else some capacity

-- `output_dynamic::put_bytes`, with as much fuel as bytes are needed.
unfoldable pub put_bytes : Bytes → Output → Option Output
unfolding grow
put_bytes data_bytes o =
    let needed = (length o.written + length data_bytes) % 2 ^ 32 in
    elim (grow needed needed o.capacity) [
      | none ↦ none
      | some capacity ↦ some (record { written = o.written ++ data_bytes; capacity = capacity })
    ]

-- `output_static::put_byte` and `put_bytes`; `none` is the exception.
unfoldable pub put_byte_static : ℕ → Output → Option Output
put_byte_static value o =
    if ltb (length o.written) o.capacity
    then some (record o { written = o.written ++ (value ∷ []) })
    else none

-- `_offset + size - 1` is 2 ^ 32 - 1 where both are 0.
unfoldable pub put_bytes_static : Bytes → Output → Option Output
put_bytes_static data_bytes o =
    if ltb ((length o.written + length data_bytes + (2 ^ 32 - 1)) % 2 ^ 32) o.capacity
    then some (record o { written = o.written ++ data_bytes })
    else none

-- What was written fits the buffer, and the buffer has room.
abbrev pub IsRoomy : Output → Type 0
IsRoomy o = (length o.written ≤ o.capacity) × (1 ≤ o.capacity)

grow_total :
    (fuel needed capacity : ℕ)
    → 1 ≤ capacity
    → needed ≤ 2 ^ 31
    → needed ≤ capacity + fuel
    → (c : ℕ) × (grow fuel needed capacity ≡ some c) × (needed ≤ c) × (1 ≤ c)
unfolding grow
grow_total zero needed capacity p q r = (capacity, ground arith, ground arith, p)
grow_total (suc fuel) needed capacity p q r = elim (Bool-cases (ltb capacity needed)) [
  | inl e ↦
      let wide : capacity * 2 % 2 ^ 32 ≡ capacity * 2 = ground (arith, ltb→lt capacity needed e) in
      let (c, eq, enough, p') =
        grow_total fuel needed (capacity * 2 % 2 ^ 32) (omega arith) q (omega arith) in
      (c, rw (e, grow) eq, enough, p')
  | inr e ↦ (capacity, rw (e, grow) refl, ground (arith, e), p)
]

-- On a roomy buffer, writing up to a total of 2 ^ 31 bytes ends: the bytes follow what was written,
-- and the buffer is roomy still.
pub put_bytes-IsRoomy :
    (data_bytes : Bytes) (o : Output)
    → IsRoomy o
    → length o.written + length data_bytes ≤ 2 ^ 31
    → (o' : Output) × (put_bytes data_bytes o ≡ some o')
      × (o'.written ≡ o.written ++ data_bytes)
      × IsRoomy o'
unfolding put_bytes
put_bytes-IsRoomy data_bytes o h small =
    let needed = (length o.written + length data_bytes) % 2 ^ 32 in
    let (c, e, enough, p) = grow_total needed needed o.capacity h.1 (omega arith) (omega arith) in
    let o' : Output = record { written = o.written ++ data_bytes; capacity = c } in
    (o', rw (e, put_bytes) refl, refl, (omega (arith, length-append o.written data_bytes), p))

-- A static buffer takes one byte or more, up to a total of 2 ^ 31, exactly when they fit.
pub put_bytes_static-fits :
    (data_bytes : Bytes) (o : Output)
    → 1 ≤ length data_bytes
    → length o.written + length data_bytes ≤ 2 ^ 31
    → put_bytes_static data_bytes o ≡ (
        if ltb o.capacity (length o.written + length data_bytes)
        then none
        else some (record o { written = o.written ++ data_bytes }))
unfolding put_bytes_static
put_bytes_static-fits data_bytes o p small = ground arith
