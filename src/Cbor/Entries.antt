-- ===== src/Cbor/Entries.antt =====
-- `CborMapValue`, the `std::map` from strings to objects, on the entries of a map in key order.
use uvm.Base.{⊤, ◌≡◌, refl, arith, inl, inr, true, false, Option, none, some, [], ◌∷◌}
use uvm.Base.{if◌then◌else◌, Bool-cases}
use uvm.Base.Dict.{same, same_self, same→≡, same_trans, same-sym}
use uvm.Cbor.Value.{Bytes, CborObject, Entries, end, entry}
use uvm.Cbor.Builder.{key_lt}

-- `find`
unfoldable pub find : Bytes → Entries → Option CborObject
find k end = none
find k (entry j v es) = if same j k then some v else find k es

-- `allowed_data[k] = v`, in key order
unfoldable pub put : Bytes → CborObject → Entries → Entries
unfolding key_lt
put k v end = entry k v end
put k v (entry j w es) =
    if key_lt j k
    then entry j w (put k v es)
    else if key_lt k j
    then entry k v (entry j w es)
    else entry j v es

-- `erase`
unfoldable pub erase : Bytes → Entries → Entries
erase k end = end
erase k (entry j v es) = if same j k then es else entry j v (erase k es)

key_lt_irrefl : (k : Bytes) → key_lt k k ≡ false
unfolding key_lt
key_lt_irrefl [] = refl
key_lt_irrefl (b ∷ k) = ground (arith, key_lt_irrefl k)

key_lt-total : (j k : Bytes) → key_lt j k ≡ false → key_lt k j ≡ false → same j k ≡ true
unfolding key_lt same
key_lt-total [] [] e f = refl
key_lt-total [] (c ∷ k) e f = cc
key_lt-total (b ∷ j) [] e f = cc
key_lt-total (b ∷ j) (c ∷ k) e f = ground (arith, key_lt-total j k)

pub key_lt-not_same : (j k : Bytes) → key_lt j k ≡ true → same j k ≡ false
key_lt-not_same j k e = elim (Bool-cases (same j k)) [
  | inl s ↦ ground (arith, same→≡ j k s, key_lt_irrefl k)
  | inr s ↦ s
]

-- A key that is put is found, with its new value.
pub find-put_self : (k : Bytes) (v : CborObject) (es : Entries) → find k (put k v es) ≡ some v
unfolding find put
find-put_self k v end = ground (arith, same_self k)
find-put_self k v (entry j w es) =
    ground (arith, find-put_self k v es, key_lt-not_same j k, key_lt-total j k, same_self k)

-- What is found under the other keys stays.
pub find-put_ne :
    (j k : Bytes) (v : CborObject) (es : Entries)
    → same k j ≡ false
    → find j (put k v es) ≡ find j es
unfolding find put
find-put_ne j k v end h = ground arith
find-put_ne j k v (entry i w es) h =
    ground (arith, find-put_ne j k v es h, key_lt-total i k, same_trans i k j)

pub find-erase_ne :
    (j k : Bytes) (es : Entries) → same k j ≡ false → find j (erase k es) ≡ find j es
unfolding find erase
find-erase_ne j k end h = refl
find-erase_ne j k (entry i w es) h = ground (arith, find-erase_ne j k es h, same_trans i k j)

-- The keys are in their order, as those of a `std::map` are.
abbrev pub AllAfter : Bytes → Entries → Type 0
AllAfter k end = ⊤
AllAfter k (entry j v es) = (key_lt k j ≡ true) × AllAfter k es

abbrev pub AreSorted : Entries → Type 0
AreSorted end = ⊤
AreSorted (entry k v es) = AllAfter k es × AreSorted es

key_lt_trans : (i j k : Bytes) → key_lt i j ≡ true → key_lt j k ≡ true → key_lt i k ≡ true
unfolding key_lt
key_lt_trans [] [] k e f = cc
key_lt_trans (b ∷ i) [] k e f = cc
key_lt_trans i (c ∷ j) [] e f = cc
key_lt_trans [] (c ∷ j) (d ∷ k) e f = refl
key_lt_trans (b ∷ i) (c ∷ j) (d ∷ k) e f = ground (arith, key_lt_trans i j k)

AllAfter-below : (i j : Bytes) (es : Entries) → key_lt i j ≡ true → AllAfter j es → AllAfter i es
AllAfter-below i j end e h = tt
AllAfter-below i j (entry k v es) e h = (key_lt_trans i j k e h.0, AllAfter-below i j es e h.1)

pub find-AllAfter : (k : Bytes) (es : Entries) → AllAfter k es → find k es ≡ none
unfolding find
find-AllAfter k end h = refl
find-AllAfter k (entry j v es) h =
    ground (arith, find-AllAfter k es h.1, key_lt-not_same k j h.0, same-sym j k)

-- An entry that is put and erased is gone.
pub find-erase-put :
    (k : Bytes) (v : CborObject) (es : Entries)
    → AreSorted es
    → find k (erase k (put k v es)) ≡ none
unfolding find erase put
find-erase-put k v end h = ground (arith, same_self k)
find-erase-put k v (entry j w es) h = elim (Bool-cases (key_lt j k)) [
  | inl e ↦ ground (arith, e, key_lt-not_same j k e, find-erase-put k v es h.1)
  | inr e ↦ elim (Bool-cases (key_lt k j)) [
    | inl f ↦ ground (
      arith,
      e,
      f,
      same_self k,
      key_lt-not_same k j f,
      same-sym j k,
      find-AllAfter k es (AllAfter-below k j es f h.0),
    )
    | inr f ↦ ground (arith, e, f, key_lt-total j k e f, same→≡ j k, find-AllAfter j es h.0)
  ]
]

put-AllAfter :
    (i k : Bytes) (v : CborObject) (es : Entries)
    → key_lt i k ≡ true
    → AllAfter i es
    → AllAfter i (put k v es)
unfolding put
put-AllAfter i k v end e h = (e, tt)
put-AllAfter i k v (entry j w es) e h = ground (arith, put-AllAfter i k v es e h.1)

pub put-AreSorted :
    (k : Bytes) (v : CborObject) (es : Entries) → AreSorted es → AreSorted (put k v es)
unfolding put
put-AreSorted k v end h = (tt, tt)
put-AreSorted k v (entry j w es) h =
    ground (arith, put-AllAfter j k v es, put-AreSorted k v es h.1, AllAfter-below k j es)

erase-AllAfter : (i k : Bytes) (es : Entries) → AllAfter i es → AllAfter i (erase k es)
unfolding erase
erase-AllAfter i k end h = tt
erase-AllAfter i k (entry j w es) h = ground (arith, erase-AllAfter i k es h.1)

pub erase-AreSorted : (k : Bytes) (es : Entries) → AreSorted es → AreSorted (erase k es)
unfolding erase
erase-AreSorted k end h = tt
erase-AreSorted k (entry j w es) h = ground (arith, erase-AllAfter j k es, erase-AreSorted k es h.1)
