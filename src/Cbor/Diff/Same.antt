-- ===== src/Cbor/Diff/Same.antt =====
-- `CborDiff::diff` of an object and itself.
use uvm.Base.{ℕ, suc, ⊤, ◌≡◌, refl, arith, none, some, ap}
use uvm.Base.Dict.{same_self}
use uvm.Cbor.Value.{Bytes, Scalar, null, undefined, bool, int, extra_int, bytes, string, float, tag}
use uvm.Cbor.Value.{
  extra_tag, CborObject, scalar, array, map, Items, nil, cons, Entries, end, entry,
}
use uvm.Cbor.Entries.{find, AllAfter, AreSorted, key_lt-not_same}
use uvm.Cbor.Diff.{
  diff_scalar, diff, diff_items, diff_entries, added_items, added_entries, array_result,
}

-- Every map in the object has its keys in order, each once, as a `std::map` has.
abbrev mutual
  pub IsKeyed : CborObject → Type 0
  IsKeyed (scalar s) = ⊤
  IsKeyed (array xs) = AreKeyed xs
  IsKeyed (map es) = AreSorted es × AreKeyedEntries es

  pub AreKeyed : Items → Type 0
  AreKeyed nil = ⊤
  AreKeyed (cons x xs) = IsKeyed x × AreKeyed xs

  pub AreKeyedEntries : Entries → Type 0
  AreKeyedEntries end = ⊤
  AreKeyedEntries (entry k v es) = IsKeyed v × AreKeyedEntries es

-- The entries of one map that all stand in another.
abbrev AreIn : Entries → Entries → Type 0
AreIn end b = ⊤
AreIn (entry k v a) b = (find k b ≡ some v) × AreIn a b

AreIn-entry :
    (a b : Entries) (k : Bytes) (v : CborObject) → AllAfter k a → AreIn a b → AreIn a (entry k v b)
unfolding find
AreIn-entry end b k v h i = tt
AreIn-entry (entry j w a) b k v h i =
    (ground (arith, key_lt-not_same k j h.0, i.0), AreIn-entry a b k v h.1 i.1)

AreIn-self : (a : Entries) → AreSorted a → AreIn a a
unfolding find
AreIn-self end h = tt
AreIn-self (entry k v a) h =
    (ground (arith, same_self k), AreIn-entry a a k v h.0 (AreIn-self a h.1))

added_entries-AreIn : (b a d : Entries) → AreIn b a → added_entries b a d ≡ d
unfolding added_entries
added_entries-AreIn end a d i = refl
added_entries-AreIn (entry k w b) a d i = rw (i.0, added_entries) (added_entries-AreIn b a d i.1)

module _ (double_text : ℕ → Bytes) where
  diff_scalar_self : (s : Scalar) → diff_scalar double_text s s ≡ none
  unfolding diff_scalar
  diff_scalar_self (string s) = rw same_self refl
  diff_scalar_self null = rw same_self refl
  diff_scalar_self undefined = rw same_self refl
  diff_scalar_self (bool b) = rw same_self refl
  diff_scalar_self (int i) = rw same_self refl
  diff_scalar_self (extra_int w p) = rw same_self refl
  diff_scalar_self (bytes bs) = rw same_self refl
  diff_scalar_self (float d) = rw same_self refl
  diff_scalar_self (tag t) = rw same_self refl
  diff_scalar_self (extra_tag t) = rw same_self refl

  mutual
    unfolding diff added_items

    object_self : (v : CborObject) → IsKeyed v → diff double_text v v ≡ none
    object_self (scalar s) h = diff_scalar_self s
    object_self (array xs) h = ap array_result (diff_items_self 0 xs h)
    object_self (map es) h =
        rw
          (
            diff_entries-AreIn es es end (AreIn-self es h.0) h.1,
            added_entries-AreIn es es end (AreIn-self es h.0),
          )
          refl

    diff_items_self : (i : ℕ) (xs : Items) → AreKeyed xs → diff_items double_text i xs xs ≡ nil
    diff_items_self i nil h = refl
    diff_items_self i (cons x xs) h = rw (object_self x h.0) (diff_items_self (suc i) xs h.1)

    diff_entries-AreIn :
        (a b d : Entries) → AreIn a b → AreKeyedEntries a → diff_entries double_text a b d ≡ d
    diff_entries-AreIn end b d i h = refl
    diff_entries-AreIn (entry k v a) b d i h =
        rw (i.0, object_self v h.0, diff_entries) (diff_entries-AreIn a b d i.1 h.1)

  -- An object whose maps have their keys in order, each once, has no difference to itself.
  pub diff_self : (v : CborObject) → IsKeyed v → diff double_text v v ≡ none
  diff_self v h = object_self v h
