-- ===== src/Base/Dict.antt =====
-- Byte strings compared, and association lists keyed by them.
use Prim.Native.Nat.{ℕ}
use mathlib.Core.Path.{◌≡◌, refl}
use mathlib.Core.Logic.{inl, inr}
use mathlib.Core.Bool.{Bool, true, false}
use mathlib.Core.List.{List, [], ◌∷◌}
use mathlib.Core.Option.{Option, none, some}
use native.Mathlib.Omega.{arith}
use uvm.Base.Tests.{◌==◌, if◌then◌else◌, Bool-cases}

unfoldable pub same : List ℕ → List ℕ → Bool
same [] [] = true
same [] (c ∷ cs) = false
same (b ∷ bs) [] = false
same (b ∷ bs) (c ∷ cs) = if b == c then same bs cs else false

pub same_self : (bs : List ℕ) → same bs bs ≡ true
unfolding same
same_self [] = refl
same_self (b ∷ bs) = ground (arith, same_self bs)

pub same→≡ : (bs cs : List ℕ) → same bs cs ≡ true → bs ≡ cs
unfolding same
same→≡ [] [] e = refl
same→≡ [] (c ∷ cs) e = cc
same→≡ (b ∷ bs) [] e = cc
same→≡ (b ∷ bs) (c ∷ cs) e = ground (arith, same→≡ bs cs)

pub same_trans : (xs bs cs : List ℕ) → same xs bs ≡ true → same xs cs ≡ same bs cs
same_trans xs bs cs e = ground (arith, same→≡ xs bs e)

pub same-sym : (bs cs : List ℕ) → same bs cs ≡ same cs bs
unfolding same
same-sym [] [] = refl
same-sym [] (c ∷ cs) = refl
same-sym (b ∷ bs) [] = refl
same-sym (b ∷ bs) (c ∷ cs) = ground (arith, same-sym bs cs)

abbrev pub Dict {ℓ} : Type ℓ → Type ℓ
Dict V = List (List ℕ × V)

module _ {ℓ} {V : Type ℓ} where
  unfoldable pub lookup : List ℕ → Dict V → Option V
  lookup k [] = none
  lookup k ((j, v) ∷ d) = if same j k then some v else lookup k d

  unfoldable pub insert : List ℕ → V → Dict V → Dict V
  insert k v [] = (k, v) ∷ []
  insert k v ((j, w) ∷ d) = if same j k then (j, v) ∷ d else (j, w) ∷ insert k v d

  pub lookup-insert_self : (k : List ℕ) (v : V) (d : Dict V) → lookup k (insert k v d) ≡ some v
  unfolding lookup insert
  lookup-insert_self k v [] = ground (arith, same_self k)
  lookup-insert_self k v ((j, w) ∷ d) = elim (Bool-cases (same j k)) [
    | inl e ↦ ground (arith, e)
    | inr e ↦ ground (arith, e, lookup-insert_self k v d)
  ]

  pub lookup-insert_ne :
      (j k : List ℕ) (v : V) (d : Dict V) → same k j ≡ false → lookup j (insert k v d) ≡ lookup j d
  unfolding lookup insert
  lookup-insert_ne j k v [] h = ground arith
  lookup-insert_ne j k v ((i, w) ∷ d) h = elim (Bool-cases (same i k)) [
    | inl e ↦ ground (arith, e, same_trans i k j e)
    | inr e ↦ ground (arith, e, lookup-insert_ne j k v d h)
  ]
