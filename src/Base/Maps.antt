-- ===== src/Base/Maps.antt =====
-- Go's maps with string keys, as association lists in an order of iteration. Go iterates in any
-- order, so a statement about a loop over a map is made for every list.
use mathlib.Core.Path.{◌≡◌, refl}
use mathlib.Core.Bool.{Bool, false, ◌||◌}
use mathlib.Core.Logic.{◌⊎◌, inl, inr}
use mathlib.Core.Option.{Option, none, some}
use mathlib.Core.List.{List, [], ◌∷◌}
use native.Mathlib.Omega.{arith}
use kube_stager.Base.Tests.{if◌then◌else◌, is_some, Option-cases, Bool-cases}
use kube_stager.Base.Bytes.{Text, text_eq, text_eq_iff}

abbrev pub Assoc {ℓ} : Type ℓ → Type ℓ
Assoc V = List (Text × V)

module _ {ℓ} {V : Type ℓ} where
  abbrev pub lookup : Text → Assoc V → Option V
  lookup k [] = none
  lookup k ((j, v) ∷ m) = if text_eq j k then some v else lookup k m

  -- m[k] = v
  unfoldable pub insert : Text → V → Assoc V → Assoc V
  insert k v [] = (k, v) ∷ []
  insert k v ((j, w) ∷ m) =
      let rest = insert k v m in if text_eq j k then (k, v) ∷ m else (j, w) ∷ rest

  -- delete(m, k)
  unfoldable pub remove : Text → Assoc V → Assoc V
  remove k [] = []
  remove k ((j, v) ∷ m) = let rest = remove k m in if text_eq j k then rest else (j, v) ∷ rest

  unfoldable pub has_key : Text → Assoc V → Bool
  has_key k m = is_some (lookup k m)

  unfoldable pub values : Assoc V → List V
  values [] = []
  values ((k, v) ∷ m) = v ∷ values m

  pub lookup-insert :
      (k j : Text) (v : V) (m : Assoc V)
      → lookup j (insert k v m) ≡ (if text_eq k j then some v else lookup j m)
  unfolding insert
  lookup-insert k j v [] = refl
  lookup-insert k j v ((i, w) ∷ m) =
      ground (arith, text_eq_iff k j, text_eq_iff i k, text_eq_iff i j, lookup-insert k j v m)

  pub lookup-remove :
      (k j : Text) (m : Assoc V)
      → lookup j (remove k m) ≡ (if text_eq k j then none else lookup j m)
  unfolding remove
  lookup-remove k j [] = ground arith
  lookup-remove k j ((i, w) ∷ m) =
      ground (arith, text_eq_iff k j, text_eq_iff i k, text_eq_iff i j, lookup-remove k j m)

  pub lookup-cases :
      (k : Text) (m : Assoc V) → (lookup k m ≡ none) ⊎ ((v : V) × (lookup k m ≡ some v))
  lookup-cases k m = Option-cases (lookup k m)

-- The first of two values that is there.
abbrev pub first_of {ℓ} : {A : Type ℓ} → Option A → Option A → Option A
first_of none other = other
first_of (some a) other = some a

-- No key occurs twice, as in any map of Go.
abbrev pub AreUnique {ℓ} : {V : Type ℓ} → Assoc V → Type 0
AreUnique [] = Unit
AreUnique ((k, _) ∷ m) = (has_key k m ≡ false) × AreUnique m

module _ {ℓ} {V : Type ℓ} where
  has_key-insert :
      (k j : Text) (v : V) (m : Assoc V) → has_key j (insert k v m) ≡ (text_eq k j || has_key j m)
  unfolding has_key
  has_key-insert k j v m = ground (arith, lookup-insert k j v m)

  has_key-remove : (k j : Text) (m : Assoc V) → has_key j m ≡ false → has_key j (remove k m) ≡ false
  unfolding has_key
  has_key-remove k j m h = ground (arith, lookup-remove k j m)

  pub insert-AreUnique : (k : Text) (v : V) (m : Assoc V) → AreUnique m → AreUnique (insert k v m)
  unfolding insert has_key
  insert-AreUnique k v [] h = (refl, tt)
  insert-AreUnique k v ((j, w) ∷ m) h = elim (Bool-cases (text_eq j k)) [
    | inl e ↦ rw e (ground (arith, text_eq_iff j k, h.0), h.1)
    | inr e ↦ rw e (
      ground (arith, has_key-insert k j v m, text_eq_iff k j, text_eq_iff j k, h.0),
      insert-AreUnique k v m h.1,
    )
  ]

  pub remove-AreUnique : (k : Text) (m : Assoc V) → AreUnique m → AreUnique (remove k m)
  unfolding remove
  remove-AreUnique k [] h = tt
  remove-AreUnique k ((j, w) ∷ m) h = elim (Bool-cases (text_eq j k)) [
    | inl e ↦ rw e (remove-AreUnique k m h.1)
    | inr e ↦ rw e (has_key-remove k j m h.0, remove-AreUnique k m h.1)
  ]

pub ruleset assoc_laws = (lookup-insert, lookup-remove)
