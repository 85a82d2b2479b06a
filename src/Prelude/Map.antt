-- ===== src/Prelude/Map.antt =====
-- A Go map as an association list with one entry for each key. The order of the list stands for
-- the order in which `range` visits the entries, which Go leaves open.
use mathlib.Core.Path.{◌≡◌, refl, ◌∙◌}
use mathlib.Core.Bool.{false}
use mathlib.Core.List.{List, [], ◌∷◌}
use mathlib.Core.Option.{Option, none, some}
use native.Mathlib.Omega.{arith}
use crdmetrics.Prelude.Tests.{if◌then◌else◌}
use crdmetrics.Prelude.Keys.{Eq, ◌==◌, ==_iff}

abbrev pub Map {ℓ κ} : Type ℓ → Type κ → Type (ℓ ⊔ κ)
Map K V = List (K × V)

module _ {ℓ κ} {K : Type ℓ} {V : Type κ} ⦃e : Eq K⦄ where
  -- m[k], with the second result of the index expression
  unfoldable pub lookup : K → Map K V → Option V
  lookup k [] = none
  lookup k ((key, value) ∷ rest) = if key == k then some value else lookup k rest

  -- m[k] = v
  unfoldable pub insert : K → V → Map K V → Map K V
  insert k v [] = (k, v) ∷ []
  insert k v ((key, value) ∷ rest) =
      if key == k then (k, v) ∷ rest else (key, value) ∷ insert k v rest

  -- delete(m, k)
  unfoldable pub remove : K → Map K V → Map K V
  remove k [] = []
  remove k ((j, v) ∷ m) = let rest = remove k m in if j == k then rest else (j, v) ∷ rest

  pub lookup-insert :
      (k j : K) (v : V) (m : Map K V)
      → lookup j (insert k v m) ≡ (if k == j then some v else lookup j m)
  unfolding lookup insert
  lookup-insert k j v [] = refl
  lookup-insert k j v ((key, value) ∷ rest) =
      ground (arith, lookup-insert k j v rest, ==_iff key k, ==_iff key j, ==_iff k j)

  pub lookup-remove :
      (k j : K) (m : Map K V) → lookup j (remove k m) ≡ (if k == j then none else lookup j m)
  unfolding lookup remove
  lookup-remove k j [] = ground arith
  lookup-remove k j ((i, w) ∷ m) =
      ground (arith, ==_iff k j, ==_iff i k, ==_iff i j, lookup-remove k j m)

  pub lookup-insert_ne :
      (k j : K) (v : V) (m : Map K V) → (k == j) ≡ false → lookup j (insert k v m) ≡ lookup j m
  lookup-insert_ne k j v m h = lookup-insert k j v m ∙ rw h refl

  pub lookup-insert_self : (k : K) (v : V) (m : Map K V) → lookup k (insert k v m) ≡ some v
  lookup-insert_self k v m = lookup-insert k k v m ∙ rw ((==_iff k k).1 refl) refl

  pub lookup-remove_self : (k : K) (m : Map K V) → lookup k (remove k m) ≡ none
  lookup-remove_self k m = lookup-remove k k m ∙ rw ((==_iff k k).1 refl) refl

  pub lookup-remove_ne :
      (k j : K) (m : Map K V) → (k == j) ≡ false → lookup j (remove k m) ≡ lookup j m
  lookup-remove_ne k j m h = lookup-remove k j m ∙ rw h refl
