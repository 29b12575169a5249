-- ===== src/Base/Maps.antt =====
-- Go's maps, as association lists: `m[k]`, `m[k] = v`, `delete(m, k)` and a copying loop.
use mathlib.Core.Path.{◌≡◌, refl}
use mathlib.Core.Option.{Option, none, some}
use mathlib.Core.List.{List, [], ◌∷◌}
use native.Mathlib.Omega.{arith}
use package.osha.Base.Tests.{HasEquality, ◌==◌, if◌then◌else◌}

abbrev pub Dict {ℓ κ} : Type ℓ → Type κ → Type (ℓ ⊔ κ)
Dict K V = List (K × V)

module _ {ℓ κ} {K : Type ℓ} {V : Type κ} ⦃e : HasEquality K⦄ where
  unfoldable pub keys : Dict K V → List K
  keys [] = []
  keys ((k, v) ∷ m) = k ∷ keys m

  unfoldable pub lookup : K → Dict K V → Option V
  lookup k [] = none
  lookup k ((j, v) ∷ m) = if j == k then some v else lookup k m

  unfoldable pub insert : K → V → Dict K V → Dict K V
  insert key new [] = (key, new) ∷ []
  insert key new (entry ∷ m) = if entry.0 == key then (key, new) ∷ m else entry ∷ insert key new m

  unfoldable pub delete : K → Dict K V → Dict K V
  delete k [] = []
  delete k ((j, w) ∷ m) = let rest = delete k m in if j == k then rest else (j, w) ∷ rest

  -- `for k, v := range m { clone[k] = v }`: Go leaves the order open, and this loop goes from the
  -- end of the list.
  unfoldable pub copy : Dict K V → Dict K V
  unfolding insert
  copy [] = []
  copy ((k, v) ∷ m) = insert k v (copy m)

  pub lookup-empty : (k : K) → lookup k [] ≡ none
  unfolding lookup
  lookup-empty k = refl

  pub lookup-insert :
      (key j : K) (new : V) (m : Dict K V)
      → lookup j (insert key new m) ≡ (if key == j then some new else lookup j m)
  unfolding insert lookup
  lookup-insert key j new [] = refl
  lookup-insert key j new ((i, old) ∷ m) =
      ground
        (arith, e.equals_iff key j, e.equals_iff i key, e.equals_iff i j, lookup-insert key j new m)

  pub lookup-delete :
      (k j : K) (m : Dict K V) → lookup j (delete k m) ≡ (if k == j then none else lookup j m)
  unfolding lookup delete
  lookup-delete k j [] = ground arith
  lookup-delete k j ((i, w) ∷ m) =
      ground (arith, e.equals_iff k j, e.equals_iff i k, e.equals_iff i j, lookup-delete k j m)

  lookup-cons :
      (k j : K) (v : V) (m : Dict K V)
      → lookup k ((j, v) ∷ m) ≡ (if j == k then some v else lookup k m)
  unfolding lookup
  lookup-cons k j v m = refl

  pub lookup-copy : (k : K) (m : Dict K V) → lookup k (copy m) ≡ lookup k m
  unfolding copy
  lookup-copy k [] = refl
  lookup-copy k ((j, v) ∷ m) = rw (lookup-insert, lookup-cons, lookup-copy k m)
