-- ===== src/Prelude/Maps.antt =====
-- Go maps and directories as association lists: the first entry of a key counts.
use mathlib.Core.Path.{◌≡◌, refl}
use mathlib.Core.List.{List, [], ◌∷◌}
use mathlib.Core.Option.{Option, none, some}
use native.Mathlib.Omega.{arith}
use zarf_api.Prelude.Tests.{if◌then◌else◌}
use zarf_api.Prelude.Equality.{Eq, ◌==◌}

abbrev pub Map {ℓ κ} : Type ℓ → Type κ → Type (ℓ ⊔ κ)
Map K V = List (K × V)

module _ {ℓ κ} {K : Type ℓ} {V : Type κ} ⦃e : Eq K⦄ where
  unfoldable pub lookup : K → Map K V → Option V
  lookup key [] = none
  lookup key (entry ∷ m) = if entry.0 == key then some entry.1 else lookup key m

  -- `delete(m, key)`
  unfoldable pub delete : K → Map K V → Map K V
  delete key [] = []
  delete key (entry ∷ m) = let rest = delete key m in if entry.0 == key then rest else entry ∷ rest

  -- `m[key] = value`
  unfoldable pub insert : K → V → Map K V → Map K V
  insert key value [] = (key, value) ∷ []
  insert key value (entry ∷ m) =
      let rest = insert key value m in if entry.0 == key then (key, value) ∷ m else entry ∷ rest

  pub lookup-delete :
      (k j : K) (m : Map K V) → lookup j (delete k m) ≡ (if k == j then none else lookup j m)
  unfolding lookup delete
  lookup-delete k j [] = ground arith
  lookup-delete k j (entry ∷ m) =
      ground
        (arith, lookup-delete k j m, e.test_iff entry.0 k, e.test_iff entry.0 j, e.test_iff k j)

  pub lookup-insert :
      (set read : K) (value : V) (m : Map K V)
      → lookup read (insert set value m) ≡ (if set == read then some value else lookup read m)
  unfolding insert lookup
  lookup-insert set read value [] = refl
  lookup-insert set read value (entry ∷ m) = ground (
    arith,
    lookup-insert set read value m,
    e.test_iff entry.0 read,
    e.test_iff entry.0 set,
    e.test_iff set read,
  )
