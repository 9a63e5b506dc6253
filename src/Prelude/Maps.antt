-- ===== src/Prelude/Maps.antt =====
-- A Go map as an association list with at most one entry for a key that `insert` wrote.
use mathlib.Core.Path.{◌≡◌, refl}
use mathlib.Core.Option.{Option, none, some}
use mathlib.Core.List.{List, [], ◌∷◌}
use native.Mathlib.Omega.{arith}
use external_dns.Prelude.Base.{if◌then◌else◌}
use external_dns.Prelude.Equality.{Comparable, ◌==◌, same_refl}

abbrev pub Map {ℓ κ} : Type ℓ → Type κ → Type (ℓ ⊔ κ)
Map K V = List (K × V)

module _ {ℓ κ} {Key : Type ℓ} {Value : Type κ} ⦃keys : Comparable Key⦄ where
  -- `m[key] = val`
  unfoldable pub insert : Key → Value → Map Key Value → Map Key Value
  insert key val [] = (key, val) ∷ []
  insert key val ((other, old) ∷ entries) =
      let rest = insert key val entries in
      if other == key then (key, val) ∷ entries else (other, old) ∷ rest

  -- `val, ok := m[key]`
  unfoldable pub lookup : Key → Map Key Value → Option Value
  lookup key [] = none
  lookup key ((other, val) ∷ entries) =
      let rest = lookup key entries in if other == key then some val else rest

  -- `delete(m, key)`
  unfoldable pub remove : Key → Map Key Value → Map Key Value
  remove key [] = []
  remove key ((other, val) ∷ entries) =
      let rest = remove key entries in if other == key then rest else (other, val) ∷ rest

  pub lookup-insert :
      (key wanted : Key) (val : Value) (entries : Map Key Value)
      → lookup wanted (insert key val entries)
        ≡ (if key == wanted then some val else lookup wanted entries)
  unfolding lookup insert
  lookup-insert key wanted val [] = refl
  lookup-insert key wanted val ((other, old) ∷ entries) = ground (
    arith,
    lookup-insert key wanted val entries,
    keys.equals_iff key wanted,
    keys.equals_iff other key,
    keys.equals_iff other wanted,
  )

  pub lookup-remove :
      (key wanted : Key) (entries : Map Key Value)
      → lookup wanted (remove key entries) ≡ (if key == wanted then none else lookup wanted entries)
  unfolding lookup remove
  lookup-remove key wanted [] = ground arith
  lookup-remove key wanted ((other, old) ∷ entries) = ground (
    arith,
    lookup-remove key wanted entries,
    keys.equals_iff key wanted,
    keys.equals_iff other key,
    keys.equals_iff other wanted,
  )

  pub lookup-insert_self :
      (key : Key) (val : Value) (entries : Map Key Value)
      → lookup key (insert key val entries) ≡ some val
  lookup-insert_self key val entries =
      ground (arith, lookup-insert key key val entries, same_refl key)
