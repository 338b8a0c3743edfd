-- ===== src/Base/Map.antt =====
-- `std::map<std::string, V>`: a list of pairs in the order of the keys, with its operations.
use mathlib.Core.Path.{◌≡◌, refl}
use mathlib.Core.Option.{Option, none, some}
use mathlib.Core.List.{List, [], ◌∷◌}
use native.Mathlib.Omega.{arith}
use cs130capstoneproject.Base.Tests.{if◌then◌else◌}
use cs130capstoneproject.Base.Bytes.{Bytes, equal, equal_iff, less}

abbrev pub Map {ℓ} : Type ℓ → Type ℓ
Map V = List (Bytes × V)

module _ {ℓ} {V : Type ℓ} where
  -- m.find(k), m.at(k), m.count(k)
  unfoldable pub lookup : Bytes → Map V → Option V
  lookup k [] = none
  lookup k ((j, v) ∷ m) = if equal j k then some v else lookup k m

  -- m[k] = v
  unfoldable pub assign : Bytes → V → Map V → Map V
  assign k v [] = (k, v) ∷ []
  assign k v ((j, w) ∷ m) =
      let later = (j, w) ∷ assign k v m in
      if equal j k then (k, v) ∷ m else if less k j then (k, v) ∷ (j, w) ∷ m else later

  -- m.insert({k, v}), which leaves a value that is there
  unfoldable pub insert : Bytes → V → Map V → Map V
  insert k v m = elim (lookup k m) [ none ↦ assign k v m | some w ↦ m ]

  -- m.erase(k)
  unfoldable pub erase : Bytes → Map V → Map V
  erase k [] = []
  erase k ((j, v) ∷ m) = let rest = erase k m in if equal j k then rest else (j, v) ∷ rest

  pub lookup-assign :
      (k j : Bytes) (v : V) (m : Map V)
      → lookup j (assign k v m) ≡ (if equal k j then some v else lookup j m)
  unfolding lookup assign
  lookup-assign k j v [] = refl
  lookup-assign k j v ((i, w) ∷ m) =
      ground (arith, equal_iff k j, equal_iff i k, equal_iff i j, lookup-assign k j v m)

  pub lookup-insert :
      (k j : Bytes) (v : V) (m : Map V)
      → lookup j (insert k v m)
        ≡ elim (lookup j m) [ some w ↦ some w | none ↦ if equal k j then some v else none ]
  unfolding insert
  lookup-insert k j v m = ground (arith, lookup-assign k j v m, equal_iff k j)

  pub lookup-erase :
      (k j : Bytes) (m : Map V) → lookup j (erase k m) ≡ (if equal k j then none else lookup j m)
  unfolding lookup erase
  lookup-erase k j [] = ground arith
  lookup-erase k j ((i, v) ∷ m) =
      ground (arith, lookup-erase k j m, equal_iff i k, equal_iff i j, equal_iff k j)
