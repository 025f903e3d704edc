-- ===== src/Prelude/Maps.antt =====
-- Go's maps with string keys, as association lists. A range over a map visits its entries in an
-- order that Go leaves open; here it is the order of the list.
use Prim.Native.String.{String}
use mathlib.Core.Path.{◌≡◌, refl}
use mathlib.Core.Option.{Option, none, some}
use mathlib.Core.List.{List, [], ◌∷◌, map}
use native.Mathlib.Omega.{arith}
use text.Mathlib.Text.{◌==◌}
use text.Mathlib.TextEquality.{eq_iff}
use text.Mathlib.TextPositions.{eq_refl}
use grnoti.Prelude.Tests.{if◌then◌else◌}

abbrev pub Map {ℓ} : Type ℓ → Type ℓ
Map V = List (String × V)

module _ {ℓ} {V : Type ℓ} where
  -- value, ok := m[key]
  unfoldable pub lookup : String → Map V → Option V
  lookup key [] = none
  lookup key ((first, value) ∷ rest) = if first == key then some value else lookup key rest

  -- delete(m, key)
  unfoldable pub delete : String → Map V → Map V
  delete key [] = []
  delete key ((first, value) ∷ rest) =
      if first == key then delete key rest else (first, value) ∷ delete key rest

  -- m[key] = new: an entry of the key is replaced where it stands.
  unfoldable pub insert : String → V → Map V → Map V
  insert key new [] = (key, new) ∷ []
  insert key new ((first, value) ∷ rest) =
      if first == key then (key, new) ∷ rest else (first, value) ∷ insert key new rest

  -- for _, value := range m
  abbrev pub values : Map V → List V
  values = map (λ e. e.1)

  pub lookup-delete :
      (key other : String) (m : Map V)
      → lookup other (delete key m) ≡ (if key == other then none else lookup other m)
  unfolding lookup delete
  lookup-delete key other [] = ground arith
  lookup-delete key other ((first, value) ∷ rest) =
      ground (
        arith,
        eq_iff key other,
        eq_iff first key,
        eq_iff first other,
        lookup-delete key other rest,
      )

  pub lookup-insert :
      (key other : String) (new : V) (m : Map V)
      → lookup other (insert key new m) ≡ (if key == other then some new else lookup other m)
  unfolding lookup insert
  lookup-insert key other new [] = refl
  lookup-insert key other new ((first, value) ∷ rest) = ground (
    arith,
    lookup-insert key other new rest,
    eq_iff first other,
    eq_iff first key,
    eq_iff key other,
  )

module _ {ℓ} {V : Type ℓ} where
  pub insert-insert :
      (key : String) (new old : V) (m : Map V)
      → insert key new (insert key old m) ≡ insert key new m
  unfolding insert
  insert-insert key new old [] = ground (arith, eq_refl key)
  insert-insert key new old ((first, value) ∷ rest) =
      ground (arith, eq_refl key, insert-insert key new old rest)

-- The map of the images of the values, each under its key.
module _ {ℓ κ} {V : Type ℓ} {W : Type κ} (f : V → W) where
  abbrev pub map_values : Map V → Map W
  map_values [] = []
  map_values ((key, value) ∷ rest) = (key, f value) ∷ map_values rest

  abbrev pub image : Option V → Option W
  image none = none
  image (some value) = some (f value)

  pub lookup-map_values :
      (key : String) (m : Map V) → lookup key (map_values m) ≡ image (lookup key m)
  unfolding lookup
  lookup-map_values key [] = refl
  lookup-map_values key ((first, value) ∷ rest) = ground (arith, lookup-map_values key rest)

  pub map_values-insert :
      (key : String) (new : V) (m : Map V)
      → map_values (insert key new m) ≡ insert key (f new) (map_values m)
  unfolding insert
  map_values-insert key new [] = refl
  map_values-insert key new ((first, value) ∷ rest) = ground (arith, map_values-insert key new rest)

  pub map_values-delete :
      (key : String) (m : Map V) → map_values (delete key m) ≡ delete key (map_values m)
  unfolding delete
  map_values-delete key [] = refl
  map_values-delete key ((first, value) ∷ rest) = ground (arith, map_values-delete key rest)

pub ruleset map_laws = (lookup-insert, lookup-delete)
