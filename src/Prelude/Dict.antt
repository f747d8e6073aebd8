-- ===== src/Prelude/Dict.antt =====
-- A map keyed by texts, as an association list: `std::collections::HashMap<String, V>`. Iteration
-- visits the entries in the order of the list; nothing is assumed of that order.
use Prim.Native.String.{String}
use mathlib.Core.Path.{◌≡◌}
use mathlib.Core.Option.{Option, none, some}
use mathlib.Core.List.{List, [], ◌∷◌}
use native.Mathlib.Omega.{arith}
use text.Mathlib.Text.{◌==◌}
use text.Mathlib.TextEquality.{eq_iff}
use integration_home_assista.Prelude.Tests.{if◌then◌else◌}

abbrev pub Dict {ℓ} : Type ℓ → Type ℓ
Dict V = List (String × V)

module _ {ℓ} {V : Type ℓ} where
  -- `remove`
  unfoldable pub erase : String → Dict V → Dict V
  erase key [] = []
  erase key (entry ∷ rest) =
      let left = erase key rest in if entry.0 == key then left else entry ∷ left

  -- A change through `get_mut`: nothing happens where the key is missing.
  unfoldable pub modify : String → (V → V) → Dict V → Dict V
  modify key f [] = []
  modify key f (entry ∷ rest) =
      if entry.0 == key then (entry.0, f entry.1) ∷ rest else entry ∷ modify key f rest

  -- `get`
  unfoldable pub lookup : String → Dict V → Option V
  lookup key [] = none
  lookup key (entry ∷ rest) = if entry.0 == key then some entry.1 else lookup key rest

  -- `insert`
  unfoldable pub insert : String → V → Dict V → Dict V
  insert key value [] = (key, value) ∷ []
  insert key value (entry ∷ rest) =
      if entry.0 == key then (key, value) ∷ rest else entry ∷ insert key value rest

  pub lookup-modify :
      (key other : String) (f : V → V) (map : Dict V)
      → lookup other (modify key f map) ≡ (
          if key == other
          then elim (lookup other map) [ none ↦ none | some value ↦ some (f value) ]
          else lookup other map)
  unfolding lookup modify
  lookup-modify key other f [] = ground arith
  lookup-modify key other f (entry ∷ rest) = ground (
    arith,
    lookup-modify key other f rest,
    eq_iff entry.0 other,
    eq_iff entry.0 key,
    eq_iff key other,
  )

  pub lookup-erase :
      (key other : String) (map : Dict V)
      → lookup other (erase key map) ≡ (if key == other then none else lookup other map)
  unfolding lookup erase
  lookup-erase key other [] = ground arith
  lookup-erase key other (entry ∷ rest) = ground (
    arith,
    lookup-erase key other rest,
    eq_iff entry.0 other,
    eq_iff entry.0 key,
    eq_iff key other,
  )

  pub erase-erase : (key : String) (map : Dict V) → erase key (erase key map) ≡ erase key map
  unfolding erase
  erase-erase key [] = ground arith
  erase-erase key (entry ∷ rest) = ground (arith, erase-erase key rest)
