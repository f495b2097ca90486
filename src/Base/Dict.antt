-- ===== src/Base/Dict.antt =====
-- A Go `map[string]V` as an association list. The order of the entries stands for the order in
-- which `range` visits them, which Go leaves open.
use Prim.Native.String.{String}
use mathlib.Core.Path.{◌≡◌, refl}
use mathlib.Core.Option.{Option, none, some}
use mathlib.Core.List.{List, [], ◌∷◌}
use native.Mathlib.Omega.{arith}
use text.Mathlib.TextEquality.{eq_iff}
use events_service.Base.Tests.{◌==◌, string_eq, if◌then◌else◌}

module _ {ℓ} {V : Type ℓ} where
  -- delete(m, key)
  unfoldable pub delete : (key : String) (m : List (String × V)) → List (String × V)
  delete key [] = []
  delete key ((k, v) ∷ rest) =
      let others = delete key rest in if k == key then others else (k, v) ∷ others

  -- m[key], with `none` for a missing key
  unfoldable pub lookup : (key : String) (m : List (String × V)) → Option V
  lookup key [] = none
  lookup key ((k, v) ∷ rest) = let later = lookup key rest in if k == key then some v else later

  -- m[key] = new
  unfoldable pub insert : (key : String) (new : V) (m : List (String × V)) → List (String × V)
  insert key new [] = (key, new) ∷ []
  insert key new ((k, v) ∷ rest) =
      let later = insert key new rest in if k == key then (key, new) ∷ rest else (k, v) ∷ later

  pub lookup-delete :
      (key other : String) (m : List (String × V))
      → lookup other (delete key m) ≡ (if key == other then none else lookup other m)
  unfolding lookup delete
  lookup-delete key other [] = ground arith
  lookup-delete key other ((k, v) ∷ rest) =
      ground (arith, eq_iff k other, eq_iff k key, eq_iff key other, lookup-delete key other rest)

  pub lookup-insert :
      (key other : String) (new : V) (m : List (String × V))
      → lookup other (insert key new m) ≡ (if key == other then some new else lookup other m)
  unfolding lookup insert
  lookup-insert key other new [] = refl
  lookup-insert key other new ((k, v) ∷ rest) =
      ground
        (arith, lookup-insert key other new rest, eq_iff k other, eq_iff key other, eq_iff k key)

-- One entry for each key, as in a Go map.
abbrev pub Unique {ℓ} : {V : Type ℓ} → List (String × V) → Type ℓ
Unique [] = Unit
Unique ((k, v) ∷ m) = (lookup k m ≡ none) × Unique m

pub insert-Unique {ℓ} :
    {V : Type ℓ} (k : String) (v : V) (m : List (String × V)) → Unique m → Unique (insert k v m)
unfolding lookup insert
insert-Unique k v [] u = (refl, tt)
insert-Unique k v ((j, w) ∷ m) u =
    ground (arith, eq_iff j k, eq_iff k j, insert-Unique k v m u.1, lookup-insert k j v m)
