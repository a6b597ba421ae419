-- ===== src/Base/Maps.antt =====
-- `QMap` and `QMultiMap` with text keys, as association lists.
use Prim.Native.String.{String}
use mathlib.Core.Path.{◌≡◌, refl}
use mathlib.Core.Bool.{Bool, true, false}
use mathlib.Core.Option.{Option, none, some}
use mathlib.Core.List.{List, [], ◌∷◌}
use native.Mathlib.Omega.{arith}
use text.Mathlib.Text.{◌==◌ as str_eq}
use text.Mathlib.TextEquality.{eq_iff}
use ioproxy.Base.Tests.{if◌then◌else◌}

module _ {ℓ} {V : Type ℓ} where
  -- `QMap::find` and `operator[]`.
  unfoldable pub lookup : String → List (String × V) → Option V
  lookup key [] = none
  lookup key ((name, value) ∷ rest) =
      let below = lookup key rest in if str_eq name key then some value else below

  -- `QMap::insert` replaces the value of a key that is there.
  unfoldable pub insert : String → V → List (String × V) → List (String × V)
  insert key new [] = (key, new) ∷ []
  insert key new ((name, value) ∷ rest) =
      let below = insert key new rest in
      if str_eq name key then (name, new) ∷ rest else (name, value) ∷ below

  -- A lookup after an insertion gives the new value at its key and is unchanged elsewhere.
  pub lookup-insert :
      (key other : String) (new : V) (entries : List (String × V))
      → lookup other (insert key new entries)
        ≡ (if str_eq key other then some new else lookup other entries)
  unfolding lookup insert
  lookup-insert key other new [] = refl
  lookup-insert key other new ((name, value) ∷ rest) = ground (
    arith,
    eq_iff name key,
    eq_iff key other,
    eq_iff name other,
    lookup-insert key other new rest,
  )

  -- `QMultiMap::insert` adds an entry; the newest of a key comes first.
  unfoldable pub insert_multi : String → V → List (String × V) → List (String × V)
  insert_multi k v m = (k, v) ∷ m

  -- `QMultiMap::values(key)`, from the most recently inserted to the least.
  unfoldable pub values : String → List (String × V) → List V
  values k [] = []
  values k ((j, v) ∷ m) = let rest = values k m in if str_eq j k then v ∷ rest else rest

  -- `contains`, and `constFind(key) != constEnd()`.
  unfoldable pub contains : String → List (String × V) → Bool
  contains k [] = false
  contains k ((j, v) ∷ m) = let rest = contains k m in if str_eq j k then true else rest

  -- A key is contained exactly if it has a value.
  pub contains-values :
      (k : String) (m : List (String × V))
      → contains k m ≡ elim (values k m) [ [] ↦ false | _ ∷ _ ↦ true ]
  unfolding values contains
  contains-values k [] = refl
  contains-values k ((j, v) ∷ m) = ground (arith, contains-values k m)
