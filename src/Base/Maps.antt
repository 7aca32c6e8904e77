-- ===== src/Base/Maps.antt =====
-- A HashMap with texts for keys, as an association list: what `get`, `insert`, `extend` and `filter`
-- do to the value of each key.
use Prim.Native.String.{String}
use mathlib.Core.Path.{◌≡◌, refl}
use mathlib.Core.Bool.{Bool}
use mathlib.Core.Option.{Option, none, some}
use mathlib.Core.List.{List, [], ◌∷◌}
use native.Mathlib.Omega.{arith}
use text.Mathlib.Text.{◌==◌}
use text.Mathlib.TextEquality.{eq_iff}
use spraycc.Base.Tests.{if◌then◌else◌}

abbrev pub Map {ℓ} : Type ℓ → Type ℓ
Map V = List (String × V)

module _ {ℓ} {V : Type ℓ} where
  unfoldable pub lookup : String → Map V → Option V
  lookup key [] = none
  lookup key ((name, value) ∷ rest) = if name == key then some value else lookup key rest

  unfoldable pub insert : String → V → Map V → Map V
  insert key new [] = (key, new) ∷ []
  insert key new ((name, old) ∷ rest) =
      if name == key then (key, new) ∷ rest else (name, old) ∷ insert key new rest

  -- `m.extend(other)`: the entries of `other`, one after the other.
  unfoldable pub extend : Map V → Map V → Map V
  extend m [] = m
  extend m ((k, v) ∷ other) = extend (insert k v m) other

  -- `m.into_iter().filter(…).collect()`
  unfoldable pub retain : (V → Bool) → Map V → Map V
  retain p [] = []
  retain p ((k, v) ∷ m) = if p v then (k, v) ∷ retain p m else retain p m

  -- No key stands twice, as in every HashMap.
  abbrev pub DistinctKeys : Map V → Type ℓ
  DistinctKeys [] = Unit
  DistinctKeys ((k, _) ∷ m) = (lookup k m ≡ none) × DistinctKeys m

  abbrev pub or_else : Option V → Option V → Option V
  or_else none o = o
  or_else (some v) o = some v

  abbrev pub keep_if : (V → Bool) → Option V → Option V
  keep_if p none = none
  keep_if p (some v) = if p v then some v else none

  -- A read after an insertion, at the same key or another.
  pub lookup-insert :
      (key asked : String) (new : V) (m : Map V)
      → lookup asked (insert key new m) ≡ (if key == asked then some new else lookup asked m)
  unfolding insert lookup
  lookup-insert key asked new [] = refl
  lookup-insert key asked new ((name, old) ∷ rest) =
      let later = lookup-insert key asked new rest in
      ground (arith, later, eq_iff name key, eq_iff name asked, eq_iff key asked)

  pub insert-DistinctKeys :
      (k : String) (v : V) (m : Map V) → DistinctKeys m → DistinctKeys (insert k v m)
  unfolding insert lookup
  insert-DistinctKeys k v [] d = (refl, tt)
  insert-DistinctKeys k v ((i, w) ∷ m) (fresh, d) =
      ground (arith, eq_iff i k, lookup-insert k i v m, eq_iff k i, insert-DistinctKeys k v m d)

  pub extend-DistinctKeys : (m other : Map V) → DistinctKeys m → DistinctKeys (extend m other)
  unfolding extend
  extend-DistinctKeys m [] d = d
  extend-DistinctKeys m ((k, v) ∷ other) d =
      extend-DistinctKeys (insert k v m) other (insert-DistinctKeys k v m d)

  pub lookup-extend :
      (j : String) (m other : Map V)
      → DistinctKeys other
      → lookup j (extend m other) ≡ or_else (lookup j other) (lookup j m)
  unfolding extend lookup
  lookup-extend j m [] d = refl
  lookup-extend j m ((k, v) ∷ other) (fresh, d) =
      ground (arith, eq_iff k j, lookup-extend j (insert k v m) other d, lookup-insert k j v m)

  lookup-retain-none :
      (p : V → Bool) (k : String) (m : Map V) → lookup k m ≡ none → lookup k (retain p m) ≡ none
  unfolding lookup retain
  lookup-retain-none p k [] h = refl
  lookup-retain-none p k ((j, v) ∷ m) h = ground (arith, eq_iff j k, lookup-retain-none p k m)

  pub retain-DistinctKeys : (p : V → Bool) (m : Map V) → DistinctKeys m → DistinctKeys (retain p m)
  unfolding retain
  retain-DistinctKeys p [] d = tt
  retain-DistinctKeys p ((k, v) ∷ m) (fresh, d) =
      ground (arith, retain-DistinctKeys p m d, lookup-retain-none p k m fresh)

  pub lookup-retain :
      (p : V → Bool) (k : String) (m : Map V)
      → DistinctKeys m
      → lookup k (retain p m) ≡ keep_if p (lookup k m)
  unfolding retain lookup
  lookup-retain p k [] d = refl
  lookup-retain p k ((j, v) ∷ m) (fresh, d) =
      ground (arith, eq_iff j k, lookup-retain p k m d, lookup-retain-none p k m)
