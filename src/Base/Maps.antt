-- ===== src/Base/Maps.antt =====
-- JavaScript `Map`s and plain objects with string keys, as association lists in insertion order.
use Prim.Native.String.{String}
use mathlib.Core.Path.{◌≡◌, refl, ◌∙◌, subst}
use mathlib.Core.Logic.{inl, inr}
use mathlib.Core.Bool.{false}
use mathlib.Core.Option.{Option, none, some}
use mathlib.Core.List.{List, [], ◌∷◌}
use native.Mathlib.Omega.{arith}
use text.Mathlib.Text.{◌==◌}
use text.Mathlib.TextEquality.{eq_iff}
use workspace_os.Base.Tests.{if◌then◌else◌, Bool-cases, Option-cases}
use workspace_os.Base.Sets.{has, IsDistinct}

module _ {ℓ} {V : Type ℓ} where
  -- The names under which something is stored, in the order of the entries.
  abbrev pub keys : List (String × V) → List String
  keys [] = []
  keys ((name, value) ∷ more) = name ∷ keys more

  -- `map.get(key)`, `object[key]` for an own property
  unfoldable pub lookup : String → List (String × V) → Option V
  lookup key [] = none
  lookup key ((name, value) ∷ more) =
      let later = lookup key more in if name == key then some value else later

  pub lookup_fresh :
      (key : String) (entries : List (String × V))
      → has (keys entries) key ≡ false
      → lookup key entries ≡ none
  unfolding lookup has
  lookup_fresh key [] h = refl
  lookup_fresh key ((name, value) ∷ more) h = ground (arith, eq_iff name key, lookup_fresh key more)

  -- `map.set(key, value)`: an entry that is there already keeps its place
  unfoldable pub insert : String → V → List (String × V) → List (String × V)
  insert key value [] = (key, value) ∷ []
  insert key value ((name, old) ∷ more) =
      let later = insert key value more in
      if name == key then (name, value) ∷ more else (name, old) ∷ later

  insert_all : List (String × V) → List (String × V) → List (String × V)
  insert_all entries [] = entries
  insert_all entries ((key, value) ∷ more) = insert_all (insert key value entries) more

  -- `new Map(pairs)`: a later pair replaces an earlier one with its key
  unfoldable pub map_of : List (String × V) → List (String × V)
  unfolding insert_all insert
  map_of pairs = insert_all [] pairs

  pub lookup-insert :
      (key wanted : String) (value : V) (entries : List (String × V))
      → lookup wanted (insert key value entries)
        ≡ (if key == wanted then some value else lookup wanted entries)
  unfolding insert lookup
  lookup-insert key wanted value [] = refl
  lookup-insert key wanted value ((name, old) ∷ more) = ground (
    arith,
    lookup-insert key wanted value more,
    eq_iff name key,
    eq_iff name wanted,
    eq_iff key wanted,
  )

  abbrev first_of_two : Option V → Option V → Option V
  first_of_two none o = o
  first_of_two (some v) o = some v

  lookup-insert_all :
      (j : String) (m pairs : List (String × V))
      → IsDistinct (keys pairs)
      → lookup j (insert_all m pairs) ≡ first_of_two (lookup j pairs) (lookup j m)
  unfolding lookup insert_all
  lookup-insert_all j m [] d = refl
  lookup-insert_all j m ((k, v) ∷ more) (fresh, d) = elim (Bool-cases (k == j)) [
    | inl same ↦
        lookup-insert_all j (insert k v m) more d
        ∙ rw (
          lookup-insert k j v m,
          lookup_fresh j more (subst (λ x. has (keys more) x ≡ false) ((eq_iff k j).0 same) fresh),
          same,
        )
    | inr other ↦ lookup-insert_all j (insert k v m) more d ∙ rw (lookup-insert k j v m, other)
  ]

  -- Where no key is repeated, the map has the pairs that it was made from.
  pub lookup-map_of :
      (j : String) (pairs : List (String × V))
      → IsDistinct (keys pairs)
      → lookup j (map_of pairs) ≡ lookup j pairs
  unfolding map_of lookup
  lookup-map_of j pairs d =
      lookup-insert_all j [] pairs d
      ∙ elim (Option-cases (lookup j pairs)) [ inl e ↦ rw e | inr (v, e) ↦ rw e ]
