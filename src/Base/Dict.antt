-- ===== src/Base/Dict.antt =====
-- A Go map as an association list; the order of the list is the order of iteration.
use Prim.Native.Nat.{◌+◌, ◌≤◌, ◌<◌}
use mathlib.Core.Path.{◌≡◌, refl}
use mathlib.Core.Logic.{◌≢◌}
use mathlib.Core.List.{List, [], ◌∷◌}
use mathlib.Core.Option.{Option, none, some}
use native.Mathlib.Omega.{arith}
use neo4j_go_driver.Base.Tests.{if◌then◌else◌}
use neo4j_go_driver.Base.Lists.{length}
use neo4j_go_driver.Base.Eq.{Comparable, ◌==◌}

module _ {ℓ κ} {K : Type ℓ} {V : Type κ} ⦃e : Comparable K⦄ where
  -- `m[key]`, with `none` for a key that is not there.
  unfoldable pub lookup : K → List (K × V) → Option V
  lookup key [] = none
  lookup key ((name, value) ∷ more) =
      let later = lookup key more in if name == key then some value else later

  -- `m[key] = value`: the value of a key that is there is replaced in place.
  unfoldable pub insert : K → V → List (K × V) → List (K × V)
  insert key value [] = (key, value) ∷ []
  insert key value ((name, old) ∷ more) =
      let later = insert key value more in
      if name == key then (key, value) ∷ more else (name, old) ∷ later

  -- `delete(m, key)`
  unfoldable pub delete : K → List (K × V) → List (K × V)
  delete key [] = []
  delete key ((name, old) ∷ more) =
      let later = delete key more in if name == key then later else (name, old) ∷ later

  pub lookup-insert :
      (stored asked : K) (value : V) (entries : List (K × V))
      → lookup asked (insert stored value entries)
        ≡ (if stored == asked then some value else lookup asked entries)
  unfolding lookup insert
  lookup-insert stored asked value [] = refl
  lookup-insert stored asked value ((name, old) ∷ more) = ground (
    arith,
    lookup-insert stored asked value more,
    e.same_iff stored asked,
    e.same_iff name stored,
    e.same_iff name asked,
  )

  pub lookup-delete :
      (gone asked : K) (entries : List (K × V))
      → lookup asked (delete gone entries) ≡ (if gone == asked then none else lookup asked entries)
  unfolding lookup delete
  lookup-delete gone asked [] = ground arith
  lookup-delete gone asked ((name, old) ∷ more) = ground (
    arith,
    lookup-delete gone asked more,
    e.same_iff gone asked,
    e.same_iff name gone,
    e.same_iff name asked,
  )

  pub length-delete-le : (k : K) (m : List (K × V)) → length (delete k m) ≤ length m
  unfolding delete
  length-delete-le k [] = omega arith
  length-delete-le k ((i, w) ∷ m) = ground (arith, length-delete-le k m)

  pub length-insert-le : (k : K) (v : V) (m : List (K × V)) → length (insert k v m) ≤ length m + 1
  unfolding insert
  length-insert-le k v [] = omega arith
  length-insert-le k v ((i, w) ∷ m) = ground (arith, length-insert-le k v m)

  pub length-delete-lt :
      (k : K) (m : List (K × V)) → lookup k m ≢ none → length (delete k m) < length m
  unfolding lookup delete
  length-delete-lt k [] h = absurd (h refl)
  length-delete-lt k ((i, w) ∷ m) h = ground (arith, h, length-delete-lt k m, length-delete-le k m)
