-- ===== src/Base/Strings/Sets.antt =====
-- Sets and dictionaries of texts: `HashSet` and `HashMap` by membership and lookup alone,
-- `BTreeSet` and `BTreeMap` as lists in increasing order.
use Prim.Native.Nat.{Ordering}
use mathlib.Core.Path.{◌≡◌, refl}
use mathlib.Core.Bool.{Bool, false, ◌||◌}
use mathlib.Core.List.{List, [], ◌∷◌, ◌++◌}
use mathlib.Core.Option.{Option, none, some}
use native.Mathlib.Omega.{arith}
use jman.Base.Tests.{Eq, ◌==◌, if◌then◌else◌}
use jman.Base.Strings.Equality.{Text, text_eq}
use jman.Base.Strings.Order.{text_compare, text_compare-eq, text_compare_self}

module _ {ℓ} {A : Type ℓ} ⦃e : Eq A⦄ where
  abbrev pub contains : List A → A → Bool
  contains [] a = false
  contains (x ∷ xs) a = x == a || contains xs a

  pub contains-append :
      (xs ys : List A) (a : A) → contains (xs ++ ys) a ≡ (contains xs a || contains ys a)
  contains-append [] ys a = refl
  contains-append (x ∷ xs) ys a = ground (arith, contains-append xs ys a)

-- `BTreeSet::insert`, less its flag, which is `not (contains set key)` before.
unfoldable pub set_insert : Text → List Text → List Text
set_insert k [] = k ∷ []
set_insert k (x ∷ xs) =
    let rest = set_insert k xs in
    elim (text_compare k x) [
      | Ordering.lt ↦ k ∷ x ∷ xs
      | Ordering.eq ↦ x ∷ xs
      | Ordering.gt ↦ x ∷ rest
    ]

pub contains-set_insert :
    (k j : Text) (xs : List Text) → contains (set_insert k xs) j ≡ (k == j || contains xs j)
unfolding set_insert
contains-set_insert k j [] = refl
contains-set_insert k j (x ∷ xs) = ground (arith, text_compare-eq k x, contains-set_insert k j xs)

module _ {ℓ} {V : Type ℓ} where
  unfoldable pub lookup : Text → List (Text × V) → Option V
  lookup k [] = none
  lookup k ((j, v) ∷ m) = if j == k then some v else lookup k m

  -- `BTreeMap::insert`
  unfoldable pub map_insert : Text → V → List (Text × V) → List (Text × V)
  map_insert k v [] = (k, v) ∷ []
  map_insert k v ((j, w) ∷ m) =
      let rest = map_insert k v m in
      elim (text_compare k j) [
        | Ordering.lt ↦ (k, v) ∷ (j, w) ∷ m
        | Ordering.eq ↦ (k, v) ∷ m
        | Ordering.gt ↦ (j, w) ∷ rest
      ]

  pub lookup-map_insert :
      (k j : Text) (v : V) (m : List (Text × V))
      → lookup j (map_insert k v m) ≡ (if k == j then some v else lookup j m)
  unfolding lookup map_insert
  lookup-map_insert k j v [] = refl
  lookup-map_insert k j v ((i, w) ∷ m) =
      ground (arith, text_compare-eq k i, text_compare_self k, lookup-map_insert k j v m)

  -- `HashMap::remove`
  unfoldable pub map_remove : Text → List (Text × V) → List (Text × V)
  map_remove k [] = []
  map_remove k ((j, w) ∷ m) = let rest = map_remove k m in if j == k then rest else (j, w) ∷ rest

  pub lookup-map_remove :
      (k j : Text) (m : List (Text × V))
      → lookup j (map_remove k m) ≡ (if k == j then none else lookup j m)
  unfolding lookup map_remove
  lookup-map_remove k j [] = ground arith
  lookup-map_remove k j ((i, w) ∷ m) = ground (arith, lookup-map_remove k j m)
