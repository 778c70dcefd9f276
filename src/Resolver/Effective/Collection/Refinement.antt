-- ===== src/Resolver/Effective/Collection/Refinement.antt =====
-- crates/jman-resolver/src/effective.rs: `DependencyCollection` as a map from management keys to
-- dependencies.
use jman.Base.{
  ℕ, zero, suc, ◌+◌, ◌≤◌, ◌<◌, Text, text_eq, Bool, true, false, Option, none, some, List, [], ◌∷◌,
  ◌++◌, ◌==◌, ◌&&◌, if◌then◌else◌, length, set, ok, lookup, arith, ◌≡◌, refl, sym, ◌∙◌,
  Option-cases, inl, inr,
}
use jman.Resolver.Run.{at_index, update_at}
use jman.Resolver.Dependency.{Dependency, management_key}
use jman.Resolver.Effective.Collection.{
  DependencyCollection, insert_first, index_items, new, push, empty, insert_if_absent, insert_all,
  replace, replace_all,
}

-- The place of the first item with the key, counted from a number on.
pub index_of : ℕ → Text → List Dependency → Option ℕ
index_of n key [] = none
index_of n key (d ∷ items) = if management_key d == key then some n else index_of (suc n) key items

-- The first item with the key: the map that a list of dependencies stands for.
pub find : Text → List Dependency → Option Dependency
find key [] = none
find key (d ∷ items) = if management_key d == key then some d else find key items

-- The indices are those of the first item of each key.
abbrev pub IsIndexed : DependencyCollection → Type 0
IsIndexed c = (key : Text) → lookup key c.indices ≡ index_of 0 key c.items

or_else : Option ℕ → Option ℕ → Option ℕ
or_else none o = o
or_else (some n) o = some n

index_items-lookup :
    (n : ℕ) (items : List Dependency) (indices : List (Text × ℕ)) (key : Text)
    → lookup key (index_items n items indices) ≡ or_else (lookup key indices) (index_of n key items)
unfolding index_items index_of or_else lookup
index_items-lookup n [] indices key = ground arith
index_items-lookup n (d ∷ items) indices key = ground (
  arith,
  index_items-lookup (suc n) items
      (insert_first (management_key d) n (lookup (management_key d) indices) indices) key,
)

index_of-append :
    (n : ℕ) (key : Text) (items : List Dependency) (d : Dependency)
    → index_of n key (items ++ (d ∷ []))
      ≡ or_else
          (index_of n key items)
          (if management_key d == key then some (n + length items) else none)
unfolding index_of or_else
index_of-append n key [] d = ground arith
index_of-append n key (x ∷ items) d = ground (arith, index_of-append (suc n) key items d)

find-append :
    (key : Text) (items : List Dependency) (d : Dependency)
    → find key (items ++ (d ∷ [])) ≡ (elim (find key items) [
      | none ↦ (if management_key d == key then some d else none)
      | some x ↦ some x
    ])
unfolding find
find-append key [] d = refl
find-append key (x ∷ items) d = ground (arith, find-append key items d)

pub index_of-find :
    (n : ℕ) (key : Text) (items : List Dependency)
    → index_of n key items ≡ none
    → find key items ≡ none
unfolding index_of find
index_of-find n key [] h = refl
index_of-find n key (d ∷ items) h = ground (arith, index_of-find (suc n) key items)

index_of-bound :
    (n : ℕ) (key : Text) (items : List Dependency) (i : ℕ)
    → index_of n key items ≡ some i
    → (n ≤ i) × (i < n + length items)
unfolding index_of
index_of-bound n key [] i h = cc
index_of-bound n key (d ∷ items) i h = ground (arith, index_of-bound (suc n) key items i)

abbrev pub is_none : Option Dependency → Bool
is_none none = true
is_none (some d) = false

find-of-index :
    (n : ℕ) (key : Text) (items : List Dependency)
    → find key items ≡ none
    → index_of n key items ≡ none
unfolding index_of find
find-of-index n key [] h = refl
find-of-index n key (d ∷ items) h = ground (arith, find-of-index (suc n) key items)

-- Writing an item of the same key at the first place of the key keeps all first places.
index_of-set :
    (n i : ℕ) (key : Text) (items : List Dependency) (d : Dependency)
    → index_of n (management_key d) items ≡ some (n + i)
    → index_of n key (set items i d) ≡ index_of n key items
unfolding index_of
index_of-set n i key [] d h = cc
index_of-set n zero key (x ∷ items) d h =
    ground (arith, index_of-bound (suc n) (management_key d) items (n + 0))
index_of-set n (suc i) key (x ∷ items) d h = ground (arith, index_of-set (suc n) i key items d)

find-set :
    (n i : ℕ) (key : Text) (items : List Dependency) (d : Dependency)
    → index_of n (management_key d) items ≡ some (n + i)
    → find key (set items i d) ≡ (if management_key d == key then some d else find key items)
unfolding index_of find
find-set n i key [] d h = cc
find-set n zero key (x ∷ items) d h =
    ground (arith, index_of-bound (suc n) (management_key d) items (n + 0))
find-set n (suc i) key (x ∷ items) d h = ground (arith, find-set (suc n) i key items d)

lookup-cons :
    (key j : Text) (n : ℕ) (m : List (Text × ℕ))
    → lookup key ((j, n) ∷ m) ≡ (if j == key then some n else lookup key m)
unfolding lookup
lookup-cons key j n m = refl

push-IsIndexed :
    (c : DependencyCollection) (d : Dependency)
    → IsIndexed c
    → lookup (management_key d) c.indices ≡ none
    → IsIndexed (push d c)
unfolding or_else
push-IsIndexed c d h e key = ground (
  arith,
  lookup-cons key (management_key d) (length c.items) c.indices,
  h key,
  h (management_key d),
  index_of-append 0 key c.items d,
)

-- A collection made of a list finds, for every key, the place of the first item that has it.
pub new-IsIndexed :
    (items : List Dependency) (key : Text) → lookup key (new items).indices ≡ index_of 0 key items
unfolding new or_else
new-IsIndexed items key = index_items-lookup 0 items [] key

update_at-set :
    (items : List Dependency) (i : ℕ) (d : Dependency)
    → i < length items
    → update_at items i (λ _. d) ≡ ok (set items i d)
unfolding update_at
update_at-set [] i d h = absurd (omega (arith, h))
update_at-set (x ∷ items) zero d h = refl
update_at-set (x ∷ items) (suc i) d h = rw (update_at-set items i d (omega (arith, h))) refl

-- The collection binds the key of the dependency to it, and every other key as before.
abbrev pub Binds : DependencyCollection → Dependency → DependencyCollection → Type 0
Binds c d after =
    (key : Text)
    → (lookup key after.indices ≡ index_of 0 key after.items)
      × (find key after.items ≡ (if management_key d == key then some d else find key c.items))

-- On a collection whose index is right, `replace` never indexes out of range, keeps the index
-- right, and binds the key of the dependency to it and no other.
pub replace-refines :
    (c : DependencyCollection) (d : Dependency)
    → IsIndexed c
    → (after : DependencyCollection) × (replace c d ≡ ok after) × Binds c d after
unfolding replace
replace-refines c d h = elim (Option-cases (lookup (management_key d) c.indices)) [
  | inl e ↦ (
    push d c,
    rw e refl,
    λ key. (
      push-IsIndexed c d h e key,
      ground (
        arith,
        find-append key c.items d,
        h (management_key d),
        index_of-find 0 (management_key d) c.items,
      ),
    ),
  )
  | inr (i, e) ↦
      let place = sym (h (management_key d)) ∙ e in
      (
        record c { items = set c.items i d },
        rw
            (
              e,
              update_at-set c.items i d
                  (omega (arith, index_of-bound 0 (management_key d) c.items i place)),
            )
            refl,
        λ key. (
          ground (arith, h key, place, index_of-set 0 i key c.items d),
          ground (arith, place, find-set 0 i key c.items d),
        ),
      )
]

-- `insert_if_absent` keeps the index right, and binds the key of the dependency to it only where
-- the key was bound to nothing.
pub insert_if_absent-refines :
    (c : DependencyCollection) (d : Dependency) (key : Text)
    → IsIndexed c
    → (lookup key (insert_if_absent c d).indices ≡ index_of 0 key (insert_if_absent c d).items)
      × (find key (insert_if_absent c d).items ≡ (
          if management_key d == key && is_none (find key c.items)
          then some d
          else find key c.items))
unfolding insert_if_absent
insert_if_absent-refines c d key h = elim (Option-cases (lookup (management_key d) c.indices)) [
  | inl e ↦ rw e (
    push-IsIndexed c d h e key,
    ground (
      arith,
      find-append key c.items d,
      h (management_key d),
      index_of-find 0 (management_key d) c.items,
    ),
  )
  | inr (i, e) ↦
      rw e (h key, ground (arith, h (management_key d), find-of-index 0 (management_key d) c.items))
]

-- The first place of a key holds the first item with the key.
pub at_index-of :
    (n i : ℕ) (key : Text) (items : List Dependency)
    → index_of n key items ≡ some (n + i)
    → (m : Dependency) × (at_index items i ≡ ok m) × (find key items ≡ some m)
unfolding index_of find at_index
at_index-of n i key [] h = cc
at_index-of n zero key (d ∷ items) h =
    (d, refl, ground (arith, index_of-bound (suc n) key items (n + 0)))
at_index-of n (suc i) key (d ∷ items) h =
    let (m, a, f) = at_index-of (suc n) i key items (ground arith) in (m, a, ground arith)

pub at_index-IsIndexed :
    (c : DependencyCollection) (key : Text) (i : ℕ)
    → IsIndexed c
    → lookup key c.indices ≡ some i
    → (m : Dependency) × (at_index c.items i ≡ ok m)
at_index-IsIndexed c key i h e =
    let (m, at, f) = at_index-of 0 i key c.items (ground (arith, h key)) in (m, at)

pub replace_all-IsIndexed :
    (c : DependencyCollection) (ds : List Dependency)
    → IsIndexed c
    → (after : DependencyCollection) × (replace_all c ds ≡ ok after) × IsIndexed after
unfolding replace_all
replace_all-IsIndexed c [] h = (c, refl, h)
replace_all-IsIndexed c (d ∷ ds) h =
    let (next, e, binds) = replace-refines c d h in
    let (after, f, k) = replace_all-IsIndexed next ds (λ key. (binds key).0) in
    (after, rw (e, f) refl, k)

pub insert_all-IsIndexed :
    (c : DependencyCollection) (ds : List Dependency) → IsIndexed c → IsIndexed (insert_all c ds)
unfolding insert_all
insert_all-IsIndexed c [] h = h
insert_all-IsIndexed c (d ∷ ds) h =
    insert_all-IsIndexed (insert_if_absent c d) ds (λ key. (insert_if_absent-refines c d key h).0)

pub empty-IsIndexed : IsIndexed empty
unfolding lookup index_of
empty-IsIndexed key = refl
