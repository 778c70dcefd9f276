-- ===== src/Resolver/Effective/Collection.antt =====
-- crates/jman-resolver/src/effective.rs: `DependencyCollection`, a list of dependencies with the
-- index of each management key, and `replace_repository`.
pub mod Refinement
use jman.Base.{
  ℕ, zero, suc, ◌+◌, Text, text_eq, Option, none, some, List, [], ◌∷◌, ◌++◌, ◌==◌, if◌then◌else◌,
  length, lookup, ok, ◌>>=◌,
}
use jman.Resolver.Dependency.{Dependency, management_key}
use jman.Resolver.Pom.{Repository}
use jman.Resolver.Run.{Run, update_at}

pub record DependencyCollection : Type 0 where
  pub items : List Dependency
  pub indices : List (Text × ℕ)

-- `entry(key).or_insert(index)`
abbrev pub insert_first : Text → ℕ → Option ℕ → List (Text × ℕ) → List (Text × ℕ)
insert_first key index none indices = (key, index) ∷ indices
insert_first key index (some old) indices = indices

-- The loop of `DependencyCollection::new`, from an index on.
unfoldable pub index_items : ℕ → List Dependency → List (Text × ℕ) → List (Text × ℕ)
index_items index [] indices = indices
index_items index (d ∷ items) indices =
    index_items (suc index) items
      (insert_first (management_key d) index (lookup (management_key d) indices) indices)

-- `DependencyCollection::new`
unfoldable pub new : List Dependency → DependencyCollection
unfolding index_items lookup management_key
new items = record { items = items; indices = index_items 0 items [] }

abbrev pub push : Dependency → DependencyCollection → DependencyCollection
push d c = record {
  items = c.items ++ (d ∷ []);
  indices = (management_key d, length c.items) ∷ c.indices;
}

-- `insert_if_absent`
abbrev insert_found : Option ℕ → Dependency → DependencyCollection → DependencyCollection
insert_found none d c = push d c
insert_found (some index) d c = c

unfoldable pub insert_if_absent : DependencyCollection → Dependency → DependencyCollection
insert_if_absent c d = insert_found (lookup (management_key d) c.indices) d c

-- `replace`
abbrev replace_found : Option ℕ → Dependency → DependencyCollection → Run DependencyCollection
replace_found none d c = ok (push d c)
replace_found (some index) d c = do
  items ← update_at c.items index (λ _. d)
  ok (record c { items = items })

unfoldable pub replace : DependencyCollection → Dependency → Run DependencyCollection
unfolding update_at
replace c d = replace_found (lookup (management_key d) c.indices) d c

unfoldable pub insert_all : DependencyCollection → List Dependency → DependencyCollection
unfolding insert_if_absent
insert_all c [] = c
insert_all c (d ∷ more) = insert_all (insert_if_absent c d) more

unfoldable pub replace_all : DependencyCollection → List Dependency → Run DependencyCollection
unfolding replace
replace_all c [] = ok c
replace_all c (d ∷ more) = do next ← replace c d; replace_all next more

abbrev pub empty : DependencyCollection
empty = record { items = []; indices = [] }

-- `replace_repository`
unfoldable pub replace_repository : List Repository → Repository → List Repository
unfolding text_eq
replace_repository [] r = r ∷ []
replace_repository (item ∷ items) r =
    let rest = replace_repository items r in if item.id == r.id then r ∷ items else item ∷ rest
