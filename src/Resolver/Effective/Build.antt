-- ===== src/Resolver/Effective/Build.antt =====
-- crates/jman-resolver/src/effective.rs: `build_remote` and `build_raw`. The builder's cache is
-- passed through the recursion; a run that fails ends the resolution, and with it the cache. The
-- imported models are built one after another, in the order of their declaration. What loads and
-- parses the XML of a POM is a parameter.
pub mod Stages
pub mod Ends
pub mod Termination
pub mod Memory
use jman.Base.{
  ℕ, zero, suc, Text, codes, text_eq, Option, none, some, List, [], ◌∷◌, ◌++◌, ok, err,
  if◌then◌else◌, contains, lookup, join,
}
use jman.Resolver.Error.{ResolverError, invalid_pom, model_cycle, model_context, Fallible}
use jman.Resolver.Run.{Run, failed, panicked, exhausted, lift}
use jman.Resolver.Coordinate.{Coordinate, display, pom}
use jman.Resolver.Pom.{RawPom, EffectivePom, Parent}
use jman.Resolver.Effective.Build.Stages.{
  Host, parent_coordinate, Identity, identity_of, Managed, split_management, assemble,
}

-- What the builder calls: the repository's POM texts and the XML parser.
pub record Source : Type 0 where
  pub load_pom : Coordinate → Fallible Text
  pub parse_pom : Text → Fallible RawPom
  pub host : Host

abbrev pub Cache : Type 0
Cache = List (Text × EffectivePom)

abbrev pub Builder : Type 0 → Type 0
Builder A = Cache → Run (A × Cache)

abbrev pub continue : {A B : Type 0} → Run (A × Cache) → (A → Builder B) → Run (B × Cache)
continue (ok (a, cache)) f = f a cache
continue (err e) f = err e

infixl 5 ◌>>=◌
abbrev pub ◌>>=◌ : {A B : Type 0} → Builder A → (A → Builder B) → Builder B
◌>>=◌ m f cache = continue (m cache) f

abbrev pub give : {A : Type 0} → Run A → Builder A
give (ok a) cache = ok (a, cache)
give (err e) cache = err e

-- The imports, one after another.
abbrev pub build_imports :
    (Coordinate → Builder EffectivePom) → List Coordinate → Builder (List EffectivePom)
build_imports remote [] = give (ok [])
build_imports remote (c ∷ imports) = do
  model ← remote c
  models ← build_imports remote imports
  give (ok (model ∷ models))

abbrev pub build_parent :
    (Coordinate → Builder EffectivePom) → Option Coordinate → Builder (Option EffectivePom)
build_parent remote none = give (ok none)
build_parent remote (some c) = do model ← remote c; give (ok (some model))

-- `build_raw`, with the call of `build_remote` under its stack as an argument.
unfoldable pub build_raw :
    Host → (Coordinate → Builder EffectivePom) → RawPom → Builder EffectivePom
build_raw host remote raw = do
  parent ← build_parent remote (parent_coordinate raw.properties raw.parent)
  id ← give (lift (identity_of host raw parent))
  managed ← give (lift (split_management id.properties raw.dependency_management))
  imported ← build_imports remote managed.imports
  give (assemble raw parent id managed imported)

-- `.map_err(…)`, which wraps an error of the program.
abbrev pub with_context : {A : Type 0} → Text → Run A → Run A
with_context key (ok a) = ok a
with_context key (err (failed e)) = err (failed (model_context key e))
with_context key (err panicked) = err panicked
with_context key (err exhausted) = err exhausted

abbrev pub in_context : {A : Type 0} → Text → Builder A → Builder A
in_context key m cache = with_context key (m cache)

-- `self.cache.lock().insert(key, model)`
unfoldable pub store : Text → EffectivePom → Builder EffectivePom
store key model cache = ok (model, (key, model) ∷ cache)

abbrev raw_parent : Option Parent → Option Coordinate
raw_parent none = none
raw_parent (some parent) = some (pom parent.group parent.artifact parent.version)

module _ (source : Source) where
  abbrev pub parse_loaded : Fallible Text → Fallible RawPom
  parse_loaded (err e) = err e
  parse_loaded (ok xml) = source.parse_pom xml

  abbrev pub load : Coordinate → Fallible RawPom
  load c = parse_loaded (source.load_pom c)

  -- Loading, building and remembering a model, with the call of `build_remote` under the longer
  -- stack as an argument.
  unfoldable pub build_fresh :
      (Coordinate → Builder EffectivePom) → Coordinate → Builder EffectivePom
  unfolding store
  build_fresh remote c = do
    raw ← give (lift (load c))
    model ← in_context (display c) (build_raw source.host remote raw)
    store (display c) model

  abbrev pub cycle : List Text → Text → ResolverError
  cycle stack key = model_cycle (join (codes " -> ") (stack ++ (key ∷ [])))

  abbrev pub build_uncached :
      (Coordinate → Builder EffectivePom) → List Text → Coordinate → Builder EffectivePom
  build_uncached remote stack c cache =
      if contains stack (display c)
      then err (failed (cycle stack (display c)))
      else build_fresh remote c cache

  abbrev pub build_cached :
      Option EffectivePom
      → (Coordinate → Builder EffectivePom)
      → List Text
      → Coordinate
      → Builder EffectivePom
  build_cached (some model) remote stack c cache = ok (model, cache)
  build_cached none remote stack c cache = build_uncached remote stack c cache

  -- `build_remote`, with fuel for the depth of parents and imports.
  unfoldable pub build_remote : ℕ → List Text → Coordinate → Builder EffectivePom
  build_remote zero stack c cache = err exhausted
  build_remote (suc fuel) stack c cache =
      build_cached (lookup (display c) cache) (build_remote fuel (stack ++ (display c ∷ []))) stack
        c cache

  -- `build_coordinate`
  unfoldable pub build_coordinate : ℕ → Coordinate → Builder EffectivePom
  unfolding build_remote
  build_coordinate fuel = build_remote fuel []

  -- `build_local`, on the text of a local POM.
  unfoldable pub build_local : ℕ → Text → Builder EffectivePom
  build_local fuel xml = do
    raw ← give (lift (source.parse_pom xml))
    build_raw source.host (build_remote fuel []) raw

  abbrev pub with_parent : Option Parent → EffectivePom → EffectivePom
  with_parent parent model = record model { parent = raw_parent parent }

  -- `build_precomputed`: the parent of the POM is not built but noted.
  unfoldable pub build_precomputed : ℕ → RawPom → Builder EffectivePom
  build_precomputed fuel raw = do
    model ← build_raw source.host (build_remote fuel []) (record raw { parent = none })
    give (ok (with_parent raw.parent model))

-- `remember`
unfoldable pub remember : EffectivePom → Cache → Cache
remember model cache = (display model.coordinate, model) ∷ cache
