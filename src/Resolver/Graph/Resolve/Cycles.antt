-- ===== src/Resolver/Graph/Resolve/Cycles.antt =====
-- crates/jman-resolver/src/graph.rs: the loop of `resolve_in_workspace` on coordinates that relocate
-- to each other.
use jman.Base.{
  ℕ, zero, suc, text_eq, false, some, List, ◌∷◌, ok, err, ◌>>=◌, ◌≡◌, refl, ap, ◌∙◌, sym,
}
use jman.Resolver.Run.{exhausted}
use jman.Resolver.Coordinate.{Coordinate, pom}
use jman.Resolver.Dependency.{coordinate}
use jman.Resolver.Pom.{EffectivePom, MavenProject}
use jman.Resolver.Graph.Types.{Candidate}
use jman.Resolver.Graph.Resolve.{
  Environment, ResolveState, is_excluded, moved, relocate, visit, resolve_loop,
}

-- The model of `x` is built and relocates it to `y`, which is another coordinate.
pub record Relocates (env : Environment) (x y : Coordinate) : Type 0 where
  pub model : EffectivePom
  pub built : env.build_coordinate (pom x.group x.artifact x.version) ≡ ok model
  pub target : model.relocation ≡ some y
  pub differs : moved x (some y) ≡ some y

-- A candidate for `x` that is not excluded by its parents.
pub record IsCandidateFor (c : Candidate) (x : Coordinate) : Type 0 where
  pub group : c.dependency.group ≡ x.group
  pub artifact : c.dependency.artifact ≡ x.artifact
  pub version : c.dependency.version ≡ some x.version
  pub free : is_excluded c ≡ false

module _ (env : Environment) (project : EffectivePom) (workspace : List MavenProject) where
  visit-Relocates :
      (c : Candidate) (x y : Coordinate) (s : ResolveState)
      → Relocates env x y
      → IsCandidateFor c x
      → visit env project workspace c s ≡ ok (record s { queue = relocate c y ∷ s.queue })
  unfolding visit moved coordinate
  visit-Relocates c x y s r i =
      rw (i.free, i.version, i.group, i.artifact, r.built, r.target, r.differs)

  relocate-IsCandidateFor :
      (c : Candidate) (y : Coordinate)
      → is_excluded (relocate c y) ≡ false
      → IsCandidateFor (relocate c y) y
  unfolding relocate
  relocate-IsCandidateFor c y h = record { group = refl; artifact = refl; version = refl; free = h }

  -- Relocated there and back, a candidate is not excluded if it was not.
  is_excluded-relocate :
      (c : Candidate) (x y : Coordinate)
      → IsCandidateFor c x
      → is_excluded (relocate (relocate c y) x) ≡ false
  unfolding relocate
  is_excluded-relocate c x y i = rw (sym i.group, sym i.artifact, sym i.version) i.free

  -- Two coordinates that relocate to each other are followed for ever: with a candidate for one of
  -- them in front of the queue that is excluded under neither, no number of rounds is enough.
  pub resolve_loop-Relocates :
      (fuel : ℕ) (x y : Coordinate) (c : Candidate) (queue : List Candidate) (s : ResolveState)
      → Relocates env x y
      → Relocates env y x
      → IsCandidateFor c x
      → is_excluded (relocate c y) ≡ false
      → resolve_loop env project workspace fuel (record s { queue = c ∷ queue }) ≡ err exhausted
  unfolding resolve_loop
  resolve_loop-Relocates zero x y c queue s there back i h = refl
  resolve_loop-Relocates (suc fuel) x y c queue s there back i h =
      ap (λ r. r >>= resolve_loop env project workspace fuel)
        (visit-Relocates c x y (record s { queue = queue }) there i)
      ∙ resolve_loop-Relocates fuel y x (relocate c y) queue s back there
          (relocate-IsCandidateFor c y h) (is_excluded-relocate c x y i)
