-- ===== src/Resolver/Graph/Resolve/Invariant.antt =====
-- crates/jman-resolver/src/graph.rs: the invariant of the resolution loop, and its parts.
use jman.Base.{
  ltb, true, all_of, all_of-append, ℕ, suc, ◌+◌, ◌≤◌, ◌<◌, Text, text_eq, Option, none, some, List,
  [], ◌∷◌, ◌++◌, arith, ◌≡◌, length, lookup,
}
use jman.Resolver.Dependency.{Dependency}
use jman.Resolver.Graph.Types.{Candidate}
use jman.Resolver.Graph.Candidates.{children, child_of}
use jman.Resolver.Graph.Packages.Edges.{Origin, origins, IsIndex}
use jman.Resolver.Coordinate.{Coordinate}
use jman.Resolver.Pom.{MavenProject}
use jman.Resolver.Graph.Resolve.{ResolveState, Environment, schedule_artifact}

-- The selected keys are distinct, and the newest of `n` names package `n - 1`, and so on down.
abbrev pub Indexed : List (Text × ℕ) → ℕ → Type 0
Indexed [] n = n ≡ 0
Indexed ((k, i) ∷ m) n = (n ≡ suc i) × (lookup k m ≡ none) × Indexed m i

abbrev pub ParentsKnown : List Candidate → ℕ → Type 0
ParentsKnown [] n = Unit
ParentsKnown (c ∷ queue) n = IsIndex c.parent n × ParentsKnown queue n

-- Every package was selected through a package that stands before it.
abbrev pub ParentsBelow : ℕ → List Origin → Type 0
ParentsBelow n [] = Unit
ParentsBelow n (o ∷ os) = IsIndex o.1 n × ParentsBelow (suc n) os

-- Every download is for a package of the first `n`.
abbrev pub AllBelow {ℓ} : {A : Type ℓ} → List (ℕ × A) → ℕ → Type 0
AllBelow ds n = all_of (λ d. ltb d.0 n) ds ≡ true

pub record IsValid (s : ResolveState) : Type 0 where
  pub queue_known : ParentsKnown s.queue (length s.packages)
  pub indexed : Indexed s.selected (length s.packages)
  pub parents_below : ParentsBelow 0 (origins s.packages)
  pub downloads_known : AllBelow s.downloads (length s.packages)

-- A later state has all packages of an earlier one, in their places, with their coordinates and
-- selecting parents, and the keys that were selected still name them.
pub record IsLater (s t : ResolveState) : Type 0 where
  pub more : List Origin
  pub grown : origins t.packages ≡ origins s.packages ++ more
  pub kept : (key : Text) (i : ℕ) → lookup key s.selected ≡ some i → lookup key t.selected ≡ some i

pub Indexed-lookup :
    (m : List (Text × ℕ)) (n : ℕ) (k : Text) (i : ℕ) → Indexed m n → lookup k m ≡ some i → i < n
unfolding lookup
Indexed-lookup [] n k i h e = cc
Indexed-lookup ((j, a) ∷ m) n k i h e = ground (arith, Indexed-lookup m a k i h.2)

pub IsIndex-mono : (p : Option ℕ) (n m : ℕ) → n ≤ m → IsIndex p n → IsIndex p m
IsIndex-mono none n m le h = tt
IsIndex-mono (some i) n m le h = omega arith

pub ParentsKnown-mono :
    (queue : List Candidate) (n m : ℕ) → n ≤ m → ParentsKnown queue n → ParentsKnown queue m
ParentsKnown-mono [] n m le h = tt
ParentsKnown-mono (c ∷ queue) n m le h =
    (IsIndex-mono c.parent n m le h.0, ParentsKnown-mono queue n m le h.1)

pub append-ParentsKnown :
    (queue more : List Candidate) (n : ℕ)
    → ParentsKnown queue n
    → ParentsKnown more n
    → ParentsKnown (queue ++ more) n
append-ParentsKnown [] more n h k = k
append-ParentsKnown (c ∷ queue) more n h k = (h.0, append-ParentsKnown queue more n h.1 k)

child_of-ParentsKnown :
    (c : Candidate) (p : ℕ) (management : List Dependency) (d : Dependency) (n : ℕ)
    → p < n
    → ParentsKnown (child_of c p management d) n
child_of-ParentsKnown c p management d n h = ground arith

pub children-ParentsKnown :
    (c : Candidate) (p : ℕ) (management ds : List Dependency) (n : ℕ)
    → p < n
    → ParentsKnown (children c p management ds) n
unfolding children
children-ParentsKnown c p management [] n h = tt
children-ParentsKnown c p management (d ∷ ds) n h =
    append-ParentsKnown (child_of c p management d) _ n (child_of-ParentsKnown c p management d n h)
      (children-ParentsKnown c p management ds n h)

pub append-ParentsBelow :
    (n : ℕ) (os : List Origin) (o : Origin)
    → ParentsBelow n os
    → IsIndex o.1 (n + length os)
    → ParentsBelow n (os ++ (o ∷ []))
append-ParentsBelow n [] o h k = (IsIndex-mono o.1 _ _ (omega arith) k, tt)
append-ParentsBelow n (x ∷ os) o h k =
    (h.0, append-ParentsBelow (suc n) os o h.1 (IsIndex-mono o.1 _ _ (omega arith) k))

pub AllBelow-mono {ℓ} :
    {A : Type ℓ} (ds : List (ℕ × A)) (n m : ℕ) → n ≤ m → AllBelow ds n → AllBelow ds m
AllBelow-mono [] n m le h = h
AllBelow-mono (d ∷ ds) n m le h = ground (arith, AllBelow-mono ds n m)

pub schedule_artifact-AllBelow :
    (env : Environment) (c : Coordinate) (n : ℕ) (m : Option MavenProject)
    (ds : List (ℕ × Coordinate))
    → AllBelow ds n
    → AllBelow (schedule_artifact env c n m ds) (suc n)
schedule_artifact-AllBelow env c n (some m) ds h = AllBelow-mono ds n (suc n) (omega arith) h
schedule_artifact-AllBelow env c n none ds h = ground (
  arith,
  AllBelow-mono ds n (suc n) (omega arith) h,
  all_of-append (λ (d : ℕ × Coordinate). ltb d.0 (suc n)) ds ((n, c) ∷ []),
)
