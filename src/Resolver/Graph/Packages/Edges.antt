-- ===== src/Resolver/Graph/Packages/Edges.antt =====
-- crates/jman-resolver/src/graph.rs: what `add_edge` keeps of the package list.
use jman.Base.{ℕ, ◌<◌, Text, Option, none, some, List, [], ◌∷◌, arith, ◌≡◌, refl, length, map}
use jman.Resolver.Coordinate.{Coordinate}
use jman.Resolver.Run.{at_index}
use jman.Resolver.Run.Safe.{Safe, Safe->>=, at_index-Safe, update_at-Safe}
use jman.Resolver.Graph.Types.{ResolvedPackage}
use jman.Resolver.Graph.Packages.{add_edge, with_dependency}

-- What the updates of a package leave alone: its coordinate and the parent that selected it.
abbrev pub Origin : Type 0
Origin = Coordinate × Option ℕ

abbrev pub origin : ResolvedPackage → Origin
origin p = (p.coordinate, p.selected_parent)

abbrev pub origins : List ResolvedPackage → List Origin
origins = map origin

abbrev pub IsIndex : Option ℕ → ℕ → Type 0
IsIndex none n = Unit
IsIndex (some i) n = i < n

with_dependency-origin :
    (text : Text) (p : ResolvedPackage) → origin (with_dependency text p) ≡ origin p
unfolding with_dependency
with_dependency-origin text p = ground arith

-- An edge between packages of the list is added without a panic and moves no package.
pub add_edge-Safe :
    (ps : List ResolvedPackage) (parent : Option ℕ) (child : ℕ)
    → IsIndex parent (length ps)
    → child < length ps
    → Safe (λ qs. origins qs ≡ origins ps) (add_edge ps parent child)
unfolding add_edge
add_edge-Safe ps none child hp hc = refl
add_edge-Safe ps (some parent) child hp hc =
    Safe->>= _ _ (at_index ps child) _ (at_index-Safe ps child hc)
      (λ found _. update_at-Safe origin ps parent _ (with_dependency-origin _) hp)

pub length-origins :
    (ps qs : List ResolvedPackage) → origins qs ≡ origins ps → length qs ≡ length ps
length-origins [] [] e = refl
length-origins [] (q ∷ qs) e = cc
length-origins (p ∷ ps) [] e = cc
length-origins (p ∷ ps) (q ∷ qs) e = ground (arith, length-origins ps qs)
