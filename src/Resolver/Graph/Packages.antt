-- ===== src/Resolver/Graph/Packages.antt =====
-- crates/jman-resolver/src/graph.rs: `add_edge` on the package list.
pub mod Edges
use jman.Base.{
  ℕ, zero, suc, Text, text_eq, Option, none, some, List, [], ◌∷◌, ◌++◌, ok, err, ◌>>=◌,
  if◌then◌else◌, contains,
}
use jman.Resolver.Coordinate.{display}
use jman.Resolver.Run.{Run, at_index, update_at}
use jman.Resolver.Graph.Types.{ResolvedPackage}

-- The push at the end of `add_edge`.
unfoldable pub with_dependency : Text → ResolvedPackage → ResolvedPackage
with_dependency coordinate p =
    if contains p.dependencies coordinate
    then p
    else record p { dependencies = p.dependencies ++ (coordinate ∷ []) }

-- `add_edge`
unfoldable pub add_edge : List ResolvedPackage → Option ℕ → ℕ → Run (List ResolvedPackage)
unfolding with_dependency at_index update_at
add_edge packages none child = ok packages
add_edge packages (some parent) child = do
  found ← at_index packages child
  update_at packages parent (with_dependency (display found.coordinate))
