-- ===== src/Lib.antt =====
-- Models and proofs for jman, a build tool and package manager for Java.
--
-- The program resolves Maven dependencies, validates manifests and lockfiles, audits packages, builds
-- the modules of a workspace, runs scripts, serves editors, and names its own builds. The parts that are modelled, and how they meet:
--
-- - crates/jman-resolver/src/model.rs: coordinates with their notation and keys (`Coordinate::parse`
--   is `parse`, its `Display` is `display`), dependencies, exclusions and POM records, in
--   Resolver/Coordinate, Resolver/Dependency and Resolver/Pom. All other parts use them.
-- - crates/jman-resolver/src/version.rs: `compare_versions` and what it reads in Resolver/Version,
--   `analyze_versions` in Resolver/Version/Analysis.
-- - crates/jman-resolver/src/effective.rs: the builder of effective models. `DependencyCollection`
--   is Resolver/Effective/Collection, interpolation Resolver/Effective/Interpolation,
--   `apply_management` Resolver/Effective/Management, `build_remote` and `build_raw`
--   Resolver/Effective/Build with its stages. The cache is passed through the recursion.
-- - crates/jman-resolver/src/graph.rs: `resolve_in_workspace` takes effective models from the builder
--   and files from the repository. Its loop is Resolver/Graph/Resolve (`visit` is one round), the
--   queue's candidates Resolver/Graph/Candidates, edges Resolver/Graph/Packages, the class paths
--   Resolver/Graph/Classpaths, and the downloads Resolver/Graph/Artifacts.
-- - crates/jman-config/src/lib.rs: the validations of names, scripts, generators, audit suppressions,
--   dates, Java versions and the lockfile, each in its file of Config.
-- - crates/jman-build/src/lib.rs: `wildcard_matches` in Build/Patterns, `path_glob_matches` in
--   Build/Globs; `discover_modules` in Build/Workspace, with the file system as a parameter, and in
--   Build/Modules the order of the modules of a workspace: `topological_layers`,
--   `module_dependency_cycle` and `transitive_dependencies`, whose sets of indices are lists.
-- - crates/jman-audit/src/cache.rs and model.rs: the audit over its cache, in Audit. The files of
--   the cache hold bytes; the JSON library that writes and reads them is a parameter.
-- - crates/jman-cli/src/main.rs: `ScriptExecutor`, which runs the scripts of a manifest, in Cli/Scripts.
--   Processes are a parameter that changes a world.
-- - crates/jman-java-lsp/src/documents.rs: the open documents of the language server in
--   Lsp/Documents, and the translation of their positions in Lsp/Positions.
-- - crates/jman-java-lsp/src/protocol.rs: `read_message` and `write_message` in Lsp/Frames, with
--   readers and writers as lists of bytes.
-- - crates/jman-version/src/versioning.rs: semantic versions and `parse_git_description`, in Release.
--
-- Base holds what they share: tests, results, lists, and texts. A text is the list of its code
-- points; `BTreeMap` and `HashMap` are association lists, sets are lists of their members.
-- Resolver/Run is the outcome of code that may also panic by an index out of range, or run out of the
-- fuel of the model. Tests holds runs on small inputs and the theorems at concrete data.
--
-- Fuel and bounds. `build_remote` has fuel for the depth of parents and imports: one more than the
-- number of coordinates that have a POM is enough, as a coordinate on the stack is refused. The
-- search of `validate_generators` has a round for each generator, which is enough, since a round
-- completes one. The 32 rounds of
-- `interpolate_loose` and of `resolve_property_map` are the source's own. The fuel of the resolution
-- loop counts candidates that are taken off the queue; relocations that lead in a circle use up any
-- amount of it. `wildcard_matches` has as many steps as the pattern is long and one more, for each
-- byte of the value, `topological_layers` a layer for each module, the search for a cycle a place on
-- its stack for each candidate, and `transitive_dependencies` a step for each dependency.
-- `discover_modules` has more fuel than there are canonical paths, and visits none twice. The
-- stack of scripts holds each script once at most. `read_message` has a step for each byte,
-- as a line has one at least.
-- Numbers that are parsed keep the bound of their type (2^16, 2^32, 2^64).
--
-- Not modelled: the XML parser, HTTP, the file cache, digests and git, which are parameters or are
-- left out; the prefetch of POMs, which only warms a cache; the import of workspaces from the file
-- system; the downloads' concurrency, of which the order of completion is a parameter; imports that
-- are built side by side, here one after another in the order of their declaration; the manifest's
-- own validation; of the build engine all that starts compilers or reads files, of the language
-- server all but its messages and documents; of the command line all but the execution of scripts;
-- publishing; of auditing the client of the advisory service, and the severity of a score, which is
-- a floating-point number.
-- White space and control characters beyond ASCII are those of Rust's library, taken as parameters.
pub mod Audit
pub mod Base
pub mod Resolver
pub mod Config
pub mod Release
pub mod Build
pub mod Cli
pub mod Lsp
pub mod Tests
