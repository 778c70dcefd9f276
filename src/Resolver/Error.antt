-- ===== src/Resolver/Error.antt =====
-- crates/jman-resolver/src/lib.rs: the errors of the resolver. What a payload from outside the
-- program would hold (`reqwest::Error`, `std::io::Error`) is its text.
use jman.Base.{Text, Result}

pub data ResolverError : Type 0 where
  invalid_pom : Text → ResolverError
  invalid_metadata : Text → ResolverError
  invalid_coordinate : Text → ResolverError
  missing_version : Text → ResolverError
  unresolved_property : Text → Text → ResolverError
  model_cycle : Text → ResolverError
  model_context : Text → ResolverError → ResolverError
  background_task : Text → ResolverError
  request : Text → Text → ResolverError
  http_status : Text → Text → ResolverError
  offline_miss : Text → ResolverError
  cache : Text → Text → ResolverError

abbrev pub Fallible {ℓ} : Type ℓ → Type ℓ
Fallible A = Result ResolverError A
