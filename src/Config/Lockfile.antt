-- ===== src/Config/Lockfile.antt =====
-- crates/jman-config/src/lib.rs: `Lockfile` and its `validate`. A text is blank if trimming leaves
-- nothing of it, for the white space of Rust's standard library, a parameter. Paths are Unix paths.
pub mod Laws
use jman.Base.{
  ℕ, Text, codes, text_eq, Bool, true, false, Option, none, some, List, [], ◌∷◌, ◌++◌, ok, err,
  ◌>>◌, ◌==◌, ◌=ℕ=◌, ◌&&◌, ◌||◌, not, if◌then◌else◌, starts_with, for_each,
}
use jman.Config.Error.{Checked, check, invalid, unsupported_version}
use jman.Config.Names.{quoted, validate_ga, is_absolute}
use jman.Config.Audit.{is_blank}

pub record LockedPackage : Type 0 where
  pub group : Text
  pub artifact : Text
  pub version : Text
  pub extension : Text
  pub classifier : Option Text
  pub source : Text
  pub pom_checksum : Text
  pub artifact_checksum : Option Text
  pub artifact_size : Option ℕ
  pub dependencies : List Text
  pub scopes : List Text
  pub selected_parent : Option Text

pub record LockedWorkspaceDependency : Type 0 where
  pub coordinate : Text
  pub scope : Text
  pub path : Text
  pub version : Text

pub record LockedClasspaths : Type 0 where
  pub compile : List Text
  pub runtime : List Text
  pub test : List Text
  pub processors : List Text

-- `toolchain` is its one field, the Java release.
pub record Lockfile : Type 0 where
  pub lock_version : ℕ
  pub manifest_hash : Text
  pub workspace_hash : Text
  pub platform : Text
  pub java_release : ℕ
  pub packages : List LockedPackage
  pub workspace_dependencies : List LockedWorkspaceDependency
  pub classpath : LockedClasspaths

abbrev pub supported_lock_version : ℕ
supported_lock_version = 3

abbrev pub has_sha256_prefix : Text → Bool
has_sha256_prefix = starts_with (codes "sha256:")

abbrev pub has_sha256_prefix? : Option Text → Bool
has_sha256_prefix? none = true
has_sha256_prefix? (some checksum) = has_sha256_prefix checksum

abbrev package_error : LockedPackage → Text → Checked
package_error p what = invalid (codes "package " ++ (p.group ++ (b':' ∷ p.artifact ++ what)))

abbrev pub check_package : LockedPackage → Checked
check_package p =
    check (has_sha256_prefix p.pom_checksum)
      (package_error p (codes " has an invalid POM checksum"))
    >> check (has_sha256_prefix? p.artifact_checksum)
        (package_error p (codes " has an invalid artifact checksum"))

abbrev pub is_scope : Text → Bool
is_scope s =
    s == codes "compile" || s == codes "runtime" || s == codes "provided" || s == codes "test"

abbrev pub has_edge : List (Text × Text) → Text → Text → Bool
has_edge [] scope coordinate = false
has_edge ((s, c) ∷ edges) scope coordinate =
    (s == scope && c == coordinate) || has_edge edges scope coordinate

module _ (is_whitespace : ℕ → Bool) where
  abbrev pub check_edge : List (Text × Text) → LockedWorkspaceDependency → Checked
  check_edge edges d =
      validate_ga d.coordinate
      >> check (is_scope d.scope) (
          invalid (
            codes "workspace dependency "
            ++ (d.coordinate ++ quoted (codes " has unsupported scope `") d.scope (codes "`"))))
      >> check
          (not (
            is_blank is_whitespace d.version
            || (is_blank is_whitespace d.path || is_absolute d.path)))
          (invalid (
            quoted (codes "workspace dependency ") d.coordinate
              (codes " must have a version and relative path")))
      >> check (not (has_edge edges d.scope d.coordinate)) (
          invalid
            (codes "duplicate " ++ (d.scope ++ (codes " workspace dependency " ++ d.coordinate))))

  unfoldable pub check_edges : List (Text × Text) → List LockedWorkspaceDependency → Checked
  check_edges edges [] = ok tt
  check_edges edges (d ∷ more) =
      check_edge edges d >> check_edges ((d.scope, d.coordinate) ∷ edges) more

  unfoldable pub validate : Lockfile → Checked
  unfolding check_edges
  validate l =
      check (l.lock_version =ℕ= supported_lock_version)
        (err (unsupported_version (codes "lockfile") l.lock_version supported_lock_version))
      >> check (has_sha256_prefix l.manifest_hash) (invalid (codes "manifest hash must use sha256"))
      >> check (has_sha256_prefix l.workspace_hash)
          (invalid (codes "workspace hash must use sha256"))
      >> check (not (is_blank is_whitespace l.platform))
          (invalid (codes "resolution platform cannot be empty"))
      >> for_each check_package l.packages
      >> check_edges [] l.workspace_dependencies
