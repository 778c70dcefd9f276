-- ===== src/Config/Error.antt =====
-- crates/jman-config/src/lib.rs: the errors of validation. The variants that carry an error of the
-- file system or of TOML belong to the reading of files.
use jman.Base.{ℕ, Text, Bool, true, false, Result, ok, err, ◌>>◌, ◌&&◌, if◌then◌else◌, ◌≡◌, refl}

pub data ConfigError : Type 0 where
  unsupported_version : Text → ℕ → ℕ → ConfigError
  validation : Text → ConfigError

abbrev pub Checked : Type 0
Checked = Result ConfigError (Unit {0})

abbrev pub invalid : Text → Checked
invalid message = err (validation message)

abbrev pub check : Bool → Checked → Checked
check passed failure = if passed then ok tt else failure

abbrev pub accepted : Checked → Bool
accepted (ok u) = true
accepted (err e) = false

-- A chain of checks accepts what each of them accepts.
pub accepted->> : (m k : Checked) → accepted (m >> k) ≡ (accepted m && accepted k)
accepted->> (ok u) k = refl
accepted->> (err e) k = refl
