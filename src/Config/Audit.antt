-- ===== src/Config/Audit.antt =====
-- crates/jman-config/src/lib.rs: `validate_audit`. A text is blank if trimming leaves nothing of it;
-- the class of white space is that of Rust's standard library, a parameter.
pub mod Laws
use jman.Base.{
  ℕ, Text, codes, text_eq, Bool, true, false, List, [], ◌∷◌, ok, ◌>>◌, not, if◌then◌else◌, all_of,
  contains,
}
use jman.Config.Error.{Checked, check, invalid}
use jman.Config.Names.{quoted}
use jman.Config.Dates.{is_iso_date}

pub record AuditSuppression : Type 0 where
  pub id : Text
  pub reason : Text
  pub expires : Text

module _ (is_whitespace : ℕ → Bool) where
  abbrev pub is_blank : Text → Bool
  is_blank = all_of is_whitespace

  abbrev pub check_suppression : List Text → AuditSuppression → Checked
  check_suppression identifiers s =
      check (not (is_blank s.id)) (invalid (codes "audit suppression ID cannot be empty"))
      >> check (not (contains identifiers s.id))
          (invalid (quoted (codes "duplicate audit suppression `") s.id (codes "`")))
      >> check (not (is_blank s.reason))
          (invalid (quoted (codes "audit suppression `") s.id (codes "` requires a reason")))
      >> check (is_iso_date s.expires) (
          invalid (
            quoted (codes "audit suppression `") s.id
              (codes "` expiry must use a valid YYYY-MM-DD date")))

  -- The loop, with the identifiers seen.
  unfoldable pub check_suppressions : List Text → List AuditSuppression → Checked
  check_suppressions identifiers [] = ok tt
  check_suppressions identifiers (s ∷ more) =
      check_suppression identifiers s >> check_suppressions (s.id ∷ identifiers) more

  unfoldable pub validate_audit : List AuditSuppression → Checked
  unfolding check_suppressions text_eq
  validate_audit suppressions = check_suppressions [] suppressions
