-- ===== src/Audit/Model.antt =====
-- crates/jman-audit/src/model.rs: packages, advisories and findings, in the derived orders.
use jman.Base.{
  Text, text_eq, codes, Option, List, ◌++◌, ◌==◌, if◌then◌else◌, Ordering, text_compare, then_with,
  to_ascii_lowercase,
}

pub data Severity : Type 0 where
  unknown low medium high critical : Severity

-- `trim` is that of Rust's library.
unfoldable pub from_label : (Text → Text) → Text → Severity
from_label trim value =
    let label = to_ascii_lowercase (trim value) in
    if label == codes "low"
    then low
    else if label == codes "medium"
    then medium
    else if label == codes "moderate"
    then medium
    else if label == codes "high"
    then high
    else if label == codes "critical"
    then critical
    else unknown

abbrev pub severity_name : Severity → Text
severity_name unknown = codes "unknown"
severity_name low = codes "low"
severity_name medium = codes "medium"
severity_name high = codes "high"
severity_name critical = codes "critical"

pub record AuditPackage : Type 0 where
  pub group : Text
  pub artifact : Text
  pub version : Text

abbrev pub package_name : AuditPackage → Text
package_name p = p.group ++ codes ":" ++ p.artifact

abbrev pub package_coordinate : AuditPackage → Text
package_coordinate p = p.group ++ codes ":" ++ p.artifact ++ codes ":" ++ p.version

abbrev pub compare_packages : AuditPackage → AuditPackage → Ordering
compare_packages p q =
    then_with (text_compare p.group q.group)
      (then_with (text_compare p.artifact q.artifact) (text_compare p.version q.version))

pub record Advisory : Type 0 where
  pub id : Text
  pub aliases : List Text
  pub summary : Text
  pub severity : Severity
  pub fixed_versions : List Text
  pub references : List Text
  pub modified : Option Text

pub record Finding : Type 0 where
  pub audited : AuditPackage
  pub advisory : Advisory

pub data AuditSource : Type 0 where
  network cache stale_cache : AuditSource

pub record AuditResult : Type 0 where
  pub provider : Text
  pub source : AuditSource
  pub findings : List Finding
