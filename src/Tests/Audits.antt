-- ===== src/Tests/Audits.antt =====
-- crates/jman-audit: theorems at concrete data.
use jman.Base.{
  Text, codes, text_eq, Bool, true, false, none, List, [], ◌∷◌, ◌≡◌, refl, ok, err, Result,
}
use jman.Audit.Model.{AuditPackage, Finding, high, network, AuditResult, from_label, Severity}
use jman.Audit.Cache.{AuditError, AuditOptions, Disk, Environment, of_provider, audit}
use jman.Audit.Cache.Again.{without_network, from_cache, audit-without_network}
use jman.Tests.Codec.{to_vec, from_slice, from_slice-to_vec}

abbrev library : AuditPackage
library = record { group = codes "g"; artifact = codes "a"; version = codes "1" }

abbrev finding : Finding
finding = record {
  audited = library;
  advisory = record {
    id = codes "CVE-1";
    aliases = [];
    summary = codes "s";
    severity = high;
    fixed_versions = [];
    references = [];
    modified = none;
  };
}

abbrev options : AuditOptions
options = record { cache_dir = codes "/c"; offline = false; refresh = false; ttl = 3600 }

abbrev provider : List AuditPackage → Result AuditError (List Finding)
provider packages = ok (finding ∷ [])

abbrev unreachable : List AuditPackage → Result AuditError (List Finding)
unreachable packages = err (of_provider (codes "offline"))

-- A digest that is long enough for one package.
abbrev same : Text → Text
same text = text

abbrev writable : Text → Bool
writable path = true

abbrev osv : Environment
osv = record {
  name = codes "osv";
  cache_identity = codes "osv";
  digest = same;
  can_write = writable;
  to_vec = to_vec;
  from_slice = from_slice;
}

abbrev packages : List AuditPackage
packages = library ∷ library ∷ []

abbrev first_audit : Disk × Result AuditError AuditResult
first_audit = audit osv options provider 1000 packages []

abbrev fetched : AuditResult
fetched = record { provider = codes "osv"; source = network; findings = finding ∷ [] }

fetches : first_audit ≡ (first_audit.0, ok fetched)
unfolding audit
fetches = refl

labelled : from_label same (codes "MODERATE") ≡ Severity.medium
unfolding from_label text_eq
labelled = refl

audit-without_network_example :
    audit osv (without_network options) unreachable 900000 packages first_audit.0
    ≡ (first_audit.0, ok (from_cache fetched))
audit-without_network_example =
    audit-without_network osv from_slice-to_vec options provider unreachable 1000 900000 packages []
      first_audit.0 fetched fetches refl
