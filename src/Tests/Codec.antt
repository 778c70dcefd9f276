-- ===== src/Tests/Codec.antt =====
-- crates/jman-audit/src/cache.rs: a plain notation of cached audits, in place of JSON at concrete data.
use jman.Base.{ℕ, zero, suc, Text, Option, none, some, List, [], ◌∷◌, map, ◌≡◌, refl, ap, ◌∙◌}
use jman.Audit.Model.{Severity, unknown, low, medium, high, critical, Finding}
use jman.Audit.Cache.{CachedAudit}

-- Several texts as one: each character one higher, and a zero after each text.
abbrev put : Text → Text → Text
put [] after = 0 ∷ after
put (c ∷ s) after = suc c ∷ put s after

abbrev join_all : List Text → Text
join_all [] = []
join_all (t ∷ ts) = put t (join_all ts)

abbrev push : ℕ → List Text → List Text
push c [] = []
push c (t ∷ ts) = (c ∷ t) ∷ ts

abbrev split_all : Text → List Text
split_all [] = []
split_all (zero ∷ s) = [] ∷ split_all s
split_all (suc c ∷ s) = push c (split_all s)

split_all-put : (t after : Text) → split_all (put t after) ≡ t ∷ split_all after
split_all-put [] after = refl
split_all-put (c ∷ t) after = ap (push c) (split_all-put t after)

split_all-join_all : (ts : List Text) → split_all (join_all ts) ≡ ts
split_all-join_all [] = refl
split_all-join_all (t ∷ ts) =
    split_all-put t (join_all ts) ∙ ap (λ rest. t ∷ rest) (split_all-join_all ts)

abbrev put_severity : Severity → Text
put_severity unknown = []
put_severity low = 0 ∷ []
put_severity medium = 0 ∷ 0 ∷ []
put_severity high = 0 ∷ 0 ∷ 0 ∷ []
put_severity critical = 0 ∷ 0 ∷ 0 ∷ 0 ∷ []

abbrev get_severity : Text → Severity
get_severity [] = unknown
get_severity (a ∷ []) = low
get_severity (a ∷ b ∷ []) = medium
get_severity (a ∷ b ∷ c ∷ []) = high
get_severity (a ∷ b ∷ c ∷ d ∷ s) = critical

get_severity-put_severity : (s : Severity) → get_severity (put_severity s) ≡ s
get_severity-put_severity unknown = refl
get_severity-put_severity low = refl
get_severity-put_severity medium = refl
get_severity-put_severity high = refl
get_severity-put_severity critical = refl

abbrev put_option : Option Text → Text
put_option none = []
put_option (some t) = 0 ∷ t

abbrev get_option : Text → Option Text
get_option [] = none
get_option (c ∷ t) = some t

get_option-put_option : (o : Option Text) → get_option (put_option o) ≡ o
get_option-put_option none = refl
get_option-put_option (some t) = refl

abbrev put_finding : Finding → Text
put_finding f = join_all (
    f.audited.group
    ∷ f.audited.artifact
    ∷ f.audited.version
    ∷ f.advisory.id
    ∷ join_all f.advisory.aliases
    ∷ f.advisory.summary
    ∷ put_severity f.advisory.severity
    ∷ join_all f.advisory.fixed_versions
    ∷ join_all f.advisory.references
    ∷ put_option f.advisory.modified
    ∷ [])

abbrev finding_of : List Text → Option Finding
finding_of (g ∷ a ∷ v ∷ id ∷ aliases ∷ s ∷ severity ∷ fixed ∷ refs ∷ modified ∷ []) = some (record {
  audited = record { group = g; artifact = a; version = v };
  advisory = record {
    id = id;
    aliases = split_all aliases;
    summary = s;
    severity = get_severity severity;
    fixed_versions = split_all fixed;
    references = split_all refs;
    modified = get_option modified;
  };
})
finding_of _ = none

get-put_finding : (f : Finding) → finding_of (split_all (put_finding f)) ≡ some f
get-put_finding f =
    rw
      (
        split_all-join_all (
            f.audited.group
            ∷ f.audited.artifact
            ∷ f.audited.version
            ∷ f.advisory.id
            ∷ join_all f.advisory.aliases
            ∷ f.advisory.summary
            ∷ put_severity f.advisory.severity
            ∷ join_all f.advisory.fixed_versions
            ∷ join_all f.advisory.references
            ∷ put_option f.advisory.modified
            ∷ []),
        split_all-join_all f.advisory.aliases,
        get_severity-put_severity f.advisory.severity,
        split_all-join_all f.advisory.fixed_versions,
        split_all-join_all f.advisory.references,
        get_option-put_option f.advisory.modified,
      )
      refl

abbrev and_then : Option Finding → Option (List Finding) → Option (List Finding)
and_then none fs = none
and_then (some f) none = none
and_then (some f) (some fs) = some (f ∷ fs)

abbrev get_findings : List Text → Option (List Finding)
get_findings [] = some []
get_findings (t ∷ ts) = and_then (finding_of (split_all t)) (get_findings ts)

get-put_findings : (fs : List Finding) → get_findings (map put_finding fs) ≡ some fs
get-put_findings [] = refl
get-put_findings (f ∷ fs) = rw (get-put_finding f, get-put_findings fs) refl

abbrev pub to_vec : CachedAudit → List ℕ
to_vec c = c.schema_version ∷ c.fetched_at ∷ put c.provider (join_all (map put_finding c.findings))

abbrev with_findings : ℕ → ℕ → Text → Option (List Finding) → Option CachedAudit
with_findings schema at provider none = none
with_findings schema at provider (some fs) =
    some (record { schema_version = schema; fetched_at = at; provider = provider; findings = fs })

abbrev of_texts : ℕ → ℕ → List Text → Option CachedAudit
of_texts schema at [] = none
of_texts schema at (provider ∷ ts) = with_findings schema at provider (get_findings ts)

abbrev pub from_slice : List ℕ → Option CachedAudit
from_slice (schema ∷ at ∷ bytes) = of_texts schema at (split_all bytes)
from_slice _ = none

pub from_slice-to_vec : (c : CachedAudit) → from_slice (to_vec c) ≡ some c
from_slice-to_vec c =
    rw
      (
        split_all-put c.provider (join_all (map put_finding c.findings)),
        split_all-join_all (map put_finding c.findings),
        get-put_findings c.findings,
      )
      refl
