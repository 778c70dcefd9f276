-- ===== src/Audit/Cache.antt =====
-- crates/jman-audit/src/cache.rs: `Auditor::audit` over its cache. The disk is the files of the cache
-- by path. Parameters are the provider, the digest of a text as hexadecimal digits, which paths can be
-- written, the JSON library's `to_vec` and `from_slice` of a cached audit, and the time of each call.
pub mod Again
use jman.Base.{
  ℕ, suc, ◌+◌, ◌-◌, ◌^◌, Text, text_eq, codes, Bool, true, false, Option, none, some, List, [], ◌∷◌,
  ◌++◌, ◌=ℕ=◌, ◌&&◌, ◌||◌, not, leb, if◌then◌else◌, is_empty, all_of, map, is_ascii_alphanumeric,
  lookup, map_insert, min, Ordering, then_with, text_compare, Result, ok, err, ◌>>=◌,
}
use jman.Audit.Model.{
  AuditPackage, compare_packages, Finding, AuditSource, network, cache, stale_cache, AuditResult,
}

-- What the audit itself reports, and what the provider does.
pub data AuditError : Type 0 where
  offline_miss : AuditError
  cache_failed invalid_cache : Text → AuditError
  of_provider : Text → AuditError

pub record AuditOptions : Type 0 where
  pub cache_dir : Text
  pub offline : Bool
  pub refresh : Bool
  pub ttl : ℕ

abbrev pub cache_schema_version : ℕ
cache_schema_version = 1

pub record CachedAudit : Type 0 where
  pub schema_version : ℕ
  pub fetched_at : ℕ
  pub provider : Text
  pub findings : List Finding

-- A file that cannot be read, and one with its bytes.
pub data Stored : Type 0 where
  unreadable : Stored
  file : List ℕ → Stored

abbrev pub Disk : Type 0
Disk = List (Text × Stored)

-- What the audit calls: the provider's two names, the digest, the file system, the JSON library.
pub record Environment : Type 0 where
  pub name : Text
  pub cache_identity : Text
  pub digest : Text → Text
  pub can_write : Text → Bool
  pub to_vec : CachedAudit → List ℕ
  pub from_slice : List ℕ → Option CachedAudit

-- `sort`, `dedup` and `sort_by`, which are stable.
abbrev pub insert_by {ℓ} : {A : Type ℓ} → (A → A → Ordering) → A → List A → List A
insert_by order a [] = a ∷ []
insert_by order a (b ∷ sorted) =
    let rest = insert_by order a sorted in
    elim (order b a) [ Ordering.lt ↦ b ∷ rest | _ ↦ a ∷ b ∷ sorted ]

abbrev pub sort_by {ℓ} : {A : Type ℓ} → (A → A → Ordering) → List A → List A
sort_by order [] = []
sort_by order (a ∷ items) = insert_by order a (sort_by order items)

abbrev pub dedup : List AuditPackage → List AuditPackage
dedup [] = []
dedup (p ∷ []) = p ∷ []
dedup (p ∷ q ∷ packages) =
    let rest = dedup (q ∷ packages) in
    elim (compare_packages p q) [ Ordering.eq ↦ rest | _ ↦ p ∷ rest ]

abbrev pub compare_findings : Finding → Finding → Ordering
compare_findings a b =
    then_with (compare_packages a.audited b.audited) (text_compare a.advisory.id b.advisory.id)

-- A path component, of a provider's name.
abbrev pub safe_char : ℕ → ℕ
safe_char c = if is_ascii_alphanumeric c || c =ℕ= b'-' || c =ℕ= b'_' then c else b'_'

abbrev pub cache_directory_name : Text → Text
cache_directory_name provider =
    let value = map safe_char provider in
    if is_empty value || all_of (λ c. c =ℕ= b'.') value then codes "provider" else value

-- Saturating, as `u64`.
abbrev pub is_fresh : ℕ → ℕ → CachedAudit → Bool
is_fresh now ttl c =
    c.schema_version =ℕ= cache_schema_version
    && (leb c.fetched_at (min (now + 300) (2 ^ 64 - 1)) && leb (now - c.fetched_at) ttl)

abbrev pub into_result : AuditSource → CachedAudit → AuditResult
into_result source c = record { provider = c.provider; source = source; findings = c.findings }

abbrev pub digest_input : List AuditPackage → Text
digest_input [] = []
digest_input (p ∷ packages) =
    (0 ∷ p.group) ++ (0 ∷ p.artifact) ++ (0 ∷ p.version) ++ digest_input packages

abbrev pub check_schema : Text → Option CachedAudit → Result AuditError (Option CachedAudit)
check_schema path none = err (invalid_cache path)
check_schema path (some c) =
    if c.schema_version =ℕ= cache_schema_version then ok (some c) else err (invalid_cache path)

module _ (env : Environment) where
  abbrev pub parse_stored : Text → Option Stored → Result AuditError (Option CachedAudit)
  parse_stored path none = ok none
  parse_stored path (some unreadable) = err (cache_failed path)
  parse_stored path (some (file bytes)) = check_schema path (env.from_slice bytes)

  abbrev pub read_cache : Text → Disk → Result AuditError (Option CachedAudit)
  read_cache path disk = parse_stored path (lookup path disk)

  abbrev pub cache_path : AuditOptions → List AuditPackage → Text
  cache_path options packages =
      options.cache_dir
      ++ codes "/audit/"
      ++ cache_directory_name env.name
      ++ codes "/"
      ++ env.digest (env.cache_identity ++ digest_input packages)
      ++ codes ".json"

  abbrev pub write_cache : Text → CachedAudit → Disk → Disk × Result AuditError (Unit {0})
  write_cache path c disk =
      if env.can_write path
      then (map_insert path (file (env.to_vec c)) disk, ok tt)
      else (disk, err (cache_failed path))

  abbrev pub after_write :
      CachedAudit → Disk × Result AuditError (Unit {0}) → Disk × Result AuditError AuditResult
  after_write c (disk, ok done) = (disk, ok (into_result network c))
  after_write c (disk, err e) = (disk, err e)

  abbrev pub or_stale :
      AuditError → Result AuditError (Option CachedAudit) → Result AuditError AuditResult
  or_stale e (ok (some c)) = ok (into_result stale_cache c)
  or_stale e (ok none) = err e
  or_stale e (err other) = err e

  abbrev pub ask_provider :
      ℕ
      → Text
      → Disk
      → Result AuditError (Option CachedAudit)
      → Result AuditError (List Finding)
      → Disk × Result AuditError AuditResult
  ask_provider now path disk cached (err e) = (disk, or_stale e cached)
  ask_provider now path disk cached (ok findings) =
      let c : CachedAudit = record {
        schema_version = cache_schema_version;
        fetched_at = now;
        provider = env.name;
        findings = sort_by compare_findings findings;
      } in
      after_write c (write_cache path c disk)

  abbrev pub from_offline : Result AuditError (Option CachedAudit) → Result AuditError AuditResult
  from_offline (ok (some c)) = ok (into_result cache c)
  from_offline (ok none) = err offline_miss
  from_offline (err e) = err e

  abbrev pub fresh_one :
      ℕ → AuditOptions → Result AuditError (Option CachedAudit) → Option CachedAudit
  fresh_one now options (ok (some c)) =
      if not options.refresh && is_fresh now options.ttl c then some c else none
  fresh_one now options (ok none) = none
  fresh_one now options (err e) = none

  abbrev pub answer :
      Disk
      → Option CachedAudit
      → Disk × Result AuditError AuditResult
      → Disk × Result AuditError AuditResult
  answer disk (some c) asked = (disk, ok (into_result cache c))
  answer disk none asked = asked

  unfoldable pub audit :
      AuditOptions
      → (List AuditPackage → Result AuditError (List Finding))
      → ℕ
      → List AuditPackage
      → Disk
      → Disk × Result AuditError AuditResult
  unfolding lookup
  audit options query now packages disk =
      let sorted = dedup (sort_by compare_packages packages) in
      let path = cache_path options sorted in
      let cached = read_cache path disk in
      let online =
        answer disk (fresh_one now options cached)
          (ask_provider now path disk cached (query sorted)) in
      if options.offline then (disk, from_offline cached) else online
