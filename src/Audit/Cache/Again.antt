-- ===== src/Audit/Cache/Again.antt =====
-- crates/jman-audit/src/cache.rs: an audit without the network after one with it.
use jman.Base.{
  ℕ, Text, text_eq, Bool, true, false, Option, none, some, List, ◌≡◌, refl, ok, err, Result, ◌∙◌,
  sym, ap, Bool-cases, inl, inr, lookup-map_insert, arith, if◌then◌else◌, ◌==◌,
}
use jman.Audit.Model.{
  AuditPackage, compare_packages, Finding, network, cache, stale_cache, AuditResult,
}
use jman.Audit.Cache.{
  AuditError, AuditOptions, CachedAudit, file, Disk, Environment, cache_path, read_cache,
  ask_provider, answer, from_offline, into_result, audit, sort_by, dedup, compare_findings,
  cache_schema_version,
}

-- The same audit without the network.
abbrev pub without_network : AuditOptions → AuditOptions
without_network options = record options { offline = true }

equal_self : (a : Text) → (a == a) ≡ true
equal_self a = ground arith

-- From the cache, where the audit before answered from the network.
abbrev pub from_cache : AuditResult → AuditResult
from_cache result = record result { source = cache }

ok_same :
    {a b : AuditResult} → (the : Result AuditError AuditResult) → the ≡ ok a → the ≡ ok b → a ≡ b
ok_same the h k = cc

cached_differs :
    (cached result : AuditResult)
    → cached.source ≡ cache
    → cached ≡ result
    → result.source ≡ network
    → ⊥
cached_differs cached result e h s = clash (sym e ∙ (ap (λ r. r.source) h ∙ s))
  where
    clash : cache ≡ network → ⊥
    clash p = cc

stale_differs :
    (stale result : AuditResult)
    → stale.source ≡ stale_cache
    → stale ≡ result
    → result.source ≡ network
    → ⊥
stale_differs stale result e h s = clash (sym e ∙ (ap (λ r. r.source) h ∙ s))
  where
    clash : stale_cache ≡ network → ⊥
    clash p = cc

-- The JSON library reads back the cached audits that it wrote.
abbrev pub ReadsBack : Environment → Type 0
ReadsBack env = (c : CachedAudit) → env.from_slice (env.to_vec c) ≡ some c

module _ (env : Environment) where
  Remembers : Text → Disk × Result AuditError AuditResult → Type 0
  Remembers path (disk, m) =
      (result : AuditResult)
      → m ≡ ok result
      → result.source ≡ network
      → from_offline env (read_cache env path disk) ≡ ok (from_cache result)

  ask_provider-Remembers :
      ReadsBack env
      → (now : ℕ) (path : Text) (disk : Disk) (cached : Result AuditError (Option CachedAudit))
        (answered : Result AuditError (List Finding))
      → Remembers path (ask_provider env now path disk cached answered)
  unfolding Remembers
  ask_provider-Remembers reads_back now path disk (ok (some c)) (err e) = λ result h s. absurd (
      stale_differs (into_result stale_cache c) result refl
        (ok_same (ok (into_result stale_cache c)) refl h) s)
  ask_provider-Remembers reads_back now path disk (ok none) (err e) = λ result h s. cc
  ask_provider-Remembers reads_back now path disk (err x) (err e) = λ result h s. cc
  ask_provider-Remembers reads_back now path disk cached (ok findings) =
      let c : CachedAudit = record {
        schema_version = cache_schema_version;
        fetched_at = now;
        provider = env.name;
        findings = sort_by compare_findings findings;
      } in
      elim (Bool-cases (env.can_write path)) [
        | inl e ↦ rw e (λ result h s.
            rw
              (
                lookup-map_insert path path (file (env.to_vec c)) disk,
                equal_self path,
                reads_back c,
              )
              (ap ok (ap from_cache (ok_same (ok (into_result network c)) refl h))))
        | inr e ↦ rw e (λ result h s. cc)
      ]

  from_cache-Remembers :
      (path : Text) (disk : Disk) (c : CachedAudit)
      → Remembers path (disk, ok (into_result cache c))
  unfolding Remembers
  from_cache-Remembers path disk c result h s = absurd (
      cached_differs (into_result cache c) result refl (ok_same (ok (into_result cache c)) refl h)
        s)

  from_offline-Remembers :
      (path : Text) (disk : Disk) (cached : Result AuditError (Option CachedAudit))
      → Remembers path (disk, from_offline env cached)
  from_offline-Remembers path disk (ok (some c)) = from_cache-Remembers path disk c
  from_offline-Remembers path disk (ok none) = unfold Remembers in λ result h s. cc
  from_offline-Remembers path disk (err e) = unfold Remembers in λ result h s. cc

  answer-Remembers :
      (path : Text) (disk : Disk) (fresh : Option CachedAudit)
      (asked : Disk × Result AuditError AuditResult)
      → Remembers path asked
      → Remembers path (answer env disk fresh asked)
  answer-Remembers path disk (some c) asked h = from_cache-Remembers path disk c
  answer-Remembers path disk none asked h = h

  if-Remembers :
      (path : Text) (b : Bool) (left right : Disk × Result AuditError AuditResult)
      → Remembers path left
      → Remembers path right
      → Remembers path (if b then left else right)
  if-Remembers path true left right l r = l
  if-Remembers path false left right l r = r

  audit-Remembers :
      ReadsBack env
      → (options : AuditOptions) (query : List AuditPackage → Result AuditError (List Finding))
        (now : ℕ) (packages : List AuditPackage) (disk : Disk)
      → Remembers
          (cache_path env options (dedup (sort_by compare_packages packages)))
          (audit env options query now packages disk)
  unfolding audit
  audit-Remembers reads_back options query now packages disk =
      let path = cache_path env options (dedup (sort_by compare_packages packages)) in
      let cached = read_cache env path disk in
      if-Remembers path options.offline _ _ (from_offline-Remembers path disk cached)
        (answer-Remembers path disk _ _ (ask_provider-Remembers reads_back now path disk cached _))

  remembered :
      (path : Text) (after : Disk) (result : AuditResult)
      (out : Disk × Result AuditError AuditResult)
      → Remembers path out
      → out ≡ (after, ok result)
      → result.source ≡ network
      → from_offline env (read_cache env path after) ≡ ok (from_cache result)
  remembered path after result out r h s =
      let kept : Remembers path (after, ok result) = rw h at r in
      unfold Remembers in kept result refl s

  -- Where the JSON library reads back what it wrote, what an audit fetched from the network, an audit of
  -- the same packages without the network finds in the cache: the same findings of the same provider, at
  -- whatever time, without asking the provider.
  pub audit-without_network :
      ReadsBack env
      → (options : AuditOptions)
        (query other : List AuditPackage → Result AuditError (List Finding)) (now later : ℕ)
        (packages : List AuditPackage) (disk after : Disk) (result : AuditResult)
      → audit env options query now packages disk ≡ (after, ok result)
      → result.source ≡ network
      → audit env (without_network options) other later packages after
        ≡ (after, ok (from_cache result))
  unfolding audit
  audit-without_network reads_back options query other now later packages disk after result h s =
      ap (λ m. (after, m))
        (remembered (cache_path env options (dedup (sort_by compare_packages packages))) after
          result (audit env options query now packages disk)
          (audit-Remembers reads_back options query now packages disk) h s)
