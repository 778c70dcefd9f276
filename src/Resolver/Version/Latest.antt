-- ===== src/Resolver/Version/Latest.antt =====
-- crates/jman-resolver/src/version.rs: the overall update that `analyze_versions` reports.
use jman.Base.{
  Text, text_eq, Bool, true, false, Option, none, some, List, [], ◌∷◌, ◌||◌, arith, ◌≡◌, refl,
  any_of, Bool-cases, inl, inr,
}
use mathlib.Core.Path.{fun_ext}
use jman.Resolver.Version.{VersionChange, patch, minor, major, other, compare_versions}
use jman.Resolver.Version.Order.{compare_versions-flip, compare_versions-chain}
use jman.Resolver.Version.Analysis.{
  is_greater, is_update, Selections, slot, change_to, latest_of, later_max, analyze_versions,
}
use jman.Resolver.Version.Updates.{
  IsNewest, none_newer, none_newer_mono, none_newer-vacuous, is_update_of, analyze_versions-slot,
}

abbrev pub version_of : Option (Text × VersionChange) → Option Text
version_of none = none
version_of (some (v, kind)) = some v

module _ (p q : Text → Bool) where
  any_of-or :
      (seen : List Text)
      → any_of p seen ≡ false
      → any_of q seen ≡ false
      → any_of (λ v. p v || q v) seen ≡ false
  any_of-or [] h k = refl
  any_of-or (v ∷ seen) h k = ground (arith, any_of-or seen)

  none_newer-or :
      (v : Text) (seen : List Text)
      → none_newer p v seen ≡ true
      → none_newer q v seen ≡ true
      → none_newer (λ w. p w || q w) v seen ≡ true
  none_newer-or v [] h k = refl
  none_newer-or v (w ∷ seen) h k = ground (arith, none_newer-or v seen)

  -- Equal versions are not newer than one another.
  none_newer_self :
      (v w : Text) (seen : List Text)
      → is_greater (compare_versions v w) ≡ false
      → none_newer p v seen ≡ true
      → none_newer p w seen ≡ true
  none_newer_self v w [] h k = refl
  none_newer_self v w (u ∷ seen) h k = ground (
    arith,
    none_newer_self v w seen,
    (compare_versions-flip v w).1,
    (compare_versions-flip v u).1,
    compare_versions-chain u w v (compare_versions u w) (compare_versions w v) refl refl,
  )

  later_max-IsNewest :
      (best : Option (Text × VersionChange)) (o : Option Text) (kind : VersionChange)
      (seen : List Text)
      → IsNewest p seen (version_of best)
      → IsNewest q seen o
      → IsNewest (λ v. p v || q v) seen (version_of (later_max best o kind))
  unfolding later_max
  later_max-IsNewest none none kind seen h k = any_of-or seen h k
  later_max-IsNewest none (some v) kind seen h (qv, here, newest) =
      (ground arith, here, none_newer-or v seen (none_newer-vacuous p v seen h) newest)
  later_max-IsNewest (some (b, j)) none kind seen (pb, here, newest) k =
      (ground arith, here, none_newer-or b seen newest (none_newer-vacuous q b seen k))
  later_max-IsNewest (some (b, j)) (some v) kind seen (pb, hereb, newestb) (qv, here, newest) =
      elim (Bool-cases (is_greater (compare_versions b v))) [
        | inl g ↦ rw g (
          ground arith,
          hereb,
          none_newer-or b seen newestb (none_newer_mono q v b seen g newest),
        )
        | inr g ↦
            rw g
              (ground arith, here, none_newer-or v seen (none_newer_self b v seen g newestb) newest)
      ]

IsNewest-of_eq :
    (p q : Text → Bool) (seen : List Text) (o : Option Text)
    → ((v : Text) → p v ≡ q v)
    → IsNewest p seen o
    → IsNewest q seen o
IsNewest-of_eq p q seen o e h = rw (fun_ext e) at h

-- The kind that stands beside the latest version is the kind of that version.
abbrev pub HasItsKind : Text → Option (Text × VersionChange) → Type 0
HasItsKind current none = Unit
HasItsKind current (some (v, kind)) = kind ≡ change_to current v

module _ (current : Text) (available : List Text) (include_prerelease : Bool) where
  later_max-HasItsKind :
      (best : Option (Text × VersionChange)) (o : Option Text) (kind : VersionChange)
      → HasItsKind current best
      → IsNewest (is_update_of current include_prerelease kind) available o
      → HasItsKind current (later_max best o kind)
  unfolding later_max
  later_max-HasItsKind none none kind h k = tt
  later_max-HasItsKind none (some v) kind h k = ground arith
  later_max-HasItsKind (some (b, j)) none kind h k = h
  later_max-HasItsKind (some (b, j)) (some v) kind h k =
      elim (Bool-cases (is_greater (compare_versions b v))) [
        | inl g ↦ rw g h
        | inr g ↦ rw g (ground arith)
      ]

  is_update-eq :
      (v : Text)
      → ((((false || is_update_of current include_prerelease patch v)
              || is_update_of current include_prerelease minor v)
            || is_update_of current include_prerelease major v)
          || is_update_of current include_prerelease other v)
        ≡ is_update current include_prerelease v
  is_update-eq v = ground arith

  none_passes : (seen : List Text) → any_of (λ v. false) seen ≡ false
  none_passes [] = refl
  none_passes (v ∷ seen) = none_passes seen

  latest_of-IsNewest :
      (s : Selections)
      → ((kind : VersionChange)
          → IsNewest (is_update_of current include_prerelease kind) available (slot kind s))
      → IsNewest (is_update current include_prerelease) available (version_of (latest_of s))
        × HasItsKind current (latest_of s)
  unfolding latest_of
  latest_of-IsNewest s sel =
      let p = is_update_of current include_prerelease in
      let nothing = λ (v : Text). false in
      let one = later_max none s.patch patch in
      let two = later_max one s.minor minor in
      let three = later_max two s.major major in
      let empty = none_passes available in
      let first =
        later_max-IsNewest nothing (p patch) none s.patch patch available empty (sel patch) in
      let second = later_max-IsNewest _ (p minor) one s.minor minor available first (sel minor) in
      let third = later_max-IsNewest _ (p major) two s.major major available second (sel major) in
      let fourth = later_max-IsNewest _ (p other) three s.other other available third (sel other) in
      (
        IsNewest-of_eq _ _ available _ is_update-eq fourth,
        later_max-HasItsKind three s.other other
            (later_max-HasItsKind two s.major major
              (later_max-HasItsKind one s.minor minor
                (later_max-HasItsKind none s.patch patch tt (sel patch)) (sel minor))
              (sel major))
            (sel other),
      )

  -- The latest version is an available update, no available update of any kind is newer, its kind
  -- of change is its own, and it is absent exactly where there is no update.
  pub analyze_versions-latest :
      let latest = (analyze_versions current available include_prerelease).latest in
      IsNewest (is_update current include_prerelease) available (version_of latest)
      × HasItsKind current latest
  unfolding analyze_versions
  analyze_versions-latest =
      latest_of-IsNewest _ (analyze_versions-slot current available include_prerelease)
