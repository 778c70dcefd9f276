-- ===== src/Tests/Versions.antt =====
-- crates/jman-resolver/src/version.rs and crates/jman-version/src/versioning.rs: theorems at
-- concrete data.
use jman.Base.{
  Text, codes, text_eq, false, some, List, [], ◌∷◌, ◌≡◌, refl, Ordering, then_with, flip,
}
use jman.Resolver.Version.{patch, compare_versions, is_prerelease, numeric_version}
use jman.Resolver.Version.Order.{compare_versions-flip, compare_versions-chain}
use jman.Resolver.Version.Analysis.{
  slot, is_update, analyze_versions, consider, classify, select_newer,
}
use jman.Resolver.Version.Updates.{IsNewest, is_update_of, analyze_versions-slot}
use jman.Resolver.Version.Latest.{version_of, HasItsKind, analyze_versions-latest}

abbrev alpha : Text
alpha = codes "1.2.0-alpha"

abbrev candidate : Text
candidate = codes "1.2.0-rc1"

abbrev release : Text
release = codes "1.2.0"

below_candidate : compare_versions alpha candidate ≡ Ordering.lt
unfolding compare_versions
below_candidate = refl

below_release : compare_versions candidate release ≡ Ordering.lt
unfolding compare_versions
below_release = refl

compare_versions-flip_example :
    (compare_versions alpha alpha ≡ Ordering.eq)
    × (compare_versions release alpha ≡ flip (compare_versions alpha release))
compare_versions-flip_example = compare_versions-flip alpha release

compare_versions-chain_example : compare_versions alpha release ≡ then_with Ordering.lt Ordering.lt
compare_versions-chain_example =
    compare_versions-chain alpha candidate release Ordering.lt Ordering.lt below_candidate
      below_release refl

abbrev available : List Text
available = codes "1.1.0" ∷ codes "1.1.5" ∷ codes "1.3.0" ∷ codes "2.0.0-rc1" ∷ []

analyze_versions-slot_example :
    IsNewest
      (is_update_of (codes "1.1.1") false patch)
      available
      (slot patch (analyze_versions (codes "1.1.1") available false).selections)
analyze_versions-slot_example = analyze_versions-slot (codes "1.1.1") available false patch

analyze_versions-latest_example :
    let latest = (analyze_versions (codes "1.1.1") available false).latest in
    IsNewest (is_update (codes "1.1.1") false) available (version_of latest)
    × HasItsKind (codes "1.1.1") latest
analyze_versions-latest_example = analyze_versions-latest (codes "1.1.1") available false

newest_patch :
    slot patch (analyze_versions (codes "1.1.1") available false).selections ≡ some (codes "1.1.5")
unfolding analyze_versions consider is_update text_eq is_prerelease compare_versions classify
    numeric_version select_newer
newest_patch = refl

abbrev beta : Text
beta = codes "1.0.0-beta-2"
