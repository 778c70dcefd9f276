-- ===== src/Resolver/Version/Updates.antt =====
-- crates/jman-resolver/src/version.rs: what `analyze_versions` selects, among all versions that are
-- updates of its kind.
use jman.Base.{
  Text, text_eq, Bool, true, false, Option, none, some, List, [], ◌∷◌, ◌++◌, ◌&&◌, ◌||◌, not,
  if◌then◌else◌, arith, ◌≡◌, refl, any_of, all_of, contains, all_of-append, any_of-append,
  contains-append, Bool-cases, inl, inr,
}
use mathlib.Core.List.{append-nil, append_assoc}
use jman.Resolver.Version.{VersionChange, patch, minor, major, other, compare_versions}
use jman.Resolver.Version.Order.{compare_versions-flip, compare_versions-chain}
use jman.Resolver.Version.Analysis.{
  is_greater, select_newer, is_update, Selections, slot, put, change_to, consider, consider_all,
  no_selections, analyze_versions,
}

-- No version of the list that passes the test is newer than `v`.
abbrev pub none_newer : (Text → Bool) → Text → List Text → Bool
none_newer p v = all_of (λ w. not (p w) || not (is_greater (compare_versions w v)))

-- Of the versions that pass the test the selected one is among the newest; none is selected only
-- where none passes.
abbrev pub IsNewest : (Text → Bool) → List Text → Option Text → Type 0
IsNewest p seen none = any_of p seen ≡ false
IsNewest p seen (some v) = (p v ≡ true) × (contains seen v ≡ true) × (none_newer p v seen ≡ true)

module _ (p : Text → Bool) where
  pub none_newer_mono :
      (v w : Text) (seen : List Text)
      → is_greater (compare_versions w v) ≡ true
      → none_newer p v seen ≡ true
      → none_newer p w seen ≡ true
  none_newer_mono v w [] g h = refl
  none_newer_mono v w (u ∷ seen) g h = ground (
    arith,
    none_newer_mono v w seen,
    (compare_versions-flip v w).1,
    (compare_versions-flip v u).1,
    compare_versions-chain u w v (compare_versions u w) (compare_versions w v) refl refl,
  )

  pub none_newer-vacuous :
      (v : Text) (seen : List Text) → any_of p seen ≡ false → none_newer p v seen ≡ true
  none_newer-vacuous v [] h = refl
  none_newer-vacuous v (u ∷ seen) h = ground (arith, none_newer-vacuous v seen)

  select_newer-IsNewest :
      (seen : List Text) (o : Option Text) (w : Text)
      → p w ≡ true
      → IsNewest p seen o
      → IsNewest p (seen ++ (w ∷ [])) (select_newer o w)
  unfolding select_newer
  select_newer-IsNewest seen none w pw h = (
    pw,
    ground (arith, contains-append seen (w ∷ []) w),
    ground (
      arith,
      all_of-append (λ u. not (p u) || not (is_greater (compare_versions u w))) seen (w ∷ []),
      none_newer-vacuous w seen,
      (compare_versions-flip w w).0,
    ),
  )
  select_newer-IsNewest seen (some v) w pw (pv, here, best) =
      elim (Bool-cases (is_greater (compare_versions w v))) [
        | inl g ↦ rw g (
          pw,
          ground (arith, contains-append seen (w ∷ []) w),
          ground (
            arith,
            all_of-append (λ u. not (p u) || not (is_greater (compare_versions u w))) seen (w ∷ []),
            none_newer_mono v w seen,
            (compare_versions-flip w w).0,
          ),
        )
        | inr g ↦ rw g (
          pv,
          ground (arith, contains-append seen (w ∷ []) v),
          ground (
            arith,
            all_of-append (λ u. not (p u) || not (is_greater (compare_versions u v))) seen (w ∷ []),
          ),
        )
      ]

  skip-IsNewest :
      (seen : List Text) (o : Option Text) (w : Text)
      → p w ≡ false
      → IsNewest p seen o
      → IsNewest p (seen ++ (w ∷ [])) o
  skip-IsNewest seen none w pw h = ground (arith, any_of-append p seen (w ∷ []))
  skip-IsNewest seen (some v) w pw (pv, here, best) = (
    pv,
    ground (arith, contains-append seen (w ∷ []) v),
    ground (
      arith,
      all_of-append (λ u. not (p u) || not (is_greater (compare_versions u v))) seen (w ∷ []),
    ),
  )

abbrev pub same_kind : VersionChange → VersionChange → Bool
same_kind patch patch = true
same_kind minor minor = true
same_kind major major = true
same_kind other other = true
same_kind _ _ = false

slot-put :
    (j k : VersionChange) (v : Text) (s : Selections)
    → slot k (put j v s) ≡ (if same_kind j k then select_newer (slot k s) v else slot k s)
slot-put j k v s = ground arith

module _ (current : Text) (include_prerelease : Bool) where
  -- An update of one kind.
  abbrev pub is_update_of : VersionChange → Text → Bool
  is_update_of kind v =
      is_update current include_prerelease v && same_kind (change_to current v) kind

  consider-IsNewest :
      (kind : VersionChange) (seen : List Text) (s : Selections) (v : Text)
      → IsNewest (is_update_of kind) seen (slot kind s)
      → IsNewest
          (is_update_of kind)
          (seen ++ (v ∷ []))
          (slot kind (consider current include_prerelease s v))
  unfolding consider
  consider-IsNewest kind seen s v h = elim (Bool-cases (is_update current include_prerelease v)) [
    | inr e ↦ rw e (skip-IsNewest (is_update_of kind) seen (slot kind s) v (ground arith) h)
    | inl e ↦
        rw (e, slot-put (change_to current v) kind v s)
          (elim (Bool-cases (same_kind (change_to current v) kind)) [
            | inl f ↦
                rw f
                  (select_newer-IsNewest (is_update_of kind) seen (slot kind s) v (ground arith) h)
            | inr f ↦ rw f (skip-IsNewest (is_update_of kind) seen (slot kind s) v (ground arith) h)
          ])
  ]

  consider_all-IsNewest :
      (kind : VersionChange) (available seen : List Text) (s : Selections)
      → IsNewest (is_update_of kind) seen (slot kind s)
      → IsNewest
          (is_update_of kind)
          (seen ++ available)
          (slot kind (consider_all current include_prerelease s available))
  unfolding consider_all
  consider_all-IsNewest kind [] seen s h = rw append-nil h
  consider_all-IsNewest kind (v ∷ available) seen s h =
      rw (append_assoc seen (v ∷ []) available) at (
        consider_all-IsNewest kind available (seen ++ (v ∷ [])) _
          (consider-IsNewest kind seen s v h))

-- For each kind of change, the selected version is an available update of that kind, and no
-- available update of that kind is newer; none is selected exactly where there is none.
pub analyze_versions-slot :
    (current : Text) (available : List Text) (include_prerelease : Bool) (kind : VersionChange)
    → IsNewest
        (is_update_of current include_prerelease kind)
        available
        (slot kind (analyze_versions current available include_prerelease).selections)
unfolding analyze_versions
analyze_versions-slot current available include_prerelease kind =
    consider_all-IsNewest current include_prerelease kind available [] no_selections (empty kind)
  where
    empty :
        (k : VersionChange)
        → IsNewest (is_update_of current include_prerelease k) [] (slot k no_selections)
    empty k = ground arith
