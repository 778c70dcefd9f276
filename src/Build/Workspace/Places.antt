-- ===== src/Build/Workspace/Places.antt =====
-- crates/jman-build/src/lib.rs: the indices of the directories that are discovered.
use jman.Base.{
  ℕ, zero, suc, ◌+◌, ◌<◌, ◌≤◌, Text, text_eq, true, false, Option, none, some, List, [], ◌∷◌,
  if◌then◌else◌, ◌==◌, contains, lookup, length, arith, ◌≡◌, refl, ap, Bool-cases, inl, inr,
}
use jman.Build.Workspace.{Manifest, invalid}
use jman.Build.Workspace.Discovery.{Indices, or_else, coordinate_at, indices_from, coordinates_of}
use jman.Build.Workspace.Runs.{Yields}

pub coordinate_at-lt :
    (coordinates : List Text) (i : ℕ)
    → i < length coordinates
    → Yields (λ _. Unit {0}) (coordinate_at coordinates i)
unfolding coordinate_at
coordinate_at-lt [] i h = absurd (omega (arith, h))
coordinate_at-lt (c ∷ coordinates) zero h = tt
coordinate_at-lt (c ∷ coordinates) (suc i) h = coordinate_at-lt coordinates i (omega (arith, h))

-- All indices are of modules.
abbrev pub AllBelow : ℕ → Indices → Type 0
AllBelow n [] = Unit
AllBelow n ((directory, i) ∷ indices) = (i < n) × AllBelow n indices

lookup-AllBelow :
    (n : ℕ) (indices : Indices) (directory : Text) (i : ℕ)
    → AllBelow n indices
    → lookup directory indices ≡ some i
    → i < n
unfolding lookup
lookup-AllBelow n [] directory i b h = cc
lookup-AllBelow n ((d, j) ∷ indices) directory i (k, b) h = elim (Bool-cases (d == directory)) [
  | inl e ↦ ground arith
  | inr e ↦ lookup-AllBelow n indices directory i b (rw e at h)
]

pub or_else-AllBelow :
    (n : ℕ) (indices : Indices) (directory message : Text)
    → AllBelow n indices
    → Yields (λ i. i < n) (or_else (invalid message) (lookup directory indices))
or_else-AllBelow n indices directory message b = found (lookup directory indices) refl
  where
    found :
        (o : Option ℕ)
        → lookup directory indices ≡ o
        → Yields (λ i. i < n) (or_else (invalid message) o)
    found none e = tt
    found (some i) e = lookup-AllBelow n indices directory i b e

-- The directories are found at their places.
abbrev pub AllAt : Indices → ℕ → List (Text × Manifest) → Type 0
AllAt indices k [] = Unit
AllAt indices k ((directory, manifest) ∷ raw) =
    (lookup directory indices ≡ some k) × AllAt indices (suc k) raw

-- No directory was seen, and none stands twice.
abbrev pub HasNew : List Text → List (Text × Manifest) → Type 0
HasNew seen [] = Unit
HasNew seen ((directory, manifest) ∷ raw) =
    (contains seen directory ≡ false) × HasNew (directory ∷ seen) raw

text_eq_self : (d : Text) → (d == d) ≡ true
text_eq_self d = ground arith

text_eq_back : (d x : Text) → x ≡ d → (d == x) ≡ true
text_eq_back d x e = rw e (text_eq_self d)

text_same : (d x : Text) → (d == x) ≡ true → d ≡ x
text_same d x e = ground arith

AllAt-cons :
    (indices : Indices) (seen : List Text) (d : Text) (j k : ℕ) (raw : List (Text × Manifest))
    → contains seen d ≡ true
    → HasNew seen raw
    → AllAt indices k raw
    → AllAt ((d, j) ∷ indices) k raw
unfolding lookup
AllAt-cons indices seen d j k [] h n a = tt
AllAt-cons indices seen d j k ((x, m) ∷ raw) h (new, n) (at, a) = (
  elim (Bool-cases (d == x)) [ inl e ↦ absurd (cc (text_same d x e)) | inr e ↦ rw e at ],
  AllAt-cons indices (x ∷ seen) d j (suc k) raw (ground arith) n a,
)

pub AllAt-indices_from :
    (seen : List Text) (k : ℕ) (raw : List (Text × Manifest))
    → HasNew seen raw
    → AllAt (indices_from k raw) k raw
unfolding lookup
AllAt-indices_from seen k [] n = tt
AllAt-indices_from seen k ((d, m) ∷ raw) (new, n) = (
  rw (text_eq_self d) refl,
  AllAt-cons (indices_from (suc k) raw) (d ∷ seen) d k (suc k) raw (rw (text_eq_self d) refl) n
      (AllAt-indices_from (d ∷ seen) (suc k) raw n),
)

pub AllBelow-indices_from :
    (n k : ℕ) (raw : List (Text × Manifest)) → k + length raw ≡ n → AllBelow n (indices_from k raw)
AllBelow-indices_from n k [] e = tt
AllBelow-indices_from n k (x ∷ raw) e =
    (omega (arith, e), AllBelow-indices_from n (suc k) raw (omega (arith, e)))

pub length-coordinates_of :
    (raw : List (Text × Manifest)) → length (coordinates_of raw) ≡ length raw
length-coordinates_of [] = refl
length-coordinates_of (x ∷ raw) = ap suc (length-coordinates_of raw)

-- How many of the texts were not seen.
pub unseen : List Text → List Text → ℕ
unseen seen [] = 0
unseen seen (x ∷ all) = (if contains seen x then 0 else 1) + unseen seen all

pub unseen_nothing : (all : List Text) → unseen [] all ≡ length all
unfolding unseen
unseen_nothing [] = refl
unseen_nothing (x ∷ all) = omega (arith, unseen_nothing all)

unseen-cons_le : (d : Text) (seen all : List Text) → unseen (d ∷ seen) all ≤ unseen seen all
unfolding unseen
unseen-cons_le d seen [] = omega arith
unseen-cons_le d seen (x ∷ all) = ground (arith, unseen-cons_le d seen all)

pub unseen-cons :
    (d : Text) (seen all : List Text)
    → contains all d ≡ true
    → contains seen d ≡ false
    → unseen (d ∷ seen) all < unseen seen all
unfolding unseen
unseen-cons d seen [] h n = cc
unseen-cons d seen (x ∷ all) h n = elim (Bool-cases (x == d)) [
  | inl e ↦
      let same = text_same x d e in
      let new : contains seen x ≡ false = cc in
      rw (new, text_eq_back d x same) (ground (arith, unseen-cons_le d seen all))
  | inr e ↦ ground (arith, unseen-cons d seen all)
]
