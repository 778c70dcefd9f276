-- ===== src/Build/Globs/Paths.antt =====
-- crates/jman-build/src/lib.rs: which paths a glob matches, part by part.
use jman.Base.{
  Text, text_eq, codes, Bool, true, false, List, [], ◌∷◌, ◌++◌, ◌=ℕ=◌, arith, ◌≡◌, refl, ap, ◌∙◌,
  sym, Bool-cases, inl, inr, ◌↔◌, split_on, ◌==◌,
}
use jman.Build.Patterns.Meaning.{means}
use jman.Build.Globs.{deep, shallow, matches, path_glob_matches, component_matches}
use jman.Build.Globs.Rows.{component_matches-means}

-- A part `**` of a glob stands for any number of parts of the path, and any other part for one,
-- whose bytes it matches.
pub data Globs : List Text → List Text → Type 0 where
  nothing : Globs [] []
  one :
      {first part : Text} {remaining path : List Text}
      → (first == codes "**") ≡ false
      → means first part ≡ true
      → Globs remaining path
      → Globs (first ∷ remaining) (part ∷ path)
  several :
      {first : Text} {remaining path : List Text}
      → (first == codes "**") ≡ true
      → (skipped : List Text) → Globs remaining path
      → Globs (first ∷ remaining) (skipped ++ path)

deep-append :
    (rest : List Text → Bool) (skipped path : List Text)
    → rest path ≡ true
    → deep rest (skipped ++ path) ≡ true
deep-append rest [] [] h = h
deep-append rest [] (part ∷ path) h = ground arith
deep-append rest (part ∷ skipped) path h = ground (arith, deep-append rest skipped path)

deep-split :
    (rest : List Text → Bool) (path : List Text)
    → deep rest path ≡ true
    → (skipped : List Text) × (left : List Text) × (path ≡ skipped ++ left) × (rest left ≡ true)
deep-split rest [] h = ([], [], refl, h)
deep-split rest (part ∷ path) h = elim (Bool-cases (rest (part ∷ path))) [
  | inl e ↦ ([], part ∷ path, refl, e)
  | inr e ↦
      let (skipped, left, p, q) = deep-split rest path (ground arith) in
      (part ∷ skipped, left, ap (λ t. part ∷ t) p, q)
]

shallow-first :
    (first : Text → Bool) (rest : List Text → Bool) (path : List Text)
    → shallow first rest path ≡ true
    → (part : Text) × (left : List Text) × (path ≡ part ∷ left)
      × (first part ≡ true)
      × (rest left ≡ true)
shallow-first first rest [] h = cc
shallow-first first rest (part ∷ path) h = (part, path, refl, ground arith, ground arith)

Globs-matches : (pattern path : List Text) → Globs pattern path → matches pattern path ≡ true
unfolding matches
Globs-matches [] [] nothing = refl
Globs-matches (first ∷ remaining) (part ∷ path) (one e m g) =
    rw e (ground (arith, component_matches-means first part, Globs-matches remaining path g))
Globs-matches _ _ (several {first} {remaining} {path} e skipped g) =
    rw e (deep-append (matches remaining) skipped path (Globs-matches remaining path g))

matches-Globs : (pattern path : List Text) → matches pattern path ≡ true → Globs pattern path
unfolding matches
matches-Globs [] [] h = nothing
matches-Globs [] (part ∷ path) h = cc
matches-Globs (first ∷ remaining) path h = elim (Bool-cases (first == codes "**")) [
  | inl e ↦
      let (skipped, left, p, q) = deep-split (matches remaining) path (rw e at h) in
      rw p (several e skipped (matches-Globs remaining left q))
  | inr e ↦
      let (part, rest, p, m, q) =
        shallow-first (component_matches first) (matches remaining) path (rw e at h) in
      rw p (one e (sym (component_matches-means first part) ∙ m) (matches-Globs remaining rest q))
]

-- A glob matches a path exactly where its parts between slashes stand for the parts of the path.
pub path_glob_matches-Globs :
    (pattern path : Text)
    → (path_glob_matches pattern path ≡ true)
      ↔ Globs (split_on (λ c. c =ℕ= b'/') pattern) (split_on (λ c. c =ℕ= b'/') path)
unfolding path_glob_matches
path_glob_matches-Globs pattern path =
    let parts = split_on (λ c. c =ℕ= b'/') pattern in
    let names = split_on (λ c. c =ℕ= b'/') path in
    (matches-Globs parts names, Globs-matches parts names)
