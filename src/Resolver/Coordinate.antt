-- ===== src/Resolver/Coordinate.antt =====
-- crates/jman-resolver/src/model.rs: `Coordinate`, its notation and its keys.
pub mod Notation
pub mod Keys
use mathlib.Core.Option
use jman.Base.{
  ℕ, Text, codes, text_eq, Bool, Option, none, some, List, [], ◌∷◌, ◌++◌, map, ok, err, ◌==◌,
  if◌then◌else◌, not, is_empty, all_of, split_on, ◌=ℕ=◌,
}
use jman.Resolver.Error.{invalid_coordinate, Fallible}

pub record Coordinate : Type 0 where
  pub group : Text
  pub artifact : Text
  pub version : Text
  pub extension : Text
  pub classifier : Option Text

-- `Coordinate::pom`
unfoldable pub pom : Text → Text → Text → Coordinate
pom group artifact version = record {
  group = group;
  artifact = artifact;
  version = version;
  extension = codes "pom";
  classifier = none;
}

-- `Coordinate::jar`
unfoldable pub jar : Text → Text → Text → Coordinate
jar group artifact version = record {
  group = group;
  artifact = artifact;
  version = version;
  extension = codes "jar";
  classifier = none;
}

abbrev pub is_colon : ℕ → Bool
is_colon c = c =ℕ= b':'

abbrev pub all_filled : List Text → Bool
all_filled = all_of (λ part. not (is_empty part))

-- The `match` of `Coordinate::parse` on the parts, with the whole text for its error.
unfoldable pub parse_parts : Text → List Text → Fallible Coordinate
parse_parts value (group ∷ artifact ∷ version ∷ []) =
    if all_filled (group ∷ artifact ∷ version ∷ [])
    then ok (jar group artifact version)
    else err (invalid_coordinate value)
parse_parts value (group ∷ artifact ∷ extension ∷ version ∷ []) =
    if all_filled (group ∷ artifact ∷ extension ∷ version ∷ [])
    then ok (record {
      group = group;
      artifact = artifact;
      version = version;
      extension = extension;
      classifier = none;
    })
    else err (invalid_coordinate value)
parse_parts value (group ∷ artifact ∷ extension ∷ classifier ∷ version ∷ []) =
    if all_filled (group ∷ artifact ∷ extension ∷ classifier ∷ version ∷ [])
    then ok (record {
      group = group;
      artifact = artifact;
      version = version;
      extension = extension;
      classifier = some classifier;
    })
    else err (invalid_coordinate value)
parse_parts value _ = err (invalid_coordinate value)

-- `Coordinate::parse`
unfoldable pub parse : Text → Fallible Coordinate
unfolding parse_parts
parse value = parse_parts value (split_on is_colon value)

-- `format!("{}:{}", …)`
infixr 66 ◌<:>◌
abbrev pub ◌<:>◌ : Text → Text → Text
a <:> b = a ++ (b':' ∷ b)

-- The `match` of `fmt::Display for Coordinate` on the classifier.
abbrev pub display_classified : Coordinate → Option Text → Text
display_classified c none =
    if c.extension == codes "jar"
    then c.group <:> c.artifact <:> c.version
    else c.group <:> c.artifact <:> c.extension <:> c.version
display_classified c (some classifier) =
    c.group <:> c.artifact <:> c.extension <:> classifier <:> c.version

-- `fmt::Display for Coordinate`
unfoldable pub display : Coordinate → Text
display c = display_classified c c.classifier

-- `unwrap_or_default` on a text
abbrev pub text_or_empty : Option Text → Text
text_or_empty none = []
text_or_empty (some s) = s

-- `Coordinate::ga`
unfoldable pub ga : Coordinate → Text
ga c = c.group <:> c.artifact

-- `Coordinate::management_key`
unfoldable pub management_key : Coordinate → Text
management_key c = c.group <:> c.artifact <:> c.extension <:> text_or_empty c.classifier

abbrev dashed : Option Text → Text
dashed none = []
dashed (some value) = b'-' ∷ value

-- `Coordinate::repository_path`
unfoldable pub repository_path : Coordinate → Text
repository_path c =
    map (λ character. if character =ℕ= b'.' then b'/' else character) c.group
    ++ (b'/' ∷ c.artifact
        ++ (b'/' ∷ c.version
            ++ (b'/' ∷ c.artifact
                ++ (b'-' ∷ c.version ++ (dashed c.classifier ++ (b'.' ∷ c.extension))))))
