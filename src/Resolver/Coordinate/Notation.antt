-- ===== src/Resolver/Coordinate/Notation.antt =====
-- crates/jman-resolver/src/model.rs: `Coordinate::parse` against the notation that is displayed.
use jman.Base.{
  Text, codes, text_eq, false, Option, none, some, List, [], ◌∷◌, ok, ◌==◌, is_empty, split_on,
  split_on-append, split_on_whole, split_on-AllLack, Lacks, AllLack, arith, ◌≡◌, ap, ◌∙◌,
  Bool-cases, inl, inr,
}
use jman.Resolver.Coordinate.{
  Coordinate, is_colon, parse, parse_parts, display, display_classified, ◌<:>◌, jar,
}

-- A part that can stand between colons.
abbrev pub IsPart : Text → Type 0
IsPart s = (is_empty s ≡ false) × Lacks is_colon s

abbrev pub IsPart? : Option Text → Type 0
IsPart? none = Unit
IsPart? (some s) = IsPart s

pub record IsWritable (c : Coordinate) : Type 0 where
  pub group_part : IsPart c.group
  pub artifact_part : IsPart c.artifact
  pub version_part : IsPart c.version
  pub extension_part : IsPart c.extension
  pub classifier_part : IsPart? c.classifier

-- What is displayed splits at its own colons.
pub split-part :
    (s rest : Text) → Lacks is_colon s → split_on is_colon (s <:> rest) ≡ s ∷ split_on is_colon rest
split-part s rest h = split_on-append is_colon s rest b':' h (cc)

split-three :
    (a b c : Text)
    → Lacks is_colon a
    → Lacks is_colon b
    → Lacks is_colon c
    → split_on is_colon (a <:> b <:> c) ≡ a ∷ b ∷ c ∷ []
split-three a b c ha hb hc =
    split-part a _ ha ∙ ap (◌∷◌ a) (split-part b _ hb ∙ ap (◌∷◌ b) (split_on_whole is_colon c hc))

pub split-four :
    (a b c d : Text)
    → Lacks is_colon a
    → Lacks is_colon b
    → Lacks is_colon c
    → Lacks is_colon d
    → split_on is_colon (a <:> b <:> c <:> d) ≡ a ∷ b ∷ c ∷ d ∷ []
split-four a b c d ha hb hc hd = split-part a _ ha ∙ ap (◌∷◌ a) (split-three b c d hb hc hd)

split-five :
    (a b c d e : Text)
    → Lacks is_colon a
    → Lacks is_colon b
    → Lacks is_colon c
    → Lacks is_colon d
    → Lacks is_colon e
    → split_on is_colon (a <:> b <:> c <:> d <:> e) ≡ a ∷ b ∷ c ∷ d ∷ e ∷ []
split-five a b c d e ha hb hc hd he =
    split-part a _ ha ∙ ap (◌∷◌ a) (split-four b c d e hb hc hd he)

parse-display_classified :
    (c : Coordinate) (k : Option Text)
    → IsWritable (record c { classifier = k })
    → parse (display_classified c k) ≡ ok (record c { classifier = k })
unfolding parse display jar
parse-display_classified c none w = elim (Bool-cases (c.extension == codes "jar")) [
  | inl e ↦
      rw
        (
          e,
          split-three c.group c.artifact c.version w.group_part.1 w.artifact_part.1
              w.version_part.1,
        )
        (ground arith)
  | inr e ↦
      rw
        (
          e,
          split-four c.group c.artifact c.extension c.version w.group_part.1 w.artifact_part.1
              w.extension_part.1 w.version_part.1,
        )
        (ground arith)
]
parse-display_classified c (some k) w =
    rw
      (split-five c.group c.artifact c.extension k c.version w.group_part.1 w.artifact_part.1
        w.extension_part.1 w.classifier_part.1 w.version_part.1)
      (ground arith)

-- Displaying a coordinate whose fields are not empty and hold no colon, and parsing the text,
-- gives the coordinate back: the default extension and an absent classifier included.
pub parse-display : (c : Coordinate) → IsWritable c → parse (display c) ≡ ok c
unfolding display
parse-display c w = parse-display_classified c c.classifier w

parse_parts-IsWritable :
    (value : Text) (parts : List Text) (c : Coordinate)
    → AllLack is_colon parts
    → parse_parts value parts ≡ ok c
    → IsWritable c
unfolding parse_parts jar
parse_parts-IsWritable value [] c l h = cc
parse_parts-IsWritable value (a ∷ []) c l h = cc
parse_parts-IsWritable value (a ∷ b ∷ []) c l h = cc
parse_parts-IsWritable value (g ∷ a ∷ v ∷ []) c l h = ground arith
parse_parts-IsWritable value (g ∷ a ∷ e ∷ v ∷ []) c l h = ground arith
parse_parts-IsWritable value (g ∷ a ∷ e ∷ k ∷ v ∷ []) c l h = ground arith
parse_parts-IsWritable value (a ∷ b ∷ d ∷ e ∷ f ∷ g ∷ r) c l h = cc

-- A text that parses names a coordinate with no empty field and no colon in a field, so that
-- displaying it and parsing again gives the same coordinate.
pub parse-display-parse : (s : Text) (c : Coordinate) → parse s ≡ ok c → parse (display c) ≡ ok c
unfolding parse
parse-display-parse s c h =
    parse-display c
      (parse_parts-IsWritable s (split_on is_colon s) c (split_on-AllLack is_colon s) h)
