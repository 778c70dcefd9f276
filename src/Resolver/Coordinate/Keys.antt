-- ===== src/Resolver/Coordinate/Keys.antt =====
-- crates/jman-resolver/src/model.rs: the keys under which coordinates are looked up.
use jman.Base.{[], ◌∷◌, split_on, Lacks, ◌≡◌, ◌↔◌, ap, sym, ◌∙◌}
use jman.Resolver.Coordinate.{Coordinate, is_colon, management_key, text_or_empty}
use jman.Resolver.Coordinate.Notation.{split-four}

pub record HasNoColon (c : Coordinate) : Type 0 where
  pub group_lacks : Lacks is_colon c.group
  pub artifact_lacks : Lacks is_colon c.artifact
  pub extension_lacks : Lacks is_colon c.extension
  pub classifier_lacks : Lacks is_colon (text_or_empty c.classifier)

split-key :
    (c : Coordinate)
    → HasNoColon c
    → split_on is_colon (management_key c)
      ≡ c.group ∷ c.artifact ∷ c.extension ∷ text_or_empty c.classifier ∷ []
unfolding management_key
split-key c h =
    split-four c.group c.artifact c.extension (text_or_empty c.classifier) h.group_lacks
      h.artifact_lacks h.extension_lacks h.classifier_lacks

-- Two coordinates without a colon in the fields of the key have the same management key exactly
-- when they agree in group, artifact, extension and classifier, an absent classifier being the
-- same as an empty one. The version plays no part.
pub management_key-eq_iff :
    (c d : Coordinate)
    → HasNoColon c
    → HasNoColon d
    → (management_key c ≡ management_key d) ↔ (
        (c.group ≡ d.group)
        × (c.artifact ≡ d.artifact)
        × (c.extension ≡ d.extension)
        × (text_or_empty c.classifier ≡ text_or_empty d.classifier))
unfolding management_key
management_key-eq_iff c d hc hd = (
  λ e.
      let parts = sym (split-key c hc) ∙ ap (split_on is_colon) e ∙ split-key d hd in
      (cc parts, cc parts, cc parts, cc parts),
  λ same. cc,
)
