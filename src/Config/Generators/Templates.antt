-- ===== src/Config/Generators/Templates.antt =====
-- crates/jman-config/src/lib.rs: which templates `validate_generator_template` accepts.
use jman.Base.{
  ℕ, suc, Text, codes, text_eq, Bool, true, false, List, [], ◌∷◌, ◌++◌, ◌==◌, ◌=ℕ=◌, ◌&&◌, ◌||◌,
  not, all_of, length, split_once-first, arith, ◌≡◌, refl,
}
use jman.Config.Error.{accepted, accepted->>}
use jman.Config.Generators.{Generator, Generators}
use jman.Config.Generators.Validate.{
  dollar_at, plain, check_expression, is_known_variable, check_template,
  validate_generator_template,
}

-- A part of a template: a character, a dollar sign that is written twice, an expression.
pub data Part : Type 0 where
  letter : ℕ → Part
  dollar : Part
  variable : Text → Part

-- A letter is no dollar sign, and the text of an expression has no closing brace.
abbrev pub is_part : Part → Bool
is_part (letter c) = not (c =ℕ= b'$')
is_part dollar = true
is_part (variable v) = all_of (λ c. not (c =ℕ= b'}')) v

abbrev pub written : List Part → Text
written [] = []
written (letter c ∷ parts) = c ∷ written parts
written (dollar ∷ parts) = b'$' ∷ b'$' ∷ written parts
written (variable v ∷ parts) = b'$' ∷ b'{' ∷ (v ++ b'}' ∷ written parts)

dollar_at-letter : (c : ℕ) (s : Text) → (c =ℕ= b'$') ≡ false → dollar_at c s ≡ plain
dollar_at-letter c [] h = refl
dollar_at-letter c (d ∷ s) h = rw h refl

module _ (name : Text) (g : Generator) (generators : Generators) where
  -- Every variable is known, and `input` stands for a complete template only.
  abbrev pub is_allowed : Text → Part → Bool
  is_allowed template (letter c) = true
  is_allowed template dollar = true
  is_allowed template (variable v) =
      is_known_variable v g generators && (not (v == codes "input") || template == codes "${input}")

  check_template-skip :
      (template v after : Text)
      → check_template (suc (length v)) name template g generators (v ++ b'}' ∷ after)
        ≡ check_template 0 name template g generators after
  unfolding check_template
  check_template-skip template [] [] = refl
  check_template-skip template [] (c ∷ after) = refl
  check_template-skip template (c ∷ v) after = check_template-skip template v after

  accepted-expression :
      (template v : Text)
      → accepted (check_expression name template g generators v) ≡ is_allowed template (variable v)
  accepted-expression template v = ground arith

  accepted-rest :
      (template : Text) (parts : List Part)
      → all_of is_part parts ≡ true
      → accepted (check_template 0 name template g generators (written parts))
        ≡ all_of (is_allowed template) parts
  unfolding check_template
  accepted-rest template [] h = refl
  accepted-rest template (letter c ∷ parts) h =
      rw (dollar_at-letter c (written parts) (ground arith))
        (accepted-rest template parts (ground arith))
  accepted-rest template (dollar ∷ parts) h = accepted-rest template parts h
  accepted-rest template (variable v ∷ parts) h =
      rw
        (
          split_once-first b'}' v (written parts) (ground arith),
          check_template-skip template v (written parts),
          accepted->> (check_expression name template g generators v)
              (check_template 0 name template g generators (written parts)),
          accepted-expression template v,
          accepted-rest template parts (ground arith),
        )
        refl

  -- A template that consists of letters other than the dollar sign, doubled dollar signs, and
  -- expressions with their braces is accepted exactly when `is_known_variable` accepts every expression
  -- of it, and `input` is none of them unless `${input}` is the complete template.
  pub accepted-written :
      (parts : List Part)
      → all_of is_part parts ≡ true
      → accepted (validate_generator_template name (written parts) g generators)
        ≡ all_of (is_allowed (written parts)) parts
  unfolding validate_generator_template
  accepted-written parts h = accepted-rest (written parts) parts h
