-- ===== src/Resolver/Effective/Interpolation/Substitution.antt =====
-- crates/jman-resolver/src/effective.rs: `interpolate_required` on a text with one expression.
use mathlib.Core.List.{append_assoc}
use jman.Base.{
  ℕ, zero, suc, Text, true, false, Option, none, some, [], ◌∷◌, ◌++◌, ◌=ℕ=◌, ◌-◌, not, ok, err,
  length, lookup, Lacks, split_once-first, starts_with, arith, ◌≡◌, refl, ap, ◌∙◌, sym,
  all_of-append,
}
use jman.Resolver.Error.{Fallible, unresolved_property}
use jman.Resolver.Pom.{Properties}
use jman.Resolver.Effective.Interpolation.{
  after_marker, first_property, replace_from, marker_of, interpolate_rounds, interpolate_loose,
  interpolate_required,
}

-- No dollar sign.
abbrev pub IsPlain : Text → Type 0
IsPlain = Lacks (λ c. c =ℕ= b'$')

after_marker-letter :
    (c : ℕ) (s : Text) → (c =ℕ= b'$') ≡ false → after_marker (c ∷ s) ≡ after_marker s
unfolding after_marker
after_marker-letter c [] h = refl
after_marker-letter c (d ∷ s) h = ground arith

after_marker-append :
    (before s : Text) → IsPlain before → after_marker (before ++ s) ≡ after_marker s
after_marker-append [] s h = refl
after_marker-append (c ∷ before) s h =
    after_marker-letter c (before ++ s) (ground arith) ∙ after_marker-append before s (ground arith)

after_marker-plain : (s : Text) → IsPlain s → after_marker s ≡ none
after_marker-plain [] h = unfold after_marker in refl
after_marker-plain (c ∷ s) h =
    after_marker-letter c s (ground arith) ∙ after_marker-plain s (ground arith)

abbrev pub expression : Text → Text → Text
expression key after = b'$' ∷ b'{' ∷ (key ++ b'}' ∷ after)

first_property-plain : (s : Text) → IsPlain s → first_property s ≡ none
unfolding first_property
first_property-plain s h = rw (after_marker-plain s h) refl

first_property-expression :
    (before key after : Text)
    → IsPlain before
    → Lacks (λ c. c =ℕ= b'}') key
    → first_property (before ++ expression key after) ≡ some key
unfolding first_property after_marker
first_property-expression before key after b k =
    rw (after_marker-append before (expression key after) b, split_once-first b'}' key after k) refl

module _ (key value : Text) where
  replace_from-letter :
      (c : ℕ) (s : Text)
      → (c =ℕ= b'$') ≡ false
      → replace_from 0 (marker_of key) value (c ∷ s) ≡ c ∷ replace_from 0 (marker_of key) value s
  unfolding replace_from
  replace_from-letter c s h = ground arith

  replace_from-plain : (s : Text) → IsPlain s → replace_from 0 (marker_of key) value s ≡ s
  replace_from-plain [] h = unfold replace_from in refl
  replace_from-plain (c ∷ s) h =
      replace_from-letter c s (ground arith) ∙ ap (λ t. c ∷ t) (replace_from-plain s (ground arith))

  replace_from-append :
      (before s : Text)
      → IsPlain before
      → replace_from 0 (marker_of key) value (before ++ s)
        ≡ before ++ replace_from 0 (marker_of key) value s
  replace_from-append [] s h = refl
  replace_from-append (c ∷ before) s h =
      replace_from-letter c (before ++ s) (ground arith)
      ∙ ap (λ t. c ∷ t) (replace_from-append before s (ground arith))

  replace_from-skip :
      (pattern_text skipped s : Text)
      → replace_from (length skipped) pattern_text value (skipped ++ s)
        ≡ replace_from 0 pattern_text value s
  unfolding replace_from
  replace_from-skip pattern_text [] s = refl
  replace_from-skip pattern_text (c ∷ skipped) s = replace_from-skip pattern_text skipped s

starts_with-append : (p s : Text) → starts_with p (p ++ s) ≡ true
starts_with-append [] s = refl
starts_with-append (c ∷ p) s = ground (arith, starts_with-append p s)

-- The marker, with what follows it.
marker_of-append : (key after : Text) → marker_of key ++ after ≡ expression key after
marker_of-append key after = ap (λ t. b'$' ∷ b'{' ∷ t) (append_assoc key (b'}' ∷ []) after)

module _ (key value : Text) where
  replace_from-marker :
      (after : Text)
      → replace_from 0 (marker_of key) value (marker_of key ++ after)
        ≡ value ++ replace_from 0 (marker_of key) value after
  unfolding replace_from
  replace_from-marker after =
      let rest = b'{' ∷ key ++ (b'}' ∷ []) in
      rw (starts_with-append (marker_of key) after) (
        ap (λ t. value ++ t)
          (ap (λ n. replace_from n (marker_of key) value (rest ++ after))
              (let e : suc (length rest) - 1 ≡ length rest = omega arith in e)
            ∙ replace_from-skip key value (marker_of key) rest after))

  replace_from-expression :
      (before after : Text)
      → IsPlain before
      → IsPlain after
      → replace_from 0 (marker_of key) value (before ++ expression key after)
        ≡ before ++ (value ++ after)
  replace_from-expression before after b a =
      replace_from-append key value before (expression key after) b
      ∙ ap (λ t. before ++ replace_from 0 (marker_of key) value t)
          (sym (marker_of-append key after))
      ∙ ap (λ t. before ++ t)
          (replace_from-marker after ∙ ap (λ t. value ++ t) (replace_from-plain key value after a))

-- With the property's value in place of the expression, or the error that there is no such property.
abbrev pub substituted : Text → Text → Text → Option Text → Fallible Text
substituted before key after none = err (unresolved_property key (before ++ expression key after))
substituted before key after (some value) = ok (before ++ (value ++ after))

abbrev pub IsPlainValue : Option Text → Type 0
IsPlainValue none = Unit
IsPlainValue (some value) = IsPlain value

rounds-plain :
    (rounds : ℕ) (properties : Properties) (value : Text)
    → IsPlain value
    → interpolate_rounds rounds properties value ≡ value
unfolding interpolate_rounds
rounds-plain zero properties value h = refl
rounds-plain (suc rounds) properties value h =
    rw (interpolate_rounds, first_property-plain value h) refl

IsPlain-append : (a b : Text) → IsPlain a → IsPlain b → IsPlain (a ++ b)
IsPlain-append a b h k = ground (arith, all_of-append (λ c. not (c =ℕ= b'$')) a b)

module _ (before key after : Text) (properties : Properties) (b : IsPlain before)
    (k : Lacks (λ c. c =ℕ= b'}') key) where
  rounds-unknown :
      (rounds : ℕ)
      → lookup key properties ≡ none
      → interpolate_rounds (suc rounds) properties (before ++ expression key after)
        ≡ before ++ expression key after
  unfolding interpolate_rounds
  rounds-unknown rounds e =
      rw (interpolate_rounds, first_property-expression before key after b k, e) refl

  rounds-known :
      (rounds : ℕ) (value : Text)
      → lookup key properties ≡ some value
      → IsPlain after
      → IsPlain value
      → interpolate_rounds (suc rounds) properties (before ++ expression key after)
        ≡ before ++ (value ++ after)
  unfolding interpolate_rounds
  rounds-known rounds value e a v =
      rw
        (
          interpolate_rounds,
          first_property-expression before key after b k,
          e,
          replace_from-expression key value before after b a,
        )
        (rounds-plain rounds properties (before ++ (value ++ after))
          (IsPlain-append before (value ++ after) b (IsPlain-append value after v a)))

  required-looked_up :
      (o : Option Text)
      → lookup key properties ≡ o
      → IsPlain after
      → IsPlainValue o
      → interpolate_required (before ++ expression key after) properties
        ≡ substituted before key after o
  unfolding interpolate_required interpolate_loose
  required-looked_up none e a v =
      rw (rounds-unknown 31 e, first_property-expression before key after b k) refl
  required-looked_up (some value) e a v =
      rw
        (
          rounds-known 31 value e a v,
          first_property-plain (before ++ (value ++ after))
              (IsPlain-append before (value ++ after) b (IsPlain-append value after v a)),
        )
        refl

-- A text with one expression, whose key is not closed early and around which there is no dollar sign,
-- is interpolated to the text with the value of the property in its place, where the value has no
-- dollar sign, and is an error that names the property where there is none.
pub interpolate_required-expression :
    (before key after : Text) (properties : Properties)
    → IsPlain before
    → Lacks (λ c. c =ℕ= b'}') key
    → IsPlain after
    → IsPlainValue (lookup key properties)
    → interpolate_required (before ++ expression key after) properties
      ≡ substituted before key after (lookup key properties)
interpolate_required-expression before key after properties b k a v =
    required-looked_up before key after properties b k (lookup key properties) refl a v
