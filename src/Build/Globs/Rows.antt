-- ===== src/Build/Globs/Rows.antt =====
-- crates/jman-build/src/lib.rs: the rows of `component_matches`, whose places stand for the
-- prefixes of the value, find what the pattern means.
use jman.Base.{
  ℕ, suc, Text, Bool, true, false, List, [], ◌∷◌, ◌=ℕ=◌, ◌||◌, ◌&&◌, arith, ◌≡◌, refl, ap, ◌∙◌, sym,
  Bool-cases, inl, inr, is_empty, length,
}
use jman.Build.Patterns.{is_star, fits}
use jman.Build.Patterns.Meaning.{some_tail, one_byte, means, means-star}
use jman.Build.Globs.{
  no_more, first_row, star_row, but_last, literal_row, next_row, last_place, rows,
  component_matches,
}

-- From some place of the row the rest of the value passes the test.
reaches : (Text → Bool) → List Bool → Text → Bool
reaches f [] value = false
reaches f (here ∷ row) [] = here && f []
reaches f (here ∷ row) (c ∷ value) = (here && f (c ∷ value)) || reaches f row value

reaches-no_more : (f : Text → Bool) (s value : Text) → reaches f (no_more s) value ≡ false
unfolding reaches
reaches-no_more f [] value = refl
reaches-no_more f (d ∷ s) [] = refl
reaches-no_more f (d ∷ s) (c ∷ value) = reaches-no_more f s value

-- A row has a place more than the value has bytes.
Fits : List Bool → Text → Type 0
Fits row value = length row ≡ suc (length value)

reaches-star_row :
    (f : Text → Bool) (before : Bool) (row : List Bool) (value : Text)
    → Fits row value
    → reaches f (star_row before row) value
      ≡ ((before && some_tail f value) || reaches (some_tail f) row value)
unfolding reaches Fits
reaches-star_row f before [] value h = absurd (omega (arith, h))
reaches-star_row f before (here ∷ row) [] h = ground arith
reaches-star_row f before (here ∷ row) (c ∷ value) h =
    ground (arith, reaches-star_row f (here || before) row value)

reaches-cons :
    (f : Text → Bool) (here : Bool) (row : List Bool) (value : Text)
    → reaches f (here ∷ row) value ≡ ((here && f value) || reaches f (false ∷ row) value)
unfolding reaches
reaches-cons f here row [] = ground arith
reaches-cons f here row (c ∷ value) = ground arith

reaches-but_last :
    (f : Text → Bool) (row : List Bool) (value : Text)
    → Fits row value
    → reaches f (false ∷ but_last row) value ≡ reaches (one_byte (λ c. true) f) row value
unfolding reaches Fits
reaches-but_last f [] value h = absurd (omega (arith, h))
reaches-but_last f (here ∷ []) [] h = ground arith
reaches-but_last f (here ∷ next ∷ row) [] h = absurd (omega (arith, h))
reaches-but_last f (here ∷ []) (c ∷ value) h = absurd (omega (arith, h))
reaches-but_last f (here ∷ next ∷ row) (c ∷ value) h = ground (
  arith,
  reaches-cons f here (but_last (next ∷ row)) value,
  reaches-but_last f (next ∷ row) value,
)

reaches-literal_row :
    (f : Text → Bool) (literal : ℕ) (row : List Bool) (value : Text)
    → Fits row value
    → reaches f (false ∷ literal_row literal row value) value
      ≡ reaches (one_byte (λ c. literal =ℕ= c) f) row value
unfolding reaches Fits
reaches-literal_row f literal [] value h = absurd (omega (arith, h))
reaches-literal_row f literal (here ∷ []) [] h = ground arith
reaches-literal_row f literal (here ∷ next ∷ row) [] h = absurd (omega (arith, h))
reaches-literal_row f literal (here ∷ row) (c ∷ value) h = ground (
  arith,
  reaches-cons f (here && (c =ℕ= literal)) (literal_row literal row value) value,
  reaches-literal_row f literal row value,
)

reaches-last :
    (row : List Bool) (value : Text) → Fits row value → reaches is_empty row value ≡ last_place row
unfolding reaches Fits
reaches-last [] value h = absurd (omega (arith, h))
reaches-last (here ∷ []) [] h = ground arith
reaches-last (here ∷ next ∷ row) [] h = absurd (omega (arith, h))
reaches-last (here ∷ []) (c ∷ value) h = absurd (omega (arith, h))
reaches-last (here ∷ next ∷ row) (c ∷ value) h = ground (arith, reaches-last (next ∷ row) value)

reaches-ext :
    (f g : Text → Bool) (row : List Bool) (value : Text)
    → ((t : Text) → f t ≡ g t)
    → reaches f row value ≡ reaches g row value
unfolding reaches
reaches-ext f g [] value h = refl
reaches-ext f g (here ∷ row) [] h = ground (arith, h [])
reaches-ext f g (here ∷ row) (c ∷ value) h =
    ground (arith, h (c ∷ value), reaches-ext f g row value h)

length-star_row : (before : Bool) (row : List Bool) → length (star_row before row) ≡ length row
length-star_row before [] = refl
length-star_row before (here ∷ row) = ap suc (length-star_row (here || before) row)

length-but_last : (here : Bool) (row : List Bool) → length (but_last (here ∷ row)) ≡ length row
length-but_last here [] = refl
length-but_last here (next ∷ row) = ap suc (length-but_last next row)

length-literal_row :
    (literal : ℕ) (row : List Bool) (value : Text)
    → Fits row value
    → length (literal_row literal row value) ≡ length value
unfolding Fits
length-literal_row literal [] value h = absurd (omega (arith, h))
length-literal_row literal (here ∷ row) [] h = refl
length-literal_row literal (here ∷ row) (c ∷ value) h =
    ap suc (length-literal_row literal row value (omega (arith, h)))

next_row-Fits :
    (token : ℕ) (row : List Bool) (value : Text)
    → Fits row value
    → Fits (next_row token row value) value
unfolding Fits
next_row-Fits token [] value h = absurd (omega (arith, h))
next_row-Fits token (here ∷ row) value h = ground (
  arith,
  length-star_row false (here ∷ row),
  length-but_last here row,
  length-literal_row token (here ∷ row) value (unfold Fits in h),
)

means-byte :
    (token : ℕ) (pattern s : Text)
    → is_star token ≡ false
    → means (token ∷ pattern) s ≡ one_byte (fits token) (means pattern) s
unfolding means
means-byte token pattern s e = rw e refl

one_byte_any :
    (token : ℕ) (f : Text → Bool) (s : Text)
    → (token =ℕ= b'?') ≡ true
    → one_byte (λ c. true) f s ≡ one_byte (fits token) f s
one_byte_any token f [] h = refl
one_byte_any token f (c ∷ s) h = ground arith

one_byte_literal :
    (token : ℕ) (f : Text → Bool) (s : Text)
    → (token =ℕ= b'?') ≡ false
    → one_byte (λ c. token =ℕ= c) f s ≡ one_byte (fits token) f s
one_byte_literal token f [] h = refl
one_byte_literal token f (c ∷ s) h = ground arith

reaches-next_row :
    (token : ℕ) (pattern : Text) (row : List Bool) (value : Text)
    → Fits row value
    → reaches (means pattern) (next_row token row value) value
      ≡ reaches (means (token ∷ pattern)) row value
reaches-next_row token pattern row value h = elim (Bool-cases (is_star token)) [
  | inl e ↦ rw e (
      reaches-star_row (means pattern) false row value h
      ∙ (ground arith
          ∙ reaches-ext (some_tail (means pattern)) (means (token ∷ pattern)) row value
              (λ t. sym (means-star token pattern t e))))
  | inr e ↦ elim (Bool-cases (token =ℕ= b'?')) [
    | inl q ↦
        rw (e, q)
          (reaches-but_last (means pattern) row value h
            ∙ reaches-ext (one_byte (λ c. true) (means pattern)) (means (token ∷ pattern)) row value
                (λ t. one_byte_any token (means pattern) t q ∙ sym (means-byte token pattern t e)))
    | inr q ↦
        rw (e, q)
          (reaches-literal_row (means pattern) token row value h
            ∙ reaches-ext (one_byte (λ c. token =ℕ= c) (means pattern)) (means (token ∷ pattern))
                row value
                (λ t.
                  one_byte_literal token (means pattern) t q ∙ sym (means-byte token pattern t e)))
  ]
]

rows-means :
    (pattern : Text) (row : List Bool) (value : Text)
    → Fits row value
    → last_place (rows pattern row value) ≡ reaches (means pattern) row value
rows-means [] row value h =
    sym (reaches-last row value h)
    ∙ reaches-ext is_empty (means []) row value (λ t. unfold means in refl)
rows-means (token ∷ pattern) row value h =
    rows-means pattern (next_row token row value) value (next_row-Fits token row value h)
    ∙ reaches-next_row token pattern row value h

no_more-length : (value : Text) → length (no_more value) ≡ length value
no_more-length [] = refl
no_more-length (c ∷ value) = ap suc (no_more-length value)

first_row-reaches : (f : Text → Bool) (value : Text) → reaches f (first_row value) value ≡ f value
unfolding reaches
first_row-reaches f [] = ground arith
first_row-reaches f (c ∷ value) = rw (reaches-no_more f (c ∷ value) value) (ground arith)

pub component_matches-means :
    (pattern value : Text) → component_matches pattern value ≡ means pattern value
unfolding component_matches
component_matches-means pattern value =
    rows-means pattern (first_row value) value (unfold Fits in ap suc (no_more-length value))
    ∙ first_row-reaches (means pattern) value
