-- ===== src/Build/Patterns/Meaning.antt =====
-- What a pattern means: `?` is any one byte, `*` any bytes, and every other byte itself.
use jman.Base.{
  ℕ, Text, Bool, true, false, [], ◌∷◌, ◌++◌, ◌||◌, ◌&&◌, if◌then◌else◌, arith, ◌≡◌, refl, ◌∙◌,
  is_empty, Bool-cases, inl, inr, ap, length, all_of, Lacks, suc,
}
use jman.Build.Patterns.{is_star, fits}

-- Some rest of the text passes the test.
abbrev pub some_tail : (Text → Bool) → Text → Bool
some_tail f [] = f []
some_tail f (c ∷ s) = f (c ∷ s) || some_tail f s

abbrev pub one_byte : (ℕ → Bool) → (Text → Bool) → Text → Bool
one_byte p f [] = false
one_byte p f (c ∷ s) = p c && f s

unfoldable pub means : Text → Text → Bool
means [] s = is_empty s
means (token ∷ pattern) s =
    if is_star token then some_tail (means pattern) s else one_byte (fits token) (means pattern) s

pub some_tail-append : (f : Text → Bool) (a b : Text) → f b ≡ true → some_tail f (a ++ b) ≡ true
some_tail-append f [] [] h = h
some_tail-append f [] (c ∷ b) h = ground arith
some_tail-append f (c ∷ a) b h = ground (arith, some_tail-append f a b)

pub some_tail-split :
    (f : Text → Bool) (s : Text)
    → some_tail f s ≡ true
    → (a : Text) × (b : Text) × (s ≡ a ++ b) × (f b ≡ true)
some_tail-split f [] h = ([], [], refl, h)
some_tail-split f (c ∷ s) h = elim (Bool-cases (f (c ∷ s))) [
  | inl e ↦ ([], c ∷ s, refl, e)
  | inr e ↦
      let (a, b, p, q) = some_tail-split f s (ground arith) in (c ∷ a, b, ap (λ t. c ∷ t) p, q)
]

pub means-stars : (pattern : Text) → means pattern [] ≡ all_of is_star pattern
unfolding means
means-stars [] = refl
means-stars (token ∷ pattern) = ground (arith, means-stars pattern)

fits_first :
    (p : ℕ → Bool) (f : Text → Bool) (s : Text)
    → one_byte p f s ≡ true
    → (c : ℕ) × (t : Text) × (s ≡ c ∷ t) × (f t ≡ true)
fits_first p f [] h = cc
fits_first p f (c ∷ t) h = (c, t, refl, ground arith)

-- Without a star each token takes one byte.
pub means-append :
    (mid pattern s : Text)
    → Lacks is_star mid
    → means (mid ++ pattern) s ≡ true
    → (x : Text) × (y : Text) × (s ≡ x ++ y) × (length x ≡ length mid) × (means pattern y ≡ true)
unfolding means
means-append [] pattern s l h = ([], s, refl, refl, h)
means-append (token ∷ mid) pattern s l h =
    let (c, t, e, h') = fits_first (fits token) (means (mid ++ pattern)) s (ground arith) in
    let (x, y, e', k, h'') = means-append mid pattern t (ground arith) h' in
    (c ∷ x, y, e ∙ ap (λ u. c ∷ u) e', ap suc k, h'')

pub means-star :
    (token : ℕ) (pattern s : Text)
    → is_star token ≡ true
    → means (token ∷ pattern) s ≡ some_tail (means pattern) s
unfolding means
means-star token pattern s e = rw e refl
