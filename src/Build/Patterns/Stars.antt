-- ===== src/Build/Patterns/Stars.antt =====
-- crates/jman-build/src/lib.rs: what the last `*` of `wildcard_matches` still allows.
use mathlib.Core.List.{append_assoc}
use jman.Base.{
  ◌≤◌, Text, Bool, true, false, none, some, [], ◌∷◌, ◌++◌, ◌||◌, arith, ◌≡◌, refl, ap, ◌∙◌, sym,
  length, length-append, Lacks,
}
use jman.Build.Patterns.{is_star, tail, Star}
use jman.Build.Patterns.Meaning.{some_tail, means, some_tail-append, some_tail-split, means-append}

-- What the remembered star still allows: a match behind at least one byte more.
unfoldable pub alternative : Star → Bool
alternative none = false
alternative (some (after, retry)) = some_tail (means after) (tail retry)

-- Since the star as many tokens as bytes were passed, and none of them was a star.
unfoldable pub IsBehind : Text → Text → Star → Type 0
IsBehind pattern value none = Unit
IsBehind pattern value (some (after, retry)) =
    (mid : Text) × (w : Text) × (after ≡ mid ++ pattern)
    × (retry ≡ w ++ value)
    × (length w ≡ length mid)
    × Lacks is_star mid

split-append :
    (w value u y : Text) → w ++ value ≡ u ++ y → length w ≤ length u → (z : Text) × (value ≡ z ++ y)
split-append [] value u y e h = (u, e)
split-append (c ∷ w) value [] y e h = absurd (omega (arith, h))
split-append (c ∷ w) value (d ∷ u) y e h = split-append w value u y (cc) (omega (arith, h))

tail-append : (s a b : Text) → tail s ≡ a ++ b → (x : Text) × (s ≡ x ++ b)
tail-append [] a b e = (a, e)
tail-append (c ∷ s) a b e = (c ∷ a, ap (λ t. c ∷ t) e)

alternative-means :
    (pattern value mid w : Text)
    → length w ≡ length mid
    → Lacks is_star mid
    → some_tail (means (mid ++ pattern)) (tail (w ++ value)) ≡ true
    → some_tail (means pattern) value ≡ true
alternative-means pattern value mid w k l h =
    let (a, b, e, m) = some_tail-split (means (mid ++ pattern)) (tail (w ++ value)) h in
    let (a', e') = tail-append (w ++ value) a b e in
    let (x, y, f, n, m') = means-append mid pattern b l m in
    let (z, g) =
      split-append w value (a' ++ x) y (e' ∙ (ap (λ t. a' ++ t) f ∙ sym (append_assoc a' x y)))
        (omega (arith, length-append a' x, n, k)) in
    rw g (some_tail-append (means pattern) z y m')

-- A match behind the remembered star is one behind the present place.
pub alternative-IsBehind :
    (pattern value : Text) (star : Star)
    → IsBehind pattern value star
    → alternative star ≡ true
    → some_tail (means pattern) value ≡ true
unfolding IsBehind alternative
alternative-IsBehind pattern value none b h = cc
alternative-IsBehind pattern value (some (after, retry)) (mid, w, e, f, k, l) h =
    alternative-means pattern value mid w k l (rw (e, f) at h)

pub some_tail-twice :
    (f : Text → Bool) (s : Text) → some_tail (some_tail f) s ≡ true → some_tail f s ≡ true
some_tail-twice f [] h = h
some_tail-twice f (c ∷ s) h = ground (arith, some_tail-twice f s)

pub some_tail-tail : (f : Text → Bool) (s : Text) → some_tail f s ≡ (f s || some_tail f (tail s))
some_tail-tail f [] = ground arith
some_tail-tail f (c ∷ s) = refl

pub absorb : (a b : Bool) → (a ≡ true → b ≡ true) → b ≡ (b || a)
absorb a b h = ground (arith, h)
