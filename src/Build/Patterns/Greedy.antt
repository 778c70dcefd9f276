-- ===== src/Build/Patterns/Greedy.antt =====
-- crates/jman-build/src/lib.rs: the loop of `wildcard_matches`, which remembers the last `*` alone,
-- against the meaning of patterns.
use mathlib.Core.List.{append_assoc}
use jman.Base.{
  ℕ, zero, suc, ◌+◌, ◌≤◌, ◌<◌, Text, Bool, true, false, Option, none, some, [], ◌∷◌, ◌++◌, ◌||◌,
  arith, ◌≡◌, refl, ap, ◌∙◌, sym, Bool-cases, inl, inr, map, length, length-append, Lacks,
}
use jman.Build.Patterns.{is_star, fits, dotted, tail, Star, scan, budget, wildcard_matches}
use jman.Build.Patterns.Meaning.{some_tail, means, means-stars, means-star}
use jman.Build.Patterns.Stars.{
  alternative, IsBehind, alternative-IsBehind, some_tail-tail, absorb, some_tail-twice,
}

-- There is fuel for as many rounds as bytes may still be taken back.
HasRoom : ℕ → ℕ → Text → Star → Type 0
HasRoom size rounds value none = length value ≤ rounds
HasRoom size rounds value (some (after, retry)) =
    (length retry ≤ rounds) × (length after ≤ size) × Lacks is_star retry

HasRoom-length :
    (size rounds : ℕ) (pattern value : Text) (star : Star)
    → IsBehind pattern value star
    → HasRoom size rounds value star
    → length value ≤ rounds
unfolding IsBehind HasRoom
HasRoom-length size rounds pattern value none b r = r
HasRoom-length size rounds pattern value (some (after, retry)) (mid, w, e, f, k, l) (r, q, n) =
    omega (arith, r, length-append w value, ap length f)

HasRoom-next :
    (size rounds c : ℕ) (value : Text) (star : Star)
    → HasRoom size rounds (c ∷ value) star
    → HasRoom size rounds value star
unfolding HasRoom
HasRoom-next size rounds c value none r = omega (arith, r)
HasRoom-next size rounds c value (some (after, retry)) r = r

length-snoc : (c : ℕ) (w : Text) → length (w ++ (c ∷ [])) ≡ suc (length w)
length-snoc c w = omega (arith, length-append w (c ∷ []))

Lacks-snoc :
    (c : ℕ) (w : Text) → Lacks is_star w → is_star c ≡ false → Lacks is_star (w ++ (c ∷ []))
Lacks-snoc c [] l h = ground arith
Lacks-snoc c (d ∷ w) l h = ground (arith, Lacks-snoc c w)

IsBehind-next :
    (token c : ℕ) (pattern value : Text) (star : Star)
    → is_star token ≡ false
    → IsBehind (token ∷ pattern) (c ∷ value) star
    → IsBehind pattern value star
unfolding IsBehind
IsBehind-next token c pattern value none h b = tt
IsBehind-next token c pattern value (some (after, retry)) h (mid, w, e, f, k, l) = (
  mid ++ (token ∷ []),
  w ++ (c ∷ []),
  e ∙ sym (append_assoc mid (token ∷ []) pattern),
  f ∙ sym (append_assoc w (c ∷ []) value),
  omega (arith, length-snoc token mid, length-snoc c w, k),
  Lacks-snoc token mid l h,
)

IsBehind-here : (pattern value : Text) → IsBehind pattern value (some (pattern, value))
unfolding IsBehind
IsBehind-here pattern value = ([], [], refl, refl, refl, refl)

-- A round less where a byte is taken back.
HasRoom-again :
    (size rounds c : ℕ) (pattern value after retry : Text)
    → IsBehind pattern (c ∷ value) (some (after, retry))
    → HasRoom size (suc rounds) (c ∷ value) (some (after, retry))
    → HasRoom size rounds (tail retry) (some (after, tail retry))
unfolding IsBehind HasRoom
HasRoom-again size rounds c pattern value after [] b (r, q, n) = (omega arith, q, refl)
HasRoom-again size rounds c pattern value after (d ∷ retry) b (r, q, n) =
    (omega (arith, r), q, ground arith)

HasRoom-pos :
    (size c : ℕ) (pattern value : Text) (star : Star)
    → IsBehind pattern (c ∷ value) star
    → ¬ HasRoom size 0 (c ∷ value) star
HasRoom-pos size c pattern value star b r =
    omega (arith, HasRoom-length size 0 pattern (c ∷ value) star b r)

again-means :
    (after retry : Text) (m : Option Bool)
    → m ≡ some (means after (tail retry) || alternative (some (after, tail retry)))
    → m ≡ some (alternative (some (after, retry)))
unfolding alternative
again-means after retry m h = h ∙ ap some (sym (some_tail-tail (means after) (tail retry)))

some_tail-ext :
    (f g : Text → Bool) (s : Text) → ((t : Text) → f t ≡ g t) → some_tail f s ≡ some_tail g s
some_tail-ext f g [] k = k []
some_tail-ext f g (c ∷ s) k = ground (arith, k (c ∷ s), some_tail-ext f g s k)

-- At a star no match is lost when the star before it is forgotten.
star-forgets :
    (token c : ℕ) (pattern value : Text) (star : Star)
    → is_star token ≡ true
    → IsBehind (token ∷ pattern) (c ∷ value) star
    → alternative star ≡ true
    → some_tail (means pattern) (c ∷ value) ≡ true
star-forgets token c pattern value star e b h = some_tail-twice (means pattern) (c ∷ value) (
    sym (
      some_tail-ext (means (token ∷ pattern)) (some_tail (means pattern)) (c ∷ value)
        (λ s. means-star token pattern s e))
    ∙ alternative-IsBehind (token ∷ pattern) (c ∷ value) star b h)

HasRoom-size :
    (size rounds : ℕ) (value after retry : Text)
    → HasRoom size rounds value (some (after, retry))
    → length after ≤ size
unfolding HasRoom
HasRoom-size size rounds value after retry (r, q, n) = q

HasRoom-Lacks :
    (size rounds : ℕ) (value after retry : Text)
    → HasRoom size rounds value (some (after, retry))
    → Lacks is_star (tail retry)
unfolding HasRoom
HasRoom-Lacks size rounds value after [] (r, q, n) = refl
HasRoom-Lacks size rounds value after (c ∷ retry) (r, q, n) = ground arith

HasRoom-here :
    (size rounds : ℕ) (pattern value : Text)
    → length value ≤ rounds
    → length pattern ≤ size
    → Lacks is_star value
    → HasRoom size rounds value (some (pattern, value))
unfolding HasRoom
HasRoom-here size rounds pattern value h k l = (h, k, l)

again-alternative :
    (fuel : ℕ) (star : Star)
    → ((after retry : Text)
        → star ≡ some (after, retry)
        → scan fuel after (tail retry) (some (after, tail retry))
          ≡ some (means after (tail retry) || alternative (some (after, tail retry))))
    → elim star as (λ x. Option Bool) [
      | none ↦ some false
      | some (after, retry) ↦ scan fuel after (tail retry) (some (after, tail retry))
    ]
      ≡ some (alternative star)
again-alternative fuel none h = unfold alternative in refl
again-alternative fuel (some (after, retry)) h =
    again-means after retry (scan fuel after (tail retry) (some (after, tail retry)))
      (h after retry refl)

scan-means :
    (fuel size rounds : ℕ) (pattern value : Text) (star : Star)
    → IsBehind pattern value star
    → HasRoom size rounds value star
    → length pattern ≤ size
    → budget rounds size + length pattern < fuel
    → Lacks is_star value
    → scan fuel pattern value star ≡ some (means pattern value || alternative star)
unfolding scan means alternative
scan-means zero size rounds pattern value star b r p h l = absurd (omega (arith, h))
scan-means (suc fuel) size rounds pattern [] star b r p h l = ap some (
    sym (means-stars pattern)
    ∙ absorb (alternative star) (means pattern []) (alternative-IsBehind pattern [] star b))
scan-means (suc fuel) size rounds [] (c ∷ value) none b r p h l = refl
scan-means (suc fuel) size zero [] (c ∷ value) star b r p h l =
    absurd (HasRoom-pos size c [] value star b r)
scan-means (suc fuel) size zero (token ∷ pattern) (c ∷ value) star b r p h l =
    absurd (HasRoom-pos size c (token ∷ pattern) value star b r)
scan-means (suc fuel) size (suc rounds) [] (c ∷ value) (some (after, retry)) b r p h l =
    again-means after retry (scan fuel after (tail retry) (some (after, tail retry))) (
      scan-means fuel size rounds after (tail retry) (some (after, tail retry))
        (IsBehind-here after (tail retry)) (HasRoom-again size rounds c [] value after retry b r)
        (HasRoom-size size (suc rounds) (c ∷ value) after retry r)
        (omega (arith, h, HasRoom-size size (suc rounds) (c ∷ value) after retry r))
        (HasRoom-Lacks size (suc rounds) (c ∷ value) after retry r))
scan-means (suc fuel) size (suc rounds) (token ∷ pattern) (c ∷ value) star b r p h l =
    elim (Bool-cases (fits token c)) [
      | inl e ↦ ground (
        arith,
        scan-means fuel size (suc rounds) pattern value star
            (IsBehind-next token c pattern value star (ground arith) b)
            (HasRoom-next size (suc rounds) c value star r) (omega (arith, p)) (omega (arith, h))
            (ground arith),
      )
      | inr e ↦ elim (Bool-cases (is_star token)) [
        | inl f ↦ ground (
          arith,
          absorb (alternative star) (some_tail (means pattern) (c ∷ value))
              (star-forgets token c pattern value star f b),
          scan-means fuel size (suc rounds) pattern (c ∷ value) (some (pattern, c ∷ value))
              (IsBehind-here pattern (c ∷ value))
              (HasRoom-here size (suc rounds) pattern (c ∷ value)
                (HasRoom-length size (suc rounds) (token ∷ pattern) (c ∷ value) star b r)
                (omega (arith, p)) l)
              (omega (arith, p)) (omega (arith, h)) l,
        )
        | inr f ↦
            rw (e, f)
              (again-alternative fuel star (λ after retry g.
                let b' = rw g at b in
                let r' = rw g at r in
                scan-means fuel size rounds after (tail retry) (some (after, tail retry))
                  (IsBehind-here after (tail retry))
                  (HasRoom-again size rounds c (token ∷ pattern) value after retry b' r')
                  (HasRoom-size size (suc rounds) (c ∷ value) after retry r')
                  (omega (arith, h, HasRoom-size size (suc rounds) (c ∷ value) after retry r'))
                  (HasRoom-Lacks size (suc rounds) (c ∷ value) after retry r')))
      ]
    ]

-- A value without a star matches exactly where the pattern means it byte by byte, a star any bytes and a
-- question mark one byte, with `/` and `\\` in the pattern as dots, and the loop always ends: the last
-- star alone decides.
pub wildcard_matches-means :
    (pattern value : Text)
    → Lacks is_star value
    → wildcard_matches pattern value ≡ some (means (map dotted pattern) value)
unfolding wildcard_matches
wildcard_matches-means pattern value l =
    let dots = map dotted pattern in
    scan-means (suc (budget (length value) (length dots) + length dots)) (length dots)
      (length value) dots value none (unfold IsBehind in tt) (unfold HasRoom in omega arith)
      (omega arith) (omega arith) l
    ∙ ap some (unfold alternative in ground arith)
