-- ===== src/Resolver/Version/Order.antt =====
-- crates/jman-resolver/src/version.rs: `compare_versions` is a total preorder.
use jman.Base.{
  ℕ, Text, true, List, [], ◌∷◌, arith, ◌≡◌, refl, Ordering, then_with, flip, chain,
  text_compare_self, text_compare-flip, text_compare-chain,
}
use jman.Resolver.Version.{
  QualifierKey, numeric_components, qualifier_key, compare_numbers, compare_keys, compare_parsed,
  compare_versions,
}

compare_numbers_self : (a : List ℕ) → compare_numbers a a ≡ Ordering.eq
unfolding compare_numbers
compare_numbers_self [] = refl
compare_numbers_self (x ∷ a) = ground (arith, compare_numbers_self a)

compare_numbers-flip : (a b : List ℕ) → compare_numbers b a ≡ flip (compare_numbers a b)
unfolding compare_numbers
compare_numbers-flip [] [] = refl
compare_numbers-flip [] (y ∷ b) = ground (arith, compare_numbers-flip [] b)
compare_numbers-flip (x ∷ a) [] = ground (arith, compare_numbers-flip a [])
compare_numbers-flip (x ∷ a) (y ∷ b) = ground (arith, compare_numbers-flip a b)

compare_numbers-chain :
    (a b c : List ℕ) (o p : Ordering)
    → compare_numbers a b ≡ o
    → compare_numbers b c ≡ p
    → chain o p ≡ true
    → compare_numbers a c ≡ then_with o p
unfolding compare_numbers
compare_numbers-chain [] [] [] o p h k e = ground arith
compare_numbers-chain [] [] (z ∷ c) o p h k e =
    ground (arith, compare_numbers-chain [] [] c _ _ refl refl)
compare_numbers-chain [] (y ∷ b) [] o p h k e =
    ground (arith, compare_numbers-chain [] b [] _ _ refl refl)
compare_numbers-chain [] (y ∷ b) (z ∷ c) o p h k e =
    ground (arith, compare_numbers-chain [] b c _ _ refl refl)
compare_numbers-chain (x ∷ a) [] [] o p h k e =
    ground (arith, compare_numbers-chain a [] [] _ _ refl refl)
compare_numbers-chain (x ∷ a) [] (z ∷ c) o p h k e =
    ground (arith, compare_numbers-chain a [] c _ _ refl refl)
compare_numbers-chain (x ∷ a) (y ∷ b) [] o p h k e =
    ground (arith, compare_numbers-chain a b [] _ _ refl refl)
compare_numbers-chain (x ∷ a) (y ∷ b) (z ∷ c) o p h k e =
    ground (arith, compare_numbers-chain a b c _ _ refl refl)

compare_keys-chain :
    (a b c : QualifierKey) (o p : Ordering)
    → compare_keys a b ≡ o
    → compare_keys b c ≡ p
    → chain o p ≡ true
    → compare_keys a c ≡ then_with o p
unfolding compare_keys
compare_keys-chain a b c o p h k e =
    ground (arith, text_compare-chain a.text b.text c.text _ _ refl refl)

compare_keys-flip : (a b : QualifierKey) → compare_keys b a ≡ flip (compare_keys a b)
unfolding compare_keys
compare_keys-flip a b = ground (arith, text_compare-flip a.text b.text)

compare_parsed_self : (n : List ℕ) (k : QualifierKey) → compare_parsed n k n k ≡ Ordering.eq
unfolding compare_parsed
compare_parsed_self n k = ground (arith, compare_numbers_self n, text_compare_self k.text)

compare_parsed-flip :
    (n : List ℕ) (k : QualifierKey) (m : List ℕ) (j : QualifierKey)
    → compare_parsed m j n k ≡ flip (compare_parsed n k m j)
unfolding compare_parsed
compare_parsed-flip n k m j =
    ground (arith, compare_numbers-flip n m, text_compare-flip k.text j.text)

compare_parsed-chain :
    (n : List ℕ) (i : QualifierKey) (m : List ℕ) (j : QualifierKey) (l : List ℕ) (k : QualifierKey)
    (o p : Ordering)
    → compare_parsed n i m j ≡ o
    → compare_parsed m j l k ≡ p
    → chain o p ≡ true
    → compare_parsed n i l k ≡ then_with o p
unfolding compare_parsed
compare_parsed-chain n i m j l k o p h e c = ground (
  arith,
  compare_numbers-chain n m l (compare_numbers n m) (compare_numbers m l) refl refl,
  compare_keys-chain i j k (compare_keys i j) (compare_keys j k) refl refl,
)

-- A version is equal to itself, and comparing the other way round turns the outcome round.
pub compare_versions-flip :
    (a b : Text)
    → (compare_versions a a ≡ Ordering.eq) × (compare_versions b a ≡ flip (compare_versions a b))
unfolding compare_versions
compare_versions-flip a b = (
  compare_parsed_self (numeric_components a) (qualifier_key a),
  compare_parsed-flip (numeric_components a) (qualifier_key a) (numeric_components b)
      (qualifier_key b),
)

-- In a chain of comparisons that do not turn one another round the stricter outcome holds of the
-- ends: the order is transitive, and versions that compare as equal stand in the same place.
pub compare_versions-chain :
    (a b c : Text) (o p : Ordering)
    → compare_versions a b ≡ o
    → compare_versions b c ≡ p
    → chain o p ≡ true
    → compare_versions a c ≡ then_with o p
unfolding compare_versions
compare_versions-chain a b c o p h k e =
    compare_parsed-chain (numeric_components a) (qualifier_key a) (numeric_components b)
      (qualifier_key b) (numeric_components c) (qualifier_key c) o p h k e
