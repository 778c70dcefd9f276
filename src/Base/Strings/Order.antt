-- ===== src/Base/Strings/Order.antt =====
-- `Ord` on texts: lexicographic by code point, which is the order of their UTF-8 bytes.
use Prim.Native.Nat.{ℕ, compare, Ordering}
use mathlib.Core.Path.{◌≡◌, refl}
use mathlib.Core.List.{[], ◌∷◌}
use mathlib.Core.Bool.{Bool, true, false}
use native.Mathlib.Omega.{arith}
use jman.Base.Strings.Equality.{Text}

-- `a.cmp(b).then(next)`, for an `Ordering`
abbrev pub then_with : Ordering → Ordering → Ordering
then_with Ordering.lt next = Ordering.lt
then_with Ordering.eq next = next
then_with Ordering.gt next = Ordering.gt

abbrev pub flip : Ordering → Ordering
flip Ordering.lt = Ordering.gt
flip Ordering.eq = Ordering.eq
flip Ordering.gt = Ordering.lt

unfoldable pub text_compare : Text → Text → Ordering
text_compare [] [] = Ordering.eq
text_compare [] (y ∷ ys) = Ordering.lt
text_compare (x ∷ xs) [] = Ordering.gt
text_compare (x ∷ xs) (y ∷ ys) = then_with (compare x y) (text_compare xs ys)

pub compare-flip : (a b : ℕ) → compare b a ≡ flip (compare a b)
compare-flip a b = ground arith

pub text_compare_self : (a : Text) → text_compare a a ≡ Ordering.eq
unfolding text_compare
text_compare_self [] = refl
text_compare_self (x ∷ xs) = ground (arith, text_compare_self xs)

pub text_compare-flip : (a b : Text) → text_compare b a ≡ flip (text_compare a b)
unfolding text_compare
text_compare-flip [] [] = refl
text_compare-flip [] (y ∷ ys) = refl
text_compare-flip (x ∷ xs) [] = refl
text_compare-flip (x ∷ xs) (y ∷ ys) = ground (arith, text_compare-flip xs ys)

pub text_compare-eq : (a b : Text) → text_compare a b ≡ Ordering.eq → a ≡ b
unfolding text_compare
text_compare-eq [] [] h = refl
text_compare-eq [] (y ∷ ys) h = cc
text_compare-eq (x ∷ xs) [] h = cc
text_compare-eq (x ∷ xs) (y ∷ ys) h = ground (arith, text_compare-eq xs ys)

-- Two outcomes that do not contradict one another in a chain.
abbrev pub chain : Ordering → Ordering → Bool
chain Ordering.lt Ordering.gt = false
chain Ordering.gt Ordering.lt = false
chain _ _ = true

-- The outcome over a chain of two comparisons, neither of which turns the other round.
pub text_compare-chain :
    (a b c : Text) (o p : Ordering)
    → text_compare a b ≡ o
    → text_compare b c ≡ p
    → chain o p ≡ true
    → text_compare a c ≡ then_with o p
unfolding text_compare
text_compare-chain [] [] c o p h k e = ground arith
text_compare-chain [] (y ∷ ys) [] o p h k e = ground arith
text_compare-chain [] (y ∷ ys) (z ∷ zs) o p h k e = ground arith
text_compare-chain (x ∷ xs) [] [] o p h k e = ground arith
text_compare-chain (x ∷ xs) [] (z ∷ zs) o p h k e = ground arith
text_compare-chain (x ∷ xs) (y ∷ ys) [] o p h k e = ground arith
text_compare-chain (x ∷ xs) (y ∷ ys) (z ∷ zs) o p h k e =
    ground (arith, text_compare-chain xs ys zs (text_compare xs ys) (text_compare ys zs) refl refl)
