-- ===== src/Config/Generators/Remaining.antt =====
-- crates/jman-config/src/lib.rs: how many generators the search for a cycle has not completed.
use jman.Base.{
  ℕ, suc, ◌+◌, Text, text_eq, true, false, List, [], ◌∷◌, if◌then◌else◌, all_of, contains, length,
  arith, ◌≡◌, refl,
}
use jman.Config.Generators.{Generators, names, incomplete}

-- No name stands twice.
abbrev pub HasDistinctNames : Generators → Type 0
HasDistinctNames [] = Unit
HasDistinctNames ((n, g) ∷ generators) =
    (contains (names generators) n ≡ false) × HasDistinctNames generators

pub remaining : List Text → Generators → ℕ
remaining complete [] = 0
remaining complete ((n, g) ∷ generators) =
    (if contains complete n then 0 else 1) + remaining complete generators

pub remaining-absent :
    (complete : List Text) (gs : Generators) (n : Text)
    → contains (names gs) n ≡ false
    → remaining (n ∷ complete) gs ≡ remaining complete gs
unfolding remaining
remaining-absent complete [] n h = refl
remaining-absent complete ((m, g) ∷ gs) n h = ground (arith, remaining-absent complete gs n)

pub remaining-insert :
    (complete : List Text) (gs : Generators) (n : Text)
    → HasDistinctNames gs
    → contains (names gs) n ≡ true
    → contains complete n ≡ false
    → remaining complete gs ≡ suc (remaining (n ∷ complete) gs)
unfolding remaining
remaining-insert complete [] n d h k = cc
remaining-insert complete ((m, g) ∷ gs) n d h k =
    ground (arith, remaining-insert complete gs n d.1, remaining-absent complete gs n)

pub remaining-nothing : (gs : Generators) → 0 + remaining [] gs ≡ length gs
unfolding remaining
remaining-nothing [] = omega arith
remaining-nothing ((n, g) ∷ gs) = omega (arith, remaining-nothing gs)

pub remaining-zero :
    (complete : List Text) (gs : Generators)
    → remaining complete gs ≡ 0
    → all_of (contains complete) (names gs) ≡ true
unfolding remaining
remaining-zero complete [] h = refl
remaining-zero complete ((n, g) ∷ gs) h = ground (arith, remaining-zero complete gs)

pub length-incomplete :
    (complete : List Text) (gs : Generators)
    → length (incomplete complete gs) ≡ remaining complete gs
unfolding incomplete remaining
length-incomplete complete [] = refl
length-incomplete complete ((n, g) ∷ gs) = ground (arith, length-incomplete complete gs)
