-- ===== src/Base/Strings/Split.antt =====
-- `str::split`, and how it takes apart what was joined.
use Prim.Native.Nat.{ℕ}
use mathlib.Core.Path.{◌≡◌, refl}
use mathlib.Core.Bool.{Bool, true, false, not}
use mathlib.Core.List.{List, [], ◌∷◌, ◌++◌}
use mathlib.Core.Option.{Option, none, some}
use native.Mathlib.Omega.{arith}
use mathlib.Core.Logic.{inl, inr}
use jman.Base.Tests.{if◌then◌else◌, ◌=ℕ=◌, Bool-cases}
use jman.Base.Strings.Equality.{Text}
use jman.Base.Strings.Chars.{all_of}

-- A character in front of the first part.
abbrev pub onto_first : ℕ → List Text → List Text
onto_first c [] = (c ∷ []) ∷ []
onto_first c (part ∷ parts) = (c ∷ part) ∷ parts

-- The parts between the characters that pass the test; at least one part.
unfoldable pub split_on : (ℕ → Bool) → Text → List Text
split_on p [] = [] ∷ []
split_on p (c ∷ s) = let rest = split_on p s in if p c then [] ∷ rest else onto_first c rest

-- Parts with a separator between them.
unfoldable pub join : Text → List Text → Text
join separator [] = []
join separator (part ∷ []) = part
join separator (part ∷ next ∷ parts) = part ++ (separator ++ join separator (next ∷ parts))

-- `split_once`: before and after the first such character.
unfoldable pub split_once : ℕ → Text → Option (Text × Text)
split_once c [] = none
split_once c (d ∷ s) =
    let rest : Option (Text × Text) = elim (split_once c s) [
      | none ↦ none
      | some (before, after) ↦ some (d ∷ before, after)
    ] in
    if d =ℕ= c then some ([], s) else rest

-- No character passes the test.
abbrev pub Lacks : (ℕ → Bool) → Text → Type 0
Lacks p s = all_of (λ c. not (p c)) s ≡ true

pub split_once-first :
    (separator : ℕ) (before after : Text)
    → Lacks (λ c. c =ℕ= separator) before
    → split_once separator (before ++ separator ∷ after) ≡ some (before, after)
unfolding split_once
split_once-first separator [] after h = ground arith
split_once-first separator (c ∷ before) after h =
    ground (arith, split_once-first separator before after)

module _ (p : ℕ → Bool) where
  pub split_on_whole : (s : Text) → Lacks p s → split_on p s ≡ s ∷ []
  unfolding split_on
  split_on_whole [] h = refl
  split_on_whole (c ∷ s) h = ground (arith, split_on_whole s)

  pub split_on-append :
      (s rest : Text) (c : ℕ)
      → Lacks p s
      → p c ≡ true
      → split_on p (s ++ (c ∷ rest)) ≡ s ∷ split_on p rest
  unfolding split_on
  split_on-append [] rest c h e = ground arith
  split_on-append (d ∷ s) rest c h e = ground (arith, split_on-append s rest c)

  abbrev pub AllLack : List Text → Type 0
  AllLack [] = Unit
  AllLack (part ∷ parts) = Lacks p part × AllLack parts

  onto_first-AllLack :
      (c : ℕ) (parts : List Text) → p c ≡ false → AllLack parts → AllLack (onto_first c parts)
  onto_first-AllLack c [] h _ = (ground arith, tt)
  onto_first-AllLack c (part ∷ parts) h (l, ls) = (ground arith, ls)

  -- No part holds a separator.
  pub split_on-AllLack : (s : Text) → AllLack (split_on p s)
  unfolding split_on
  split_on-AllLack [] = (refl, tt)
  split_on-AllLack (c ∷ s) = elim (Bool-cases (p c)) [
    | inl e ↦ rw e (refl, split_on-AllLack s)
    | inr e ↦ rw e (onto_first-AllLack c (split_on p s) e (split_on-AllLack s))
  ]
