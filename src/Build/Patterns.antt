-- ===== src/Build/Patterns.antt =====
-- crates/jman-build/src/lib.rs: `wildcard_matches`. Texts are their UTF-8 bytes here, and an index
-- into one is the rest of it.
pub mod Meaning
pub mod Stars
pub mod Greedy
use jman.Base.{
  ℕ, zero, suc, ◌+◌, Text, Bool, Option, none, some, false, List, [], ◌∷◌, ◌=ℕ=◌, ◌||◌,
  if◌then◌else◌, all_of, map, length,
}

abbrev pub is_star : ℕ → Bool
is_star c = c =ℕ= b'*'

abbrev pub fits : ℕ → ℕ → Bool
fits token c = token =ℕ= b'?' || token =ℕ= c

abbrev pub dotted : ℕ → ℕ
dotted c = if c =ℕ= b'/' || c =ℕ= b'\\' then b'.' else c

abbrev pub tail : Text → Text
tail [] = []
tail (c ∷ s) = s

-- Behind a `*`: the pattern there, and the value from `retry`.
abbrev pub Star : Type 0
Star = Option (Text × Text)

-- The loop. A value that does not fit goes on from the last `*` with one byte more for it.
unfoldable pub scan : ℕ → Text → Text → Star → Option Bool
scan zero pattern value star = none
scan (suc fuel) pattern [] star = some (all_of is_star pattern)
scan (suc fuel) [] (c ∷ value) none = some false
scan (suc fuel) [] (c ∷ value) (some (after, retry)) =
    scan fuel after (tail retry) (some (after, tail retry))
scan (suc fuel) (token ∷ pattern) (c ∷ value) star =
    let next = scan fuel pattern value star in
    let at_star = scan fuel pattern (c ∷ value) (some (pattern, c ∷ value)) in
    let again : Option Bool = elim star [
      | none ↦ some false
      | some (after, retry) ↦ scan fuel after (tail retry) (some (after, tail retry))
    ] in
    if fits token c then next else if is_star token then at_star else again

-- As many rounds as there are bytes, each of at most the pattern and one more.
abbrev pub budget : ℕ → ℕ → ℕ
budget zero size = 0
budget (suc rounds) size = suc size + budget rounds size

-- none where the loop did not end within the fuel.
unfoldable pub wildcard_matches : Text → Text → Option Bool
unfolding scan
wildcard_matches pattern value =
    let dots = map dotted pattern in
    scan (suc (budget (length value) (length dots) + length dots)) dots value none
