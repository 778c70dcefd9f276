-- ===== src/Build/Globs.antt =====
-- crates/jman-build/src/lib.rs: `path_glob_matches`. Texts are their UTF-8 bytes here.
pub mod Rows
pub mod Paths
use jman.Base.{
  ℕ, Text, Bool, true, false, List, [], ◌∷◌, ◌=ℕ=◌, ◌||◌, ◌&&◌, if◌then◌else◌, text_eq, codes,
  is_empty, split_on, ◌==◌,
}

-- The row of the empty pattern: the empty prefix of the value matches.
abbrev pub no_more : Text → List Bool
no_more [] = []
no_more (c ∷ value) = false ∷ no_more value

abbrev pub first_row : Text → List Bool
first_row value = true ∷ no_more value

-- `next[index] = current[index] || next[index - 1]`
abbrev pub star_row : Bool → List Bool → List Bool
star_row before [] = []
star_row before (here ∷ row) = (here || before) ∷ star_row (here || before) row

-- The row, less its last place.
abbrev pub but_last : List Bool → List Bool
but_last [] = []
but_last (here ∷ []) = []
but_last (here ∷ next ∷ row) = here ∷ but_last (next ∷ row)

abbrev pub literal_row : ℕ → List Bool → Text → List Bool
literal_row literal [] value = []
literal_row literal (here ∷ row) [] = []
literal_row literal (here ∷ row) (c ∷ value) =
    (here && (c =ℕ= literal)) ∷ literal_row literal row value

abbrev pub next_row : ℕ → List Bool → Text → List Bool
next_row token row value =
    if token =ℕ= b'*'
    then star_row false row
    else if token =ℕ= b'?'
    then false ∷ but_last row
    else false ∷ literal_row token row value

-- `current[value.len()]`
abbrev pub last_place : List Bool → Bool
last_place [] = false
last_place (here ∷ []) = here
last_place (here ∷ next ∷ row) = last_place (next ∷ row)

abbrev pub rows : Text → List Bool → Text → List Bool
rows [] row value = row
rows (token ∷ pattern) row value = rows pattern (next_row token row value) value

unfoldable pub component_matches : Text → Text → Bool
component_matches pattern value = last_place (rows pattern (first_row value) value)

abbrev pub deep : (List Text → Bool) → List Text → Bool
deep rest [] = rest []
deep rest (part ∷ path) = rest (part ∷ path) || deep rest path

abbrev pub shallow : (Text → Bool) → (List Text → Bool) → List Text → Bool
shallow first rest [] = false
shallow first rest (part ∷ path) = first part && rest path

unfoldable pub matches : List Text → List Text → Bool
unfolding component_matches
matches [] path = is_empty path
matches (first ∷ remaining) path =
    if first == codes "**"
    then deep (matches remaining) path
    else shallow (component_matches first) (matches remaining) path

unfoldable pub path_glob_matches : Text → Text → Bool
unfolding matches split_on
path_glob_matches pattern path =
    matches (split_on (λ c. c =ℕ= b'/') pattern) (split_on (λ c. c =ℕ= b'/') path)
