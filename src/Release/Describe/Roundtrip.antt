-- ===== src/Release/Describe/Roundtrip.antt =====
-- crates/jman-version/src/versioning.rs: `parse_git_description` reads back what `git describe --long
-- --dirty` writes.
use jman.Base.{ℕ, Text, codes, text_eq, Bool, true, false, [], ◌∷◌, ◌++◌, ◌=ℕ=◌, print_decimal}

abbrev is_dash : ℕ → Bool
is_dash c = c =ℕ= b'-'

-- The text that git writes.
abbrev pub description : Text → ℕ → Text → Text
description release distance commit =
    ((b'v' ∷ release) ++ (b'-' ∷ print_decimal distance)) ++ (b'-' ∷ commit)

abbrev pub dirty_mark : Bool → Text
dirty_mark true = codes "-dirty"
dirty_mark false = []
