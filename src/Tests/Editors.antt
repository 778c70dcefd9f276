-- ===== src/Tests/Editors.antt =====
-- crates/jman-java-lsp: theorems at concrete data.
use jman.Base.{
  ℕ, Option, ◌≤◌, length, print_decimal, parse_unsigned, u64_limit, arith, Text, codes, text_eq,
  some, none, [], ◌∷◌, ◌++◌, ◌≡◌, ◌≢◌, refl, ok, err, lookup, map_insert,
}
use jman.Lsp.Positions.{panicked, line_outside, position_to_byte, offset_to_position, at_position}
use jman.Lsp.Positions.Roundtrip.{bytes, units, position_to_byte-offset}
use jman.Lsp.Frames.{max_message_bytes, read_message, write_message}
use jman.Lsp.Frames.Roundtrip.{is_ascii_space, read_message-write_message}
use jman.Lsp.Documents.{pos, Documents, Change, apply_change, apply_changes, change}
use jman.Lsp.Documents.Laws.{
  edit_between, at_version, change-replaces, change_panicked, change-keeps,
}

-- A line with an accent and a character of two units, and a second line.
abbrev before : Text
before = 0xE9 ∷ 0x1F600 ∷ 10 ∷ codes "int "

abbrev removed : Text
removed = codes "old" ++ (10 ∷ [])

abbrev after : Text
after = codes "= 1;"

abbrev file : Text
file = codes "file:///A.java"

abbrev opened : Documents
opened = (file, at_version (pos 3) (before ++ removed ++ after)) ∷ []

found : lookup file opened ≡ some (at_version (pos 3) (before ++ removed ++ after))
unfolding lookup text_eq
found = refl

position_of_offset : offset_to_position (before ++ after) (units before) ≡ at_position 1 4
unfolding offset_to_position
position_of_offset = refl

position_to_byte-offset_example :
    position_to_byte (before ++ after) (offset_to_position (before ++ after) (units before))
    ≡ ok (bytes before)
position_to_byte-offset_example = position_to_byte-offset before after

change-replaces_example :
    change file (pos 4) (edit_between before removed after (codes "new ") ∷ []) opened ≡ (
      map_insert file (at_version (pos 4) (before ++ codes "new " ++ after)) opened,
      ok (at_version (pos 4) (before ++ codes "new " ++ after)),
    )
change-replaces_example =
    change-replaces file before removed after (codes "new ") (pos 4) (pos 3) opened found refl

-- The second change names a line that the text does not have.
abbrev clear : Change
clear = record { text = some (codes "x"); range = none }

abbrev past_end : Change
past_end = record {
  text = some (codes "y");
  range = some (record { start = at_position 7 0; stop = at_position 7 1 });
}

clear_applied : apply_changes (clear ∷ []) (before ++ removed ++ after) ≡ (codes "x", ok tt)
unfolding apply_changes apply_change
clear_applied = refl

past_end_failed : apply_change past_end (codes "x") ≡ err line_outside
unfolding apply_change position_to_byte
past_end_failed = refl

change-keeps_example :
    change file (pos 4) ((clear ∷ []) ++ (past_end ∷ [])) opened
    ≡ (map_insert file (record { version = pos 3; text = codes "x" }) opened, err line_outside)
change-keeps_example =
    change-keeps file (before ++ removed ++ after) (codes "x") (pos 4) (pos 3) opened (clear ∷ [])
      [] past_end line_outside found refl clear_applied past_end_failed

change_panicked_example :
    change file (pos 4) (clear ∷ past_end ∷ []) opened ≢ (opened, err panicked)
change_panicked_example = change_panicked file (pos 4) (clear ∷ past_end ∷ []) opened opened

-- A message whose JSON is a number, with another message behind it.
abbrev digits : ℕ → Option Text
digits n = some (print_decimal n)

abbrev waiting : Text
waiting = codes "Content-Length: 1"

json : parse_unsigned u64_limit (print_decimal 42) ≡ some 42
unfolding print_decimal parse_unsigned
json = refl

fits : length (print_decimal 42) ≤ max_message_bytes
unfolding print_decimal
fits = omega arith

read_message-write_message_example :
    (written : Text) × (write_message digits 42 ≡ ok written)
    × (read_message some is_ascii_space (parse_unsigned u64_limit) (written ++ waiting)
        ≡ ok (some 42, waiting))
read_message-write_message_example =
    read_message-write_message some is_ascii_space (parse_unsigned u64_limit) (λ s _. refl)
      (λ c _. refl) digits 42 (print_decimal 42) waiting refl json fits
