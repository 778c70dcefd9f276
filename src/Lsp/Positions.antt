-- ===== src/Lsp/Positions.antt =====
-- crates/jman-java-lsp/src/documents.rs: `position_to_byte` and `offset_to_position`. A text is the
-- list of its characters; a position is what the code reads of its JSON.
pub mod Roundtrip
use jman.Base.{
  ℕ, zero, suc, ◌+◌, Text, Bool, Option, none, some, List, [], ◌∷◌, ok, err, Result, ◌=ℕ=◌, ltb,
  leb, not, if◌then◌else◌, take_while,
}

pub data EditError : Type 0 where
  not_open not_newer no_text reversed no_line no_character line_outside splits_pair
        character_outside panicked :
      EditError

-- `get("line").and_then(Value::as_u64)`, and the same for `character`.
pub record Position : Type 0 where
  pub line : Option ℕ
  pub character : Option ℕ

-- `char::len_utf8` and `char::len_utf16`
abbrev pub len_utf8 : ℕ → ℕ
len_utf8 c = if ltb c 0x80 then 1 else if ltb c 0x800 then 2 else if ltb c 0x10000 then 3 else 4

abbrev pub len_utf16 : ℕ → ℕ
len_utf16 c = if ltb c 0x10000 then 1 else 2

abbrev pub is_newline : ℕ → Bool
is_newline c = c =ℕ= 10

abbrev pub in_line : ℕ → Bool
in_line c = not (is_newline c)

-- Behind so many newlines: the byte offset, and the rest of the text.
unfoldable pub line_from : ℕ → ℕ → Text → Option (ℕ × Text)
line_from zero byte s = some (byte, s)
line_from (suc line) byte [] = none
line_from (suc line) byte (c ∷ s) =
    let below = line_from line (byte + len_utf8 c) s in
    let further = line_from (suc line) (byte + len_utf8 c) s in
    if is_newline c then below else further

-- The loop over the characters of the line.
unfoldable pub scan : ℕ → ℕ → ℕ → Text → Result EditError ℕ
scan character utf16 byte [] = if utf16 =ℕ= character then ok byte else err character_outside
scan character utf16 byte (c ∷ s) =
    let next = scan character (utf16 + len_utf16 c) (byte + len_utf8 c) s in
    if utf16 =ℕ= character
    then ok byte
    else if ltb character (utf16 + len_utf16 c)
    then err splits_pair
    else next

abbrev pub scan_line : ℕ → Option (ℕ × Text) → Result EditError ℕ
scan_line character none = err line_outside
scan_line character (some (start, rest)) = scan character 0 start (take_while in_line rest)

abbrev pub locate : Text → Option ℕ → Option ℕ → Result EditError ℕ
locate text none character = err no_line
locate text (some line) none = err no_character
locate text (some line) (some character) = scan_line character (line_from line 0 text)

unfoldable pub position_to_byte : Text → Position → Result EditError ℕ
unfolding line_from scan
position_to_byte text p = locate text p.line p.character

abbrev pub at_position : ℕ → ℕ → Position
at_position line character = record { line = some line; character = some character }

-- The loop of `offset_to_position`, with `consumed`, `line` and `character`.
unfoldable pub advance : ℕ → ℕ → ℕ → ℕ → Text → Position
advance offset consumed line character [] = at_position line character
advance offset consumed line character (c ∷ s) =
    let next =
      if is_newline c
      then advance offset (consumed + len_utf16 c) (line + 1) 0 s
      else advance offset (consumed + len_utf16 c) line (character + len_utf16 c) s in
    if leb offset consumed
    then at_position line character
    else if ltb offset (consumed + len_utf16 c)
    then at_position line character
    else next

unfoldable pub offset_to_position : Text → ℕ → Position
unfolding advance
offset_to_position text utf16_offset = advance utf16_offset 0 0 0 text
