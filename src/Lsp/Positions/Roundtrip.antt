-- ===== src/Lsp/Positions/Roundtrip.antt =====
-- crates/jman-java-lsp/src/documents.rs: the position of a UTF-16 offset leads back to its byte.
use jman.Base.{
  ℕ, zero, suc, ◌+◌, Text, Bool, true, false, some, [], ◌∷◌, ◌++◌, ok, not, if◌then◌else◌,
  take_while, any_of, arith, ◌≡◌, refl, ◌<◌,
}
use jman.Lsp.Positions.{
  len_utf8, len_utf16, is_newline, line_from, scan, advance, position_to_byte, offset_to_position,
}

-- The lengths of a text in the two encodings.
abbrev pub bytes : Text → ℕ
bytes [] = 0
bytes (c ∷ s) = len_utf8 c + bytes s

abbrev pub units : Text → ℕ
units [] = 0
units (c ∷ s) = len_utf16 c + units s

abbrev has_newline : Text → Bool
has_newline = any_of is_newline

newlines : Text → ℕ
newlines [] = 0
newlines (c ∷ s) = let rest = newlines s in if is_newline c then suc rest else rest

-- The last line of a text, and what stands before it.
last_line : Text → Text
last_line [] = []
last_line (c ∷ s) = let rest = last_line s in if has_newline (c ∷ s) then rest else c ∷ s

full_lines : Text → Text
full_lines [] = []
full_lines (c ∷ s) = let rest = full_lines s in if has_newline (c ∷ s) then c ∷ rest else []

newlines-none : (s : Text) → has_newline s ≡ false → newlines s ≡ 0
unfolding newlines
newlines-none [] h = refl
newlines-none (c ∷ s) h = ground (arith, newlines-none s)

last_line-none : (s : Text) → has_newline s ≡ false → last_line s ≡ s
unfolding last_line
last_line-none [] h = refl
last_line-none (c ∷ s) h = ground arith

has_newline-last_line : (s : Text) → has_newline (last_line s) ≡ false
unfolding last_line
has_newline-last_line [] = refl
has_newline-last_line (c ∷ s) = ground (arith, has_newline-last_line s)

bytes-lines : (s : Text) → bytes (full_lines s) + bytes (last_line s) ≡ bytes s
unfolding full_lines last_line
bytes-lines [] = omega arith
bytes-lines (c ∷ s) = ground (arith, bytes-lines s)

newlines_pos : (s : Text) → has_newline s ≡ true → 0 < newlines s
unfolding newlines
newlines_pos [] h = cc
newlines_pos (c ∷ s) h = ground (arith, newlines_pos s)

line_from_skip :
    (c n byte : ℕ) (s : Text)
    → is_newline c ≡ false
    → 0 < n
    → line_from n byte (c ∷ s) ≡ line_from n (byte + len_utf8 c) s
unfolding line_from
line_from_skip c zero byte s h k = absurd (omega arith)
line_from_skip c (suc n) byte s h k = rw h

line_from_newline :
    (c n byte : ℕ) (s : Text)
    → is_newline c ≡ true
    → line_from (suc n) byte (c ∷ s) ≡ line_from n (byte + len_utf8 c) s
unfolding line_from
line_from_newline c n byte s h = rw h refl

line_from_zero : (byte : ℕ) (s : Text) → line_from 0 byte s ≡ some (byte, s)
unfolding line_from
line_from_zero byte s = refl

line_from-newlines :
    (s t : Text) (byte : ℕ)
    → line_from (newlines s) byte (s ++ t) ≡ some (byte + bytes (full_lines s), last_line s ++ t)
unfolding newlines full_lines last_line
line_from-newlines [] t byte = ground (arith, line_from_zero byte t)
line_from-newlines (c ∷ s) t byte = ground (
  arith,
  line_from_newline c (newlines s) byte (s ++ t),
  line_from_skip c (newlines s) byte (s ++ t),
  line_from_zero byte (c ∷ s ++ t),
  newlines_pos s,
  newlines-none s,
  line_from-newlines s t (byte + len_utf8 c),
)

scan-line :
    (s t : Text) (utf16 byte : ℕ)
    → has_newline s ≡ false
    → scan (utf16 + units s) utf16 byte (take_while (λ c. not (is_newline c)) (s ++ t))
      ≡ ok (byte + bytes s)
unfolding scan
scan-line [] [] utf16 byte h = ground arith
scan-line [] (c ∷ t) utf16 byte h = ground arith
scan-line (c ∷ s) t utf16 byte h =
    ground (arith, scan-line s t (utf16 + len_utf16 c) (byte + len_utf8 c))

advance-units :
    (s t : Text) (offset consumed line character : ℕ)
    → offset ≡ consumed + units s
    → advance offset consumed line character (s ++ t) ≡ record {
      line = some (line + newlines s);
      character = some ((if has_newline s then 0 else character) + units (last_line s));
    }
unfolding advance newlines last_line
advance-units [] [] offset consumed line character h = ground arith
advance-units [] (c ∷ t) offset consumed line character h = ground arith
advance-units (c ∷ s) t offset consumed line character h = ground (
  arith,
  advance-units s t offset (consumed + len_utf16 c) (line + 1) 0,
  advance-units s t offset (consumed + len_utf16 c) line (character + len_utf16 c),
  last_line-none s,
)

-- Between any two characters of a text, the position of the UTF-16 offset leads back to the byte
-- offset: also behind line breaks, and behind characters of two units or of several bytes.
pub position_to_byte-offset :
    (s t : Text) → position_to_byte (s ++ t) (offset_to_position (s ++ t) (units s)) ≡ ok (bytes s)
unfolding position_to_byte offset_to_position
position_to_byte-offset s t = rw (advance-units s t (units s) 0 0 0 (omega arith)) (
    ground (
      arith,
      line_from-newlines s t 0,
      scan-line (last_line s) t 0 (0 + bytes (full_lines s)) (has_newline-last_line s),
      bytes-lines s,
    ))
