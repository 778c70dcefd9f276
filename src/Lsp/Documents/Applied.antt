-- ===== src/Lsp/Documents/Applied.antt =====
-- crates/jman-java-lsp/src/documents.rs: every position that is found is a character boundary, so
-- that a replacement finds its text.
use jman.Base.{
  ℕ, zero, suc, ◌+◌, ◌-◌, ◌<◌, Text, Option, none, some, [], ◌∷◌, ◌++◌, ok, err, ◌=ℕ=◌, take_while,
  arith, ◌≡◌, refl, ◌≢◌, Bool-cases, inl, inr, ap, Option-cases,
}
use mathlib.Core.List.{append_assoc}
use jman.Lsp.Positions.{
  panicked, Position, len_utf8, len_utf16, is_newline, in_line, line_from, scan, scan_line, locate,
  position_to_byte,
}
use jman.Lsp.Positions.Roundtrip.{bytes}
use jman.Lsp.Documents.{take_bytes, drop_bytes}

abbrev pub IsBoundary : Text → ℕ → Type 0
IsBoundary text n = (a : Text) × (b : Text) × (text ≡ a ++ b) × (bytes a ≡ n)

pub bytes-append : (a b : Text) → bytes (a ++ b) ≡ bytes a + bytes b
bytes-append [] b = omega arith
bytes-append (c ∷ a) b = omega (arith, bytes-append a b)

-- A scan that starts behind some bytes gives a boundary behind them.
Behind : ℕ → Text → ℕ → Type 0
Behind byte s n = (a : Text) × (b : Text) × (s ≡ a ++ b) × (byte + bytes a ≡ n)

len_utf8_pos : (c : ℕ) → 0 < len_utf8 c
len_utf8_pos c = ground arith

past : (m n : ℕ) → m + n - m ≡ n
past m n = omega arith

pub take_bytes-append : (a b : Text) → take_bytes (bytes a) (a ++ b) ≡ some a
unfolding take_bytes
take_bytes-append [] [] = refl
take_bytes-append [] (c ∷ b) = refl
take_bytes-append (c ∷ a) b =
    rw (past (len_utf8 c) (bytes a), take_bytes-append a b) (ground (arith, len_utf8_pos c))

pub drop_bytes-append : (a b : Text) → drop_bytes (bytes a) (a ++ b) ≡ some b
unfolding drop_bytes
drop_bytes-append [] [] = refl
drop_bytes-append [] (c ∷ b) = refl
drop_bytes-append (c ∷ a) b =
    rw (past (len_utf8 c) (bytes a), drop_bytes-append a b) (ground (arith, len_utf8_pos c))

Start : ℕ → Text → ℕ → Text → Type 0
Start byte s start rest = (a : Text) × (s ≡ a ++ rest) × (byte + bytes a ≡ start)

Start-cons :
    (c byte start : ℕ) (s rest : Text)
    → Start (byte + len_utf8 c) s start rest
    → Start byte (c ∷ s) start rest
unfolding Start
Start-cons c byte start s rest (a, e, h) = (c ∷ a, ap (λ t. c ∷ t) e, omega (arith, h))

line_from-Start :
    (line byte start : ℕ) (s rest : Text)
    → line_from line byte s ≡ some (start, rest)
    → Start byte s start rest
unfolding line_from
line_from-Start zero byte start s rest h = unfold Start in ([], cc, ground arith)
line_from-Start (suc line) byte start [] rest h = cc
line_from-Start (suc line) byte start (c ∷ s) rest h =
    Start-cons c byte start s rest (elim (Bool-cases (is_newline c)) [
      | inl e ↦ line_from-Start line (byte + len_utf8 c) start s rest (cc)
      | inr e ↦ line_from-Start (suc line) (byte + len_utf8 c) start s rest (cc)
    ])

Behind-cons : (c byte n : ℕ) (s : Text) → Behind (byte + len_utf8 c) s n → Behind byte (c ∷ s) n
unfolding Behind
Behind-cons c byte n s (a, b, e, h) = (c ∷ a, b, ap (λ t. c ∷ t) e, omega (arith, h))

Behind-here : (byte n : ℕ) (s : Text) → byte ≡ n → Behind byte s n
unfolding Behind
Behind-here byte n s h = ([], s, refl, omega (arith, h))

scan-Behind :
    (character utf16 byte n : ℕ) (s : Text)
    → scan character utf16 byte (take_while in_line s) ≡ ok n
    → Behind byte s n
unfolding scan
scan-Behind character utf16 byte n [] h = Behind-here byte n [] (ground arith)
scan-Behind character utf16 byte n (c ∷ s) h = elim (Bool-cases (is_newline c)) [
  | inl e ↦ Behind-here byte n (c ∷ s) (ground arith)
  | inr e ↦ elim (Bool-cases (utf16 =ℕ= character)) [
    | inl here ↦ Behind-here byte n (c ∷ s) (ground arith)
    | inr more ↦
        Behind-cons c byte n s
          (scan-Behind character (utf16 + len_utf16 c) (byte + len_utf8 c) n s (ground arith))
  ]
]

scan_panicked : (character utf16 byte : ℕ) (s : Text) → scan character utf16 byte s ≢ err panicked
unfolding scan
scan_panicked character utf16 byte [] = λ h. ground arith
scan_panicked character utf16 byte (c ∷ s) =
    λ h. ground (arith, scan_panicked character (utf16 + len_utf16 c) (byte + len_utf8 c) s)

Behind-IsBoundary :
    (text : Text) (start n : ℕ) (rest : Text)
    → Start 0 text start rest
    → Behind start rest n
    → IsBoundary text n
unfolding Start Behind
Behind-IsBoundary text start n rest (a, e, h) (x, b, f, k) =
    (a ++ x, b, rw (e, f, append_assoc a x b) refl, omega (arith, bytes-append a x, h, k))

scan_line-IsBoundary :
    (text : Text) (line character n : ℕ) (found : Option (ℕ × Text))
    → line_from line 0 text ≡ found
    → scan_line character found ≡ ok n
    → IsBoundary text n
scan_line-IsBoundary text line character n none e h = cc
scan_line-IsBoundary text line character n (some (start, rest)) e h =
    Behind-IsBoundary text start n rest (line_from-Start line 0 start text rest e)
      (scan-Behind character 0 start n rest h)

locate-IsBoundary :
    (text : Text) (line character : Option ℕ) (n : ℕ)
    → locate text line character ≡ ok n
    → IsBoundary text n
locate-IsBoundary text none character n h = cc
locate-IsBoundary text (some line) none n h = cc
locate-IsBoundary text (some line) (some character) n h =
    scan_line-IsBoundary text line character n (line_from line 0 text) refl h

locate_panicked :
    (text : Text) (line character : Option ℕ) → locate text line character ≢ err panicked
locate_panicked text none character h = cc
locate_panicked text (some line) none h = cc
locate_panicked text (some line) (some character) h = elim (Option-cases (line_from line 0 text)) [
  | inl e ↦ absurd (cc)
  | inr ((start, rest), e) ↦ scan_panicked character 0 start (take_while in_line rest) (cc)
]

-- What `position_to_byte` finds is a boundary, and it does not panic.
pub position_to_byte-IsBoundary :
    (text : Text) (p : Position) (n : ℕ) → position_to_byte text p ≡ ok n → IsBoundary text n
unfolding position_to_byte
position_to_byte-IsBoundary text p n = locate-IsBoundary text p.line p.character n

pub position_to_byte_panicked :
    (text : Text) (p : Position) → position_to_byte text p ≢ err panicked
unfolding position_to_byte
position_to_byte_panicked text p = locate_panicked text p.line p.character
