-- ===== src/Lsp/Frames.antt =====
-- crates/jman-java-lsp/src/protocol.rs: `read_message` and `write_message`. A reader is the bytes
-- that it will give; `decode` reads UTF-8, `from_slice` and `to_vec` are those of the JSON library, and
-- `is_whitespace` is the class of Rust's library.
pub mod Roundtrip
use jman.Base.{
  ℕ, zero, suc, ◌+◌, ◌*◌, Text, text_eq, codes, Bool, true, false, Option, none, some, List, [],
  ◌∷◌, ◌++◌, ◌=ℕ=◌, ◌==◌, ◌||◌, not, ltb, if◌then◌else◌, is_empty, skip_while, split_once,
  to_ascii_lowercase, parse_unsigned, u64_limit, print_decimal, length, Result, ok, err, ◌>>=◌,
  ◌>>◌, require,
}

-- The end of the input within a body is an input or output error, and so is a header that is not
-- UTF-8; the last is fuel that is used up.
pub data ProtocolError : Type 0 where
  io missing_content_length invalid_header message_too_large invalid_json exhausted : ProtocolError

abbrev pub max_message_bytes : ℕ
max_message_bytes = 16 * 1024 * 1024

-- `read_line`: up to the line feed, and with it.
unfoldable pub read_line : Text → Text × Text
read_line [] = ([], [])
read_line (c ∷ input) =
    let (line, rest) = read_line input in if c =ℕ= 10 then (c ∷ [], input) else (c ∷ line, rest)

unfoldable pub trim_end : (ℕ → Bool) → Text → Text
trim_end p [] = []
trim_end p (c ∷ s) =
    let rest = trim_end p s in if is_empty rest then (if p c then [] else c ∷ []) else c ∷ rest

unfoldable pub trim : (ℕ → Bool) → Text → Text
unfolding trim_end
trim p s = trim_end p (skip_while p s)

-- `read_exact`
unfoldable pub read_exact : ℕ → Text → Result ProtocolError (Text × Text)
read_exact zero input = ok ([], input)
read_exact (suc n) [] = err io
read_exact (suc n) (c ∷ input) = do (body, rest) ← read_exact n input; ok (c ∷ body, rest)

abbrev pub agree : Option ℕ → ℕ → Bool
agree none parsed = true
agree (some previous) parsed = previous =ℕ= parsed

abbrev pub set_length : Option ℕ → Option ℕ → Result ProtocolError (Option ℕ)
set_length announced none = err invalid_header
set_length announced (some parsed) = do
  require (agree announced parsed) invalid_header
  ok (some parsed)

abbrev pub is_content_length : Text → Bool
is_content_length name = to_ascii_lowercase name == codes "content-length"

module _ {Value : Type 0} (decode : Text → Option Text) (is_whitespace : ℕ → Bool)
    (from_slice : Text → Option Value) where
  abbrev pub read_field : Option ℕ → Option (Text × Text) → Result ProtocolError (Option ℕ)
  read_field announced none = err invalid_header
  read_field announced (some (name, value)) =
      if is_content_length name
      then set_length announced (parse_unsigned u64_limit (trim is_whitespace value))
      else ok announced

  -- The end of the input before all headers, or the announced length and what comes behind.
  abbrev pub Headers : Type 0
  Headers = Result ProtocolError (Option (Option ℕ × Text))

  abbrev pub read_header : (Option ℕ → Text → Headers) → Option ℕ → Option Text → Text → Headers
  read_header more announced none rest = err io
  read_header more announced (some header) rest =
      let next : Headers =
        read_field announced (split_once b':' (trim_end is_whitespace header)) >>= λ found.
        more found rest in
      if header == (13 ∷ 10 ∷ []) || header == (10 ∷ []) then ok (some (announced, rest)) else next

  abbrev pub read_header_line :
      (Option ℕ → Text → Headers) → Option ℕ → Bool → Text × Text → Headers
  read_header_line more announced saw ([], rest) = if saw then err invalid_header else ok none
  read_header_line more announced saw (c ∷ line, rest) =
      read_header more announced (decode (c ∷ line)) rest

  unfoldable pub read_headers : ℕ → Option ℕ → Bool → Text → Headers
  unfolding read_line trim_end split_once trim parse_unsigned
  read_headers zero announced saw input = err exhausted
  read_headers (suc fuel) announced saw input =
      read_header_line (λ found rest. read_headers fuel found true rest) announced saw
        (read_line input)

  abbrev pub parse_body : Text × Text → Option Value → Result ProtocolError (Option Value × Text)
  parse_body (body, rest) none = err invalid_json
  parse_body (body, rest) (some message) = ok (some message, rest)

  abbrev pub read_body : Option (Option ℕ × Text) → Result ProtocolError (Option Value × Text)
  read_body none = ok (none, [])
  read_body (some (none, rest)) = err missing_content_length
  read_body (some (some announced, rest)) = do
    require (not (ltb max_message_bytes announced)) message_too_large
    taken ← read_exact announced rest
    parse_body taken (from_slice taken.0)

  -- A line takes one byte at least.
  unfoldable pub read_message : Text → Result ProtocolError (Option Value × Text)
  unfolding read_headers read_exact
  read_message input = read_headers (suc (length input)) none false input >>= read_body

abbrev pub frame : Option Text → Result ProtocolError Text
frame none = err invalid_json
frame (some body) =
    ok (codes "Content-Length: " ++ print_decimal (length body) ++ (13 ∷ 10 ∷ 13 ∷ 10 ∷ []) ++ body)

-- What is written to a writer that takes all of it.
unfoldable pub write_message {κ} :
    {Value : Type κ} → (Value → Option Text) → Value → Result ProtocolError Text
unfolding print_decimal
write_message to_vec message = frame (to_vec message)
