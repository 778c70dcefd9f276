-- ===== src/Lsp/Frames/Roundtrip.antt =====
-- crates/jman-java-lsp/src/protocol.rs: a message that was written is read back.
use mathlib.Core.List.{append_assoc, append-nil}
use jman.Base.{
  ℕ, zero, suc, ◌≤◌, ◌<◌, Text, text_eq, codes, Bool, true, false, Option, none, some, [], ◌∷◌,
  ◌++◌, ◌=ℕ=◌, ◌==◌, ◌||◌, ◌&&◌, not, ltb, leb, if◌then◌else◌, is_empty, skip_while, split_once,
  u64_limit, print_decimal, print_decimal-digits, print_decimal_filled, parse-print_decimal, length,
  ok, all_of, all_of-append, Lacks, is_ascii_digit, arith, ◌≡◌, refl, ap, ◌∙◌,
}
use jman.Lsp.Frames.{
  max_message_bytes, read_line, trim_end, trim, read_exact, read_field, read_headers, read_body,
  read_message, write_message,
}

abbrev pub is_ascii_space : ℕ → Bool
is_ascii_space c = c =ℕ= 32 || (leb 9 c && leb c 13)

abbrev pub is_ascii : ℕ → Bool
is_ascii c = ltb c 128

is_line_feed : ℕ → Bool
is_line_feed c = c =ℕ= 10

read_line-append :
    (s rest : Text)
    → all_of (λ c. not (c =ℕ= 10)) s ≡ true
    → read_line (s ++ (10 ∷ rest)) ≡ (s ++ (10 ∷ []), rest)
unfolding read_line
read_line-append [] rest h = refl
read_line-append (c ∷ s) rest h = rw (read_line-append s rest (ground arith)) (ground arith)

trim_end-blank : (p : ℕ → Bool) (t : Text) → all_of p t ≡ true → trim_end p t ≡ []
unfolding trim_end
trim_end-blank p [] h = refl
trim_end-blank p (c ∷ t) h = ground (arith, trim_end-blank p t)

keep_last :
    (p : ℕ → Bool) (c : ℕ) (s : Text)
    → p c ≡ false
    → (if is_empty s then (if p c then [] else c ∷ []) else c ∷ s) ≡ c ∷ s
keep_last p c [] h = rw h refl
keep_last p c (d ∷ s) h = refl

trim_end-append :
    (p : ℕ → Bool) (s t : Text) → Lacks p s → all_of p t ≡ true → trim_end p (s ++ t) ≡ s
unfolding trim_end
trim_end-append p [] t l h = trim_end-blank p t h
trim_end-append p (c ∷ s) t l h =
    rw (trim_end-append p s t (ground arith) h) (keep_last p c s (ground arith))

read_exact-append : (body rest : Text) → read_exact (length body) (body ++ rest) ≡ ok (body, rest)
unfolding read_exact
read_exact-append [] rest = refl
read_exact-append (c ∷ body) rest = rw (read_exact-append body rest) refl

is_empty-append : (a s : Text) → is_empty s ≡ false → is_empty (a ++ s) ≡ false
is_empty-append [] s h = h
is_empty-append (c ∷ a) s h = refl

trim_end-prefix :
    (p : ℕ → Bool) (a s : Text)
    → is_empty (trim_end p s) ≡ false
    → trim_end p (a ++ s) ≡ a ++ trim_end p s
unfolding trim_end
trim_end-prefix p [] s h = refl
trim_end-prefix p (c ∷ a) s h =
    rw (trim_end-prefix p a s h) (rw (is_empty-append a (trim_end p s) h) refl)

skip_while-Lacks : (p : ℕ → Bool) (s : Text) → Lacks p s → skip_while p s ≡ s
skip_while-Lacks p [] l = refl
skip_while-Lacks p (c ∷ s) l = ground arith

-- The parts of the frame, with anything behind it.
layout :
    (head body rest : Text)
    → head ++ (13 ∷ 10 ∷ 13 ∷ 10 ∷ []) ++ body ++ rest
      ≡ (head ++ (13 ∷ [])) ++ (10 ∷ 13 ∷ 10 ∷ (body ++ rest))
layout head body rest =
    rw
      (
        append_assoc (head ++ (13 ∷ 10 ∷ 13 ∷ 10 ∷ [])) body rest,
        append_assoc head (13 ∷ 10 ∷ 13 ∷ 10 ∷ []) (body ++ rest),
        append_assoc head (13 ∷ []) (10 ∷ 13 ∷ 10 ∷ (body ++ rest)),
      )
      refl

abbrev field_name : Text
field_name = codes "Content-Length: "

module _ (is_whitespace : ℕ → Bool)
    (spaces : (c : ℕ) → is_ascii c ≡ true → is_whitespace c ≡ is_ascii_space c) where
  digits-Lacks : (s : Text) → all_of is_ascii_digit s ≡ true → Lacks is_whitespace s
  digits-Lacks [] h = refl
  digits-Lacks (c ∷ s) h = ground (arith, spaces c, digits-Lacks s)

  trim-digits : (s : Text) → all_of is_ascii_digit s ≡ true → trim is_whitespace (32 ∷ s) ≡ s
  unfolding trim
  trim-digits s h =
      rw (spaces 32 refl, skip_while-Lacks is_whitespace s (digits-Lacks s h))
        (cc (trim_end-append is_whitespace s [] (digits-Lacks s h) refl, append-nil s))

  trim_end-digits :
      (s : Text)
      → all_of is_ascii_digit s ≡ true
      → trim_end is_whitespace (s ++ (13 ∷ []) ++ (10 ∷ [])) ≡ s
  trim_end-digits s h = rw (append_assoc s (13 ∷ []) (10 ∷ [])) (
      trim_end-append is_whitespace s (13 ∷ 10 ∷ []) (digits-Lacks s h)
        (rw (spaces 13 refl, spaces 10 refl) refl))

  trim_end-field :
      (s : Text)
      → all_of is_ascii_digit s ≡ true
      → is_empty s ≡ false
      → trim_end is_whitespace (field_name ++ s ++ (13 ∷ []) ++ (10 ∷ [])) ≡ field_name ++ s
  trim_end-field s h f =
      trim_end-prefix is_whitespace field_name (s ++ (13 ∷ []) ++ (10 ∷ []))
        (rw (trim_end-digits s h) f)
      ∙ ap (λ t. field_name ++ t) (trim_end-digits s h)

digits-ascii : (s : Text) → all_of is_ascii_digit s ≡ true → all_of is_ascii s ≡ true
digits-ascii [] h = refl
digits-ascii (c ∷ s) h = ground (arith, digits-ascii s)

digits-lines : (s : Text) → all_of is_ascii_digit s ≡ true → all_of (λ c. not (c =ℕ= 10)) s ≡ true
digits-lines [] h = refl
digits-lines (c ∷ s) h = ground (arith, digits-lines s)

module _ {Value : Type 0} (decode : Text → Option Text) (is_whitespace : ℕ → Bool)
    (from_slice : Text → Option Value)
    (decodes : (s : Text) → all_of is_ascii s ≡ true → decode s ≡ some s)
    (spaces : (c : ℕ) → is_ascii c ≡ true → is_whitespace c ≡ is_ascii_space c) where
  read_headers-end :
      (fuel : ℕ) (announced : Option ℕ) (rest : Text)
      → read_headers decode is_whitespace from_slice (suc fuel) announced true (13 ∷ 10 ∷ rest)
        ≡ ok (some (announced, rest))
  unfolding read_headers read_line text_eq
  read_headers-end fuel announced rest = rw (decodes (13 ∷ 10 ∷ []) refl) refl

  read_headers-field :
      (fuel : ℕ) (input line header rest : Text) (found : Option ℕ)
      → is_empty line ≡ false
      → read_line input ≡ (line, rest)
      → decode line ≡ some header
      → (header == (13 ∷ 10 ∷ []) || header == (10 ∷ [])) ≡ false
      → read_field decode is_whitespace from_slice none
          (split_once b':' (trim_end is_whitespace header))
        ≡ ok found
      → read_headers decode is_whitespace from_slice (suc fuel) none false input
        ≡ read_headers decode is_whitespace from_slice fuel found true rest
  unfolding read_headers
  read_headers-field fuel input [] header rest found f e d n r = cc
  read_headers-field fuel input (c ∷ line) header rest found f e d n r = rw (e, d, n, r) refl

  read_field-digits :
      (n : ℕ)
      → n < u64_limit
      → read_field decode is_whitespace from_slice none
          (split_once b':' (field_name ++ print_decimal n))
        ≡ ok (some n)
  unfolding split_once text_eq
  read_field-digits n h =
      rw
        (
          trim-digits is_whitespace spaces (print_decimal n) (print_decimal-digits n),
          parse-print_decimal u64_limit n h (omega arith),
        )
        refl

  read_headers-frame :
      (fuel n : ℕ) (body rest : Text)
      → 1 < fuel
      → n < u64_limit
      → read_headers decode is_whitespace from_slice fuel none false
          (field_name ++ print_decimal n ++ (13 ∷ 10 ∷ 13 ∷ 10 ∷ []) ++ body ++ rest)
        ≡ ok (some (some n, body ++ rest))
  read_headers-frame zero n body rest k h = absurd (omega (arith, k))
  read_headers-frame (suc zero) n body rest k h = absurd (omega (arith, k))
  read_headers-frame (suc (suc fuel)) n body rest k h =
      let head = field_name ++ print_decimal n in
      let line = head ++ (13 ∷ []) ++ (10 ∷ []) in
      let digits = print_decimal-digits n in
      read_headers-field (suc fuel) (head ++ (13 ∷ 10 ∷ 13 ∷ 10 ∷ []) ++ body ++ rest) line line
        (13 ∷ 10 ∷ (body ++ rest)) (some n) refl
        (ap read_line (layout head body rest)
          ∙ read_line-append (head ++ (13 ∷ [])) (13 ∷ 10 ∷ (body ++ rest)) (
              rw
                (
                  all_of-append (λ c. not (c =ℕ= 10)) (print_decimal n) (13 ∷ []),
                  digits-lines (print_decimal n) digits,
                )
                refl))
        (decodes line (
          rw
            (
              append_assoc (print_decimal n) (13 ∷ []) (10 ∷ []),
              all_of-append is_ascii (print_decimal n) (13 ∷ 10 ∷ []),
              digits-ascii (print_decimal n) digits,
            )
            refl))
        (unfold text_eq in refl)
        (rw (trim_end-field is_whitespace spaces (print_decimal n) digits (print_decimal_filled n))
          (read_field-digits n h))
      ∙ read_headers-end fuel (some n) (body ++ rest)

  read_body-append :
      (body rest : Text) (message : Value)
      → from_slice body ≡ some message
      → length body ≤ max_message_bytes
      → read_body decode is_whitespace from_slice (some (some (length body), body ++ rest))
        ≡ ok (some message, rest)
  read_body-append body rest message e h =
      rw (small (length body) h, read_exact-append body rest, e) refl
    where
      small : (n : ℕ) → n ≤ max_message_bytes → ltb max_message_bytes n ≡ false
      small n h = ground arith

  -- A message that is written, with a body of at most 16 MiB that the JSON library reads back, is read
  -- back from the bytes that are written, and nothing is read of what comes behind; where Rust's library
  -- decodes ASCII as itself, and knows the white space of ASCII.
  pub read_message-write_message :
      (to_vec : Value → Option Text) (message : Value) (body rest : Text)
      → to_vec message ≡ some body
      → from_slice body ≡ some message
      → length body ≤ max_message_bytes
      → (written : Text) × (write_message to_vec message ≡ ok written)
        × (read_message decode is_whitespace from_slice (written ++ rest) ≡ ok (some message, rest))
  unfolding write_message read_message
  read_message-write_message to_vec message body rest e f h =
      let written = field_name ++ print_decimal (length body) ++ (13 ∷ 10 ∷ 13 ∷ 10 ∷ []) ++ body in
      (
        written,
        rw e refl,
        rw
            (read_headers-frame (suc (length (written ++ rest))) (length body) body rest
              (omega arith) (below (length body) h))
            (read_body-append body rest message f h),
      )
    where
      below : (n : ℕ) → n ≤ max_message_bytes → n < u64_limit
      below n h = omega (arith, h)
