-- ===== src/Config/Dates/Laws.antt =====
-- crates/jman-config/src/lib.rs: what `is_iso_date` accepts.
use jman.Base.{
  ℕ, ◌+◌, ◌≤◌, Text, true, some, List, [], ◌∷◌, ◌++◌, arith, ◌≡◌, refl, ap, ◌∙◌, length,
  split_on-append, split_on_whole, Lacks, ◌=ℕ=◌, length-append,
}
use jman.Config.Dates.{days_in, date_of_parts, is_iso_date, parse_u32}

calendar-of :
    (size : ℕ) (parts : List Text) (y m d : Text) {year month day : ℕ}
    → parts ≡ y ∷ m ∷ d ∷ []
    → parse_u32 y ≡ some year
    → parse_u32 m ≡ some month
    → parse_u32 d ≡ some day
    → size ≡ 10
    → 1 ≤ year
    → (1 ≤ month) × (month ≤ 12)
    → (1 ≤ day) × (day ≤ days_in year month)
    → date_of_parts size parts ≡ true
unfolding date_of_parts
calendar-of size parts y m d e hy hm hd s h1 h2 h3 = rw (e, hy, hm, hd) (ground arith)

-- A text of ten characters, of three numbers between dashes, is accepted whatever the widths of
-- the numbers are.
pub is_iso_date-of_numbers :
    (y m d : Text) {year month day : ℕ}
    → Lacks (λ c. c =ℕ= b'-') y
    → Lacks (λ c. c =ℕ= b'-') m
    → Lacks (λ c. c =ℕ= b'-') d
    → parse_u32 y ≡ some year
    → parse_u32 m ≡ some month
    → parse_u32 d ≡ some day
    → length y + length m + length d ≡ 8
    → 1 ≤ year
    → (1 ≤ month) × (month ≤ 12)
    → (1 ≤ day) × (day ≤ days_in year month)
    → is_iso_date (y ++ (b'-' ∷ (m ++ (b'-' ∷ d)))) ≡ true
unfolding is_iso_date
is_iso_date-of_numbers y m d ly lm ld hy hm hd size h1 h2 h3 =
    calendar-of _ _ y m d
      (split_on-append _ y _ b'-' ly refl
        ∙ ap (◌∷◌ y) (split_on-append _ m d b'-' lm refl ∙ ap (◌∷◌ m) (split_on_whole _ d ld)))
      hy hm hd
      (omega (arith, length-append y (b'-' ∷ (m ++ (b'-' ∷ d))), length-append m (b'-' ∷ d), size))
      h1 h2 h3
