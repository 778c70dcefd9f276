-- ===== src/Config/Dates.antt =====
-- crates/jman-config/src/lib.rs: `is_iso_date`.
pub mod Laws
use jman.Base.{
  ℕ, Text, Bool, true, false, Option, none, some, List, [], ◌∷◌, ◌%◌, ◌^◌, ◌=ℕ=◌, ◌&&◌, ◌||◌, not,
  if◌then◌else◌, split_on, parse_unsigned, length, leb,
}

abbrev pub parse_u32 : Text → Option ℕ
parse_u32 = parse_unsigned (2 ^ 32)

unfoldable pub is_leap : ℕ → Bool
is_leap year = year % 4 =ℕ= 0 && (not (year % 100 =ℕ= 0) || year % 400 =ℕ= 0)

unfoldable pub days_in : ℕ → ℕ → ℕ
unfolding is_leap
days_in year month =
    if month =ℕ= 2
    then (if is_leap year then 29 else 28)
    else if month =ℕ= 4 || (month =ℕ= 6 || (month =ℕ= 9 || month =ℕ= 11))
    then 30
    else 31

-- The tests after the three numbers are read.
unfoldable pub is_calendar_date : ℕ → Option ℕ → Option ℕ → Option ℕ → Bool
unfolding days_in
is_calendar_date size (some year) (some month) (some day) =
    if not (size =ℕ= 10) || (year =ℕ= 0 || not (leb 1 month && leb month 12))
    then false
    else leb 1 day && leb day (days_in year month)
is_calendar_date size _ _ _ = false

unfoldable pub date_of_parts : ℕ → List Text → Bool
unfolding is_calendar_date parse_unsigned
date_of_parts size (year ∷ month ∷ day ∷ []) =
    is_calendar_date size (parse_u32 year) (parse_u32 month) (parse_u32 day)
date_of_parts size _ = false

unfoldable pub is_iso_date : Text → Bool
unfolding date_of_parts split_on
is_iso_date value = date_of_parts (length value) (split_on (λ c. c =ℕ= b'-') value)
