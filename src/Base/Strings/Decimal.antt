-- ===== src/Base/Strings/Decimal.antt =====
-- Decimal numbers: printing, and parsing what was printed.
use Prim.Native.Nat.{ℕ, zero, suc, ◌+◌, ◌-◌, ◌*◌, ◌/◌, ◌%◌, ◌^◌, ◌<◌}
use mathlib.Core.Path.{◌≡◌, refl}
use mathlib.Core.Bool.{true, false}
use mathlib.Core.List.{[], ◌∷◌, ◌++◌}
use mathlib.Core.Option.{some}
use native.Mathlib.Nat.{pow-suc}
use native.Mathlib.Omega.{arith}
use jman.Base.Tests.{ltb, if◌then◌else◌, Bool-cases}
use mathlib.Core.Logic.{inl, inr}
use jman.Base.Strings.Equality.{Text}
use jman.Base.Strings.Chars.{
  is_ascii_digit, all_of, all_of-append, is_empty, digits_value, parse_unsigned,
}

-- The decimal digits of a number, with fuel for their count.
unfoldable pub print_from : ℕ → ℕ → Text
print_from zero n = []
print_from (suc fuel) n =
    let more = print_from fuel (n / 10) ++ ((b'0' + n % 10) ∷ []) in
    if ltb n 10 then (b'0' + n) ∷ [] else more

-- A number below 2⁶⁴ has at most twenty digits.
unfoldable pub print_decimal : ℕ → Text
unfolding print_from
print_decimal = print_from 20

digits_value-append :
    (acc : ℕ) (s : Text) (c : ℕ)
    → digits_value acc (s ++ (c ∷ [])) ≡ digits_value acc s * 10 + (c - b'0')
digits_value-append acc [] c = refl
digits_value-append acc (d ∷ s) c = digits_value-append (acc * 10 + (d - b'0')) s c

print_from-value : (fuel n : ℕ) → n < 10 ^ fuel → digits_value 0 (print_from fuel n) ≡ n
unfolding print_from
print_from-value zero n h = omega arith
print_from-value (suc fuel) n h = elim (Bool-cases (ltb n 10)) [
  | inl e ↦ rw e (omega arith)
  | inr e ↦ rw e (
      omega (
        arith,
        digits_value-append 0 (print_from fuel (n / 10)) (b'0' + n % 10),
        print_from-value fuel (n / 10) (omega (arith, pow-suc 10 fuel)),
      ))
]

print_from-digits : (fuel n : ℕ) → all_of is_ascii_digit (print_from fuel n) ≡ true
unfolding print_from
print_from-digits zero n = refl
print_from-digits (suc fuel) n = ground (
  arith,
  print_from-digits fuel (n / 10),
  all_of-append is_ascii_digit (print_from fuel (n / 10)) ((b'0' + n % 10) ∷ []),
)

is_empty-append : (s : Text) (c : ℕ) → is_empty (s ++ (c ∷ [])) ≡ false
is_empty-append [] c = refl
is_empty-append (d ∷ s) c = refl

print_from-filled : (fuel n : ℕ) → is_empty (print_from (suc fuel) n) ≡ false
unfolding print_from
print_from-filled fuel n =
    ground (arith, is_empty-append (print_from fuel (n / 10)) (b'0' + n % 10))

parse-of_digits :
    (s : Text) (limit : ℕ)
    → all_of is_ascii_digit s ≡ true
    → is_empty s ≡ false
    → digits_value 0 s < limit
    → parse_unsigned limit s ≡ some (digits_value 0 s)
unfolding parse_unsigned
parse-of_digits [] limit d e h = cc
parse-of_digits (c ∷ s) limit d e h = ground arith

pub print_decimal-digits : (n : ℕ) → all_of is_ascii_digit (print_decimal n) ≡ true
unfolding print_decimal
print_decimal-digits n = print_from-digits 20 n

pub print_decimal_filled : (n : ℕ) → is_empty (print_decimal n) ≡ false
unfolding print_decimal
print_decimal_filled n = print_from-filled 19 n

pub parse-print_decimal :
    (limit n : ℕ) → n < limit → n < 10 ^ 20 → parse_unsigned limit (print_decimal n) ≡ some n
unfolding print_decimal
parse-print_decimal limit n h k =
    let value = print_from-value 20 n k in
    rw value at (
      parse-of_digits (print_from 20 n) limit (print_from-digits 20 n) (print_from-filled 19 n)
        (omega (arith, value)))
