-- ===== src/Decimal/Text/Tests.antt =====
-- A concrete decimal, 1.25, and its texts.
use stability_protocol.Base.{
  ℕ, ◌+◌, ◌-◌, ◌*◌, ◌^◌, ◌≤◌, ◌<◌, ◌≡◌, ◌≢◌, refl, some, none, [], ◌∷◌, ok, arith,
}
use stability_protocol.Decimal.{Decimal, digits, infinity, precision, div}
use stability_protocol.Decimal.Text.{
  from_string, from_plain, matches_format, skip_digits, fraction_matches, exponent_matches,
  some_digits, includes, before, after, number_from, fit_mantissa, scale, to_string,
  to_string_with_precision, round_up, show, show_fuel, pad_start,
}
use stability_protocol.Decimal.Text.Pretty.{
  prettify, shorten, group, group_characteristic, digit_run,
}
use stability_protocol.Decimal.Text.RoundTrip.{from_string-to_string}
use stability_protocol.Decimal.Text.Precision.{to_string_nearest}

abbrev quarter_more : Decimal
quarter_more = 125 * 10 ^ 16

finite : quarter_more ≢ infinity
finite h = omega (arith, h)

-- "1.25e2" reads as 125.
exponent_read : from_string (b'1' ∷ b'.' ∷ b'2' ∷ b'5' ∷ b'e' ∷ b'2' ∷ []) ≡ ok (125 * digits)
unfolding from_string from_plain matches_format skip_digits fraction_matches exponent_matches
    some_digits includes before after number_from fit_mantissa scale
exponent_read = refl

from_string-to_string_example : from_string (to_string quarter_more none) ≡ ok quarter_more
from_string-to_string_example = from_string-to_string quarter_more finite

to_string_nearest_example :
    (r n : ℕ) × (from_string (to_string quarter_more (some 1)) ≡ ok r)
    × (r ≡ n * 10 ^ (precision - 1))
    × (2 * r ≤ 2 * quarter_more + 10 ^ (precision - 1))
    × (2 * quarter_more < 2 * r + 10 ^ (precision - 1))
to_string_nearest_example = to_string_nearest quarter_more 1 finite (omega arith) (omega arith)

-- 1234567.891 is printed as "1,234,567.9" and shortened to "1.23M".
abbrev million : Decimal
million = 1234567891 * 10 ^ 15

million_pretty :
    prettify million 1
    ≡ b'1' ∷ b',' ∷ b'2' ∷ b'3' ∷ b'4' ∷ b',' ∷ b'5' ∷ b'6' ∷ b'7' ∷ b'.' ∷ b'9' ∷ []
unfolding prettify group_characteristic group digit_run includes before after to_string
    to_string_with_precision round_up show show_fuel pad_start
million_pretty = refl

million_short : shorten million ≡ b'1' ∷ b'.' ∷ b'2' ∷ b'3' ∷ b'M' ∷ []
unfolding shorten prettify group_characteristic group digit_run includes before after to_string
    to_string_with_precision round_up show show_fuel pad_start div
million_short = refl
