-- ===== src/Decimal/Tests.antt =====
-- Concrete powers and quotients.
use stability_protocol.Base.{◌*◌, ◌^◌, ◌≡◌, refl, ok, arith}
use stability_protocol.Decimal.{Decimal, digits, pow}
use stability_protocol.Decimal.Difference.{non_zeroish, zeroish, signed, plus}
use stability_protocol.Decimal.Text.{
  from_string, from_plain, matches_format, skip_digits, fraction_matches, exponent_matches,
  includes, before, after, number_from, fit_mantissa,
}
use stability_protocol.Decimal.Power.{pow_whole}

pow_whole_example : pow (3 * digits) 5 ≡ ok (3 ^ 5 * digits)
pow_whole_example = pow_whole 3 5 (omega arith)

abbrev three : Decimal
three = 3 * digits

abbrev five : Decimal
five = 5 * digits

-- 0.005 does not round to zero at two places.
five_thousandths : non_zeroish (signed plus (5 * 10 ^ 15)) 2 ≡ ok (signed plus (5 * 10 ^ 15))
unfolding non_zeroish zeroish from_string from_plain matches_format skip_digits fraction_matches
    exponent_matches includes before after number_from fit_mantissa
five_thousandths = refl
