-- ===== src/Decimal/Text.antt =====
-- Reading and printing a `Decimal` (`_fromString`, `from` and `toString` in
-- packages/lib-base/src/Decimal.ts). A text is the list of its code points. `BigNumber.from` and
-- `BigNumber.toString` read and print plain decimal digits.
pub mod RoundTrip
pub mod Precision
pub mod Pretty
mod Digits
mod Tests
use stability_protocol.Base.{
  ℕ, zero, suc, ◌+◌, ◌-◌, ◌*◌, ◌/◌, ◌%◌, ◌^◌, Bool, true, false, not, ◌&&◌, ◌||◌, Option, none,
  some, List, [], ◌∷◌, ◌++◌, Result, ok, err, ◌>>=◌, bad_decimal_format, invalid_decimalish, ltb,
  leb, ◌==◌, if◌then◌else◌,
}
use stability_protocol.Base.Lists.{length, replicate, take, drop}
use stability_protocol.Decimal.{Decimal, digits, precision, infinite}

abbrev pub Text : Type 0
Text = List ℕ

abbrev pub is_digit : ℕ → Bool
is_digit c = leb b'0' c && leb c b'9'

-- What `[0-9]*` leaves of a text.
unfoldable pub skip_digits : Text → Text
skip_digits [] = []
skip_digits (c ∷ s) = if is_digit c then skip_digits s else c ∷ s

-- `[0-9]+$`.
unfoldable pub some_digits : Text → Bool
unfolding skip_digits
some_digits [] = false
some_digits (c ∷ s) = elim (skip_digits (c ∷ s)) [ [] ↦ true | _ ↦ false ]

-- `(e[-+]?[0-9]+)?$`.
unfoldable pub exponent_matches : Text → Bool
unfolding some_digits
exponent_matches [] = true
exponent_matches (e ∷ []) = false
exponent_matches (e ∷ c ∷ s) =
    e == b'e' && some_digits (if c == b'-' || c == b'+' then s else c ∷ s)

-- `(\.[0-9]*)?(e[-+]?[0-9]+)?$`.
unfoldable pub fraction_matches : Text → Bool
unfolding skip_digits exponent_matches
fraction_matches [] = true
fraction_matches (c ∷ s) =
    if c == b'.' then exponent_matches (skip_digits s) else exponent_matches (c ∷ s)

-- `representation.match(stringRepresentationFormat)`.
unfoldable pub matches_format : Text → Bool
unfolding skip_digits fraction_matches
matches_format s = fraction_matches (skip_digits s)

unfoldable pub includes : ℕ → Text → Bool
includes c [] = false
includes c (d ∷ s) = d == c || includes c s

-- The two parts of a text that `split` makes at its only `c`.
unfoldable pub before : ℕ → Text → Text
before c [] = []
before c (d ∷ s) = if d == c then [] else d ∷ before c s

unfoldable pub after : ℕ → Text → Text
after c [] = []
after c (d ∷ s) = if d == c then s else after c s

-- `BigNumber.from` of decimal digits.
unfoldable pub number_from : ℕ → Text → ℕ
number_from acc [] = acc
number_from acc (c ∷ s) = number_from (acc * 10 + (c - b'0')) s

abbrev pub number : Text → ℕ
number s = number_from 0 s

-- The mantissa, filled up with zeros or cut to 18 digits.
unfoldable pub fit_mantissa : Text → Text
fit_mantissa m =
    if ltb (length m) precision
    then m ++ replicate (precision - length m) b'0'
    else take precision m

abbrev pub is_empty_text : Text → Bool
is_empty_text [] = true
is_empty_text (_ ∷ _) = false

-- `_fromString` of a text without an exponent.
unfoldable pub from_plain : Text → Result Decimal
from_plain s =
    if is_empty_text s || not (matches_format s)
    then err bad_decimal_format
    else if not (includes b'.' s)
    then ok (number s * digits)
    else ok (number (before b'.' s) * digits + number (fit_mantissa (after b'.' s)))

-- The exponent's sign, and the scaling by it.
unfoldable pub scale : ℕ → Text → ℕ
scale n [] = n * 10 ^ number []
scale n (c ∷ s) =
    if c == b'-'
    then n / 10 ^ number s
    else if c == b'+'
    then n * 10 ^ number s
    else n * 10 ^ number (c ∷ s)

-- The source calls itself on the coefficient, which has no exponent.
unfoldable pub from_string : Text → Result Decimal
from_string s =
    if is_empty_text s || not (matches_format s)
    then err bad_decimal_format
    else if includes b'e' s
    then (do coefficient ← from_plain (before b'e' s); ok (scale coefficient (after b'e' s)))
    else from_plain s

-- A number goes by the text that `Number.prototype.toString` gives it.
pub data Decimalish : Type 0 where
  decimal : Decimal → Decimalish
  text : Text → Decimalish
  number_text : Text → Decimalish
  other : Decimalish

unfoldable pub from : Decimalish → Result Decimal
from (decimal d) = ok d
from (text s) = from_string s
from (number_text s) = from_string s
from other = err invalid_decimalish

-- `BigNumber.toString`: the decimal digits, the last one split off first. A number below 10 ^ f has at
-- most f digits, so the number itself is enough fuel.
unfoldable pub show_fuel : ℕ → ℕ → Text
show_fuel zero n = []
show_fuel (suc f) n =
    let more = show_fuel f (n / 10) ++ (b'0' + n % 10) ∷ [] in
    if ltb n 10 then (b'0' + n) ∷ [] else more

unfoldable pub show : ℕ → Text
show n = show_fuel (suc n) n

-- `padStart(PRECISION, "0")`.
unfoldable pub pad_start : Text → Text
pad_start s = replicate (precision - length s) b'0' ++ s

-- `replace(/0*$/, "")`, from the end of the text.
unfoldable pub trim_cons : ℕ → Text → Text
trim_cons c [] = if c == b'0' then [] else c ∷ []
trim_cons c (d ∷ t) = c ∷ d ∷ t

unfoldable pub trim_zeros : Text → Text
trim_zeros [] = []
trim_zeros (c ∷ s) = trim_cons c (trim_zeros s)

unfoldable pub to_string_with_automatic_precision : Decimal → Text
to_string_with_automatic_precision a =
    if a % digits == 0
    then show (a / digits)
    else show (a / digits) ++ b'.' ∷ trim_zeros (pad_start (show (a % digits)))

unfoldable pub round_up : Decimal → ℕ → ℕ
round_up a places = a + 10 ^ (precision - 1 - places) * 5

-- A precision is a number of places that is not negative; the source throws on a negative one.
unfoldable pub to_string_with_precision : Decimal → ℕ → Text
to_string_with_precision a places =
    let value = if ltb places precision then round_up a places else a in
    if places == 0
    then show (value / digits)
    else show (value / digits) ++ b'.' ∷ take places (pad_start (show (value % digits)))

-- The sign of infinity.
abbrev pub infinity_text : Text
infinity_text = 0x221e ∷ []

unfoldable pub to_string : Decimal → Option ℕ → Text
to_string a (some places) = if infinite a then infinity_text else to_string_with_precision a places
to_string a none = if infinite a then infinity_text else to_string_with_automatic_precision a
