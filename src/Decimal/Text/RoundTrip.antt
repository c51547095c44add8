-- ===== src/Decimal/Text/RoundTrip.antt =====
-- Printing a `Decimal` and reading the text (packages/lib-base/src/Decimal.ts).
use stability_protocol.Base.{
  ℕ, ◌+◌, ◌*◌, ◌/◌, ◌%◌, ◌<◌, ◌≡◌, ◌≢◌, refl, ap, ◌∙◌, true, false, [], ◌∷◌, ◌++◌, none, ok, arith,
  ◌==◌, Bool-cases, inl, inr,
}
use mathlib.Core.List.{append-nil}
use stability_protocol.Base.Lists.{length}
use stability_protocol.Decimal.{Decimal, digits, precision, infinity}
use stability_protocol.Decimal.Text.{
  Text, is_digit, is_empty_text, skip_digits, fraction_matches, exponent_matches, matches_format,
  includes, number, fit_mantissa, from_plain, from_string, show, pad_start, trim_zeros, to_string,
  to_string_with_automatic_precision,
}
use stability_protocol.Decimal.Text.Digits.{
  AllDigits, AllDigits-show, AllDigits-pad_start, AllDigits-trim_zeros, number-show,
  number-pad_start, length-show, length-pad_start, not_empty-show, fit_mantissa-trim_zeros,
  skip_digits-append, includes-append, before-append, after-append,
}

-- A text of digits alone, and one of digits round a point, are in the format and have no exponent.
matches_whole : (s : Text) → AllDigits s → matches_format s ≡ true
unfolding matches_format fraction_matches
matches_whole s h = rw (← append-nil s) (rw (skip_digits-append s [] h) refl)

matches_point : (s m : Text) → AllDigits s → AllDigits m → matches_format (s ++ b'.' ∷ m) ≡ true
unfolding matches_format fraction_matches exponent_matches skip_digits
matches_point s m hs hm =
    rw (skip_digits-append s (b'.' ∷ m) hs)
      (rw (← append-nil m) (rw (skip_digits-append m [] hm) refl))

includes_whole : (c : ℕ) → is_digit c ≡ false → (s : Text) → AllDigits s → includes c s ≡ false
unfolding includes
includes_whole c h s hs = rw (← append-nil s) (rw (includes-append c h s [] hs) refl)

from_plain_whole :
    (s : Text) → AllDigits s → is_empty_text s ≡ false → from_plain s ≡ ok (number s * digits)
unfolding from_plain
from_plain_whole s h e = rw (e, matches_whole s h, includes_whole b'.' refl s h) refl

from_plain_point :
    (s m : Text)
    → AllDigits s
    → AllDigits m
    → is_empty_text (s ++ b'.' ∷ m) ≡ false
    → from_plain (s ++ b'.' ∷ m) ≡ ok (number s * digits + number (fit_mantissa m))
unfolding from_plain includes
from_plain_point s m hs hm e =
    rw
      (
        e,
        matches_point s m hs hm,
        includes-append b'.' refl s (b'.' ∷ m) hs,
        before-append b'.' refl s m hs,
        after-append b'.' refl s m hs,
      )
      refl

from_string_of_plain : (s : Text) → includes b'e' s ≡ false → from_string s ≡ from_plain s
unfolding from_string from_plain
from_string_of_plain s h = ground arith

from_string_whole :
    (s : Text) → AllDigits s → is_empty_text s ≡ false → from_string s ≡ ok (number s * digits)
from_string_whole s h e =
    from_string_of_plain s (includes_whole b'e' refl s h) ∙ from_plain_whole s h e

-- Digits round a point are read as the whole part and eighteen places.
pub from_string_point :
    (s m : Text)
    → AllDigits s
    → AllDigits m
    → is_empty_text (s ++ b'.' ∷ m) ≡ false
    → from_string (s ++ b'.' ∷ m) ≡ ok (number s * digits + number (fit_mantissa m))
unfolding includes
from_string_point s m hs hm e =
    from_string_of_plain (s ++ b'.' ∷ m)
      (includes-append b'e' refl s (b'.' ∷ m) hs ∙ includes_whole b'e' refl m hm)
    ∙ from_plain_point s m hs hm e

-- The eighteen digits of a mantissa.
pub length-mantissa : (n : ℕ) → n < digits → length (pad_start (show n)) ≡ precision
length-mantissa n h = length-pad_start (show n) (length-show n 17 h)

number-mantissa : (n : ℕ) → n < digits → number (fit_mantissa (trim_zeros (pad_start (show n)))) ≡ n
number-mantissa n h =
    ap number (fit_mantissa-trim_zeros (pad_start (show n)) (length-mantissa n h))
    ∙ number-pad_start (show n)
    ∙ number-show n

pub AllDigits-mantissa : (n : ℕ) → AllDigits (pad_start (show n))
AllDigits-mantissa n = AllDigits-pad_start (show n) (AllDigits-show n)

not_empty-whole : (n : ℕ) → is_empty_text (show n) ≡ false
not_empty-whole n = rw (← append-nil (show n)) (not_empty-show n [])

read_automatic : (a : Decimal) → from_string (to_string_with_automatic_precision a) ≡ ok a
unfolding to_string_with_automatic_precision
read_automatic a = elim (Bool-cases (a % digits == 0)) [
  | inl whole ↦ rw whole (
      from_string_whole (show (a / digits)) (AllDigits-show _) (not_empty-whole _)
      ∙ rw (number-show (a / digits)) (ap ok (ground arith)))
  | inr broken ↦
      let m : ℕ = a % digits in
      rw broken (
        from_string_point (show (a / digits)) (trim_zeros (pad_start (show m))) (AllDigits-show _)
          (AllDigits-trim_zeros _ (AllDigits-mantissa m)) (not_empty-show _ _)
        ∙ rw (number-show (a / digits), number-mantissa m (omega arith)) (ap ok (omega arith)))
]

to_string_finite :
    (a : Decimal) → a ≢ infinity → to_string a none ≡ to_string_with_automatic_precision a
unfolding to_string
to_string_finite a h = ground arith

-- The text that `toString()` gives of a finite decimal is read back as that decimal.
pub from_string-to_string : (a : Decimal) → a ≢ infinity → from_string (to_string a none) ≡ ok a
from_string-to_string a finite = rw (to_string_finite a finite) (read_automatic a)
