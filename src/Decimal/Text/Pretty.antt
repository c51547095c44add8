-- ===== src/Decimal/Text/Pretty.antt =====
-- `prettify` and `shorten` (packages/lib-base/src/Decimal.ts).
use stability_protocol.Base.{
  ℕ, zero, suc, ◌+◌, ◌-◌, ◌*◌, ◌/◌, ◌%◌, ◌^◌, ◌≡◌, refl, ◌∙◌, Bool, true, false, ◌&&◌, some, [],
  ◌∷◌, ◌++◌, ◌==◌, ltb, if◌then◌else◌, arith, Bool-cases, inl, inr,
}
use stability_protocol.Base.Lists.{length, take}
use stability_protocol.Decimal.{Decimal, digits, precision, div, infinite}
use stability_protocol.Decimal.Text.{
  Text, is_digit, includes, before, after, to_string, to_string_with_precision, show, pad_start,
  round_up,
}
use stability_protocol.Decimal.Text.Digits.{AllDigits, AllDigits-show, AllDigits-pad_start}

-- How many digits a text begins with.
unfoldable pub digit_run : Text → ℕ
digit_run [] = 0
digit_run (c ∷ s) = if is_digit c then suc (digit_run s) else 0

-- `(\d{3})+(?!\d)` matches at the start of a text.
abbrev pub is_grouped : ℕ → Bool
is_grouped run = ltb 0 run && run % 3 == 0

-- `replace(/(\d)(?=(\d{3})+(?!\d))/g, "$1,")`.
unfoldable pub group : Text → Text
unfolding digit_run
group [] = []
group (c ∷ s) =
    let rest = group s in
    if is_digit c && is_grouped (digit_run s) then c ∷ b',' ∷ rest else c ∷ rest

-- The text has at most one point, where `split` takes it apart.
unfoldable pub group_characteristic : Text → Text
unfolding group
group_characteristic s =
    if includes b'.' s then group (before b'.' s) ++ (b'.' ∷ after b'.' s) else group s

unfoldable pub prettify : Decimal → ℕ → Text
prettify a places = group_characteristic (to_string a (some places))

-- `magnitudes`.
abbrev pub magnitude_text : ℕ → Text
magnitude_text m =
    if m == 0
    then []
    else if m == 1
    then b'K' ∷ []
    else if m == 2
    then b'M' ∷ []
    else if m == 3
    then b'B' ∷ []
    else b'T' ∷ []

abbrev pub at_most : ℕ → ℕ → ℕ
at_most a b = if ltb a b then a else b

-- Subtraction on ℕ stops at 0, as `Math.max` does; a text of a number is not empty.
unfoldable pub shorten : Decimal → Text
shorten a =
    let characteristic_length = length (to_string a (some 0)) in
    let magnitude = at_most ((characteristic_length - 1) / 3) 4 in
    prettify (div a (10 ^ (precision + 3 * magnitude)))
      (3 * (magnitude + 1) - characteristic_length)
    ++ magnitude_text magnitude

unfoldable pub without_commas : Text → Text
without_commas [] = []
without_commas (c ∷ s) = let rest = without_commas s in if c == b',' then rest else c ∷ rest

abbrev NoComma : Text → Type 0
NoComma s = includes b',' s ≡ false

without_commas_same : (s : Text) → NoComma s → without_commas s ≡ s
unfolding without_commas includes
without_commas_same [] h = refl
without_commas_same (c ∷ s) h = ground (arith, without_commas_same s)

without_commas-append :
    (s t : Text) → without_commas (s ++ t) ≡ without_commas s ++ without_commas t
unfolding without_commas
without_commas-append [] t = refl
without_commas-append (c ∷ s) t = ground (arith, without_commas-append s t)

without_commas-group : (s : Text) → NoComma s → without_commas (group s) ≡ s
unfolding without_commas includes group
without_commas-group [] h = refl
without_commas-group (c ∷ s) h = ground (arith, without_commas-group s)

split_join : (s : Text) → includes b'.' s ≡ true → before b'.' s ++ (b'.' ∷ after b'.' s) ≡ s
unfolding includes before after
split_join [] h = cc
split_join (c ∷ s) h = ground (arith, split_join s)

NoComma-before : (s : Text) → NoComma s → NoComma (before b'.' s)
unfolding includes before
NoComma-before [] h = refl
NoComma-before (c ∷ s) h = ground (arith, NoComma-before s)

NoComma-after : (s : Text) → NoComma s → NoComma (after b'.' s)
unfolding includes after
NoComma-after [] h = refl
NoComma-after (c ∷ s) h = ground (arith, NoComma-after s)

NoComma-append : (s t : Text) → NoComma s → NoComma t → NoComma (s ++ t)
unfolding includes
NoComma-append [] t hs ht = ht
NoComma-append (c ∷ s) t hs ht = ground (arith, NoComma-append s t)

NoComma-take : (n : ℕ) (s : Text) → NoComma s → NoComma (take n s)
unfolding includes
NoComma-take zero s h = refl
NoComma-take (suc n) [] h = refl
NoComma-take (suc n) (c ∷ s) h = ground (arith, NoComma-take n s)

NoComma-digits : (s : Text) → AllDigits s → NoComma s
unfolding includes
NoComma-digits [] h = refl
NoComma-digits (c ∷ s) (d, ds) = ground (arith, NoComma-digits s ds)

NoComma-printed :
    (value places : ℕ)
    → NoComma (show (value / digits) ++ (b'.' ∷ take places (pad_start (show (value % digits)))))
unfolding includes
NoComma-printed value places =
    NoComma-append (show (value / digits)) (b'.' ∷ take places (pad_start (show (value % digits))))
      (NoComma-digits (show (value / digits)) (AllDigits-show (value / digits)))
      (NoComma-take places (pad_start (show (value % digits))) (
        NoComma-digits (pad_start (show (value % digits)))
          (AllDigits-pad_start (show (value % digits)) (AllDigits-show (value % digits)))))

NoComma-with_precision : (a places : ℕ) → NoComma (to_string_with_precision a places)
unfolding to_string_with_precision
NoComma-with_precision a places =
    let value = if ltb places precision then round_up a places else a in
    elim (Bool-cases (places == 0)) [
      | inl e ↦ rw e (NoComma-digits (show (value / digits)) (AllDigits-show (value / digits)))
      | inr e ↦ rw e (NoComma-printed value places)
    ]

NoComma-to_string : (a places : ℕ) → NoComma (to_string a (some places))
unfolding to_string includes
NoComma-to_string a places = elim (Bool-cases (infinite a)) [
  | inl e ↦ rw e refl
  | inr e ↦ rw e (NoComma-with_precision a places)
]

without_commas-group_characteristic :
    (s : Text) → NoComma s → without_commas (group_characteristic s) ≡ s
unfolding group_characteristic without_commas
without_commas-group_characteristic s h = elim (Bool-cases (includes b'.' s)) [
  | inl e ↦ rw e (
      without_commas-append (group (before b'.' s)) (b'.' ∷ after b'.' s)
      ∙ rw
          (
            without_commas-group (before b'.' s) (NoComma-before s h),
            without_commas_same (after b'.' s) (NoComma-after s h),
          )
          (split_join s e))
  | inr e ↦ rw e (without_commas-group s h)
]

digit_run-digits : (s : Text) → AllDigits s → digit_run s ≡ length s
unfolding digit_run
digit_run-digits [] h = refl
digit_run-digits (c ∷ s) (d, ds) = ground (arith, digit_run-digits s ds)

-- Of a text of digits alone, the grouping makes one with a comma for every three digits after the first.
pub length-group : (s : Text) → AllDigits s → length (group s) ≡ length s + (length s - 1) / 3
unfolding group
length-group [] h = omega arith
length-group (c ∷ s) (d, ds) = ground (arith, digit_run-digits s ds, length-group s ds)

-- Without its commas, what `prettify` prints is the plain text with the same places.
pub without_commas-prettify :
    (a : Decimal) (places : ℕ) → without_commas (prettify a places) ≡ to_string a (some places)
unfolding prettify
without_commas-prettify a places =
    without_commas-group_characteristic (to_string a (some places)) (NoComma-to_string a places)
