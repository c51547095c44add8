-- ===== src/Decimal/Text/Precision.antt =====
-- Printing with a given number of places rounds to the nearest (packages/lib-base/src/Decimal.ts).
use native.Mathlib.Nat.{pow-suc, pow-zero}
use stability_protocol.Base.{
  ℕ, zero, suc, ◌+◌, ◌-◌, ◌*◌, ◌/◌, ◌%◌, ◌^◌, ◌≤◌, ◌<◌, ◌≡◌, ◌≢◌, refl, ap, sym, ◌∙◌, true, [], ◌∷◌,
  ◌++◌, some, ok, arith, ltb,
}
use stability_protocol.Base.Lists.{
  length, take, drop, replicate, length-take, take-drop, length-drop, length-replicate,
}
use stability_protocol.Decimal.{Decimal, digits, precision, infinity}
use stability_protocol.Decimal.Rounding.{mul_mono}
use stability_protocol.Decimal.Text.{
  Text, is_digit, number_from, number, fit_mantissa, from_string, show, pad_start, to_string,
  to_string_with_precision, round_up,
}
use stability_protocol.Decimal.Text.Digits.{
  AllDigits, AllDigits-show, number-show, number-pad_start, not_empty-show, number_from-append,
}
use stability_protocol.Decimal.Text.RoundTrip.{
  from_string_point, length-mantissa, AllDigits-mantissa,
}

pow_add : (n a b : ℕ) → n ^ (a + b) ≡ n ^ a * n ^ b
pow_add n zero b = rw pow-zero (ap (λ (j : ℕ). n ^ j) (zero_add b) ∙ omega arith)
  where
    zero_add : (j : ℕ) → 0 + j ≡ j
    zero_add j = omega arith
pow_add n (suc a) b =
    ap (λ (j : ℕ). n ^ j) (suc_add a b) ∙ rw (pow-suc, pow_add n a b, pow-suc) (omega arith)
  where
    suc_add : (i j : ℕ) → suc i + j ≡ suc (i + j)
    suc_add i j = omega arith

number_from-eq : (acc : ℕ) (s : Text) → number_from acc s ≡ acc * 10 ^ length s + number s
unfolding number_from
number_from-eq acc [] = rw pow-zero (omega arith)
number_from-eq acc (c ∷ s) =
    rw (number_from-eq (acc * 10 + (c - b'0')) s, number_from-eq (0 * 10 + (c - b'0')) s, pow-suc)
      (omega arith)

digit-le : (c : ℕ) → is_digit c ≡ true → 0 * 10 + (c - b'0') ≤ 9
digit-le c h = ground arith

number-lt : (s : Text) → AllDigits s → number s < 10 ^ length s
unfolding number_from
number-lt [] h = rw pow-zero (omega arith)
number-lt (c ∷ s) (h, hs) =
    rw (number_from-eq (0 * 10 + (c - b'0')) s, pow-suc)
      (omega (arith, number-lt s hs, mul_mono (digit-le c h) (10 ^ length s)))

number-zeros : (k : ℕ) → number (replicate k b'0') ≡ 0
unfolding number_from
number-zeros zero = refl
number-zeros (suc k) = number-zeros k

AllDigits-take : (n : ℕ) (s : Text) → AllDigits s → AllDigits (take n s)
AllDigits-take zero s h = tt
AllDigits-take (suc n) [] h = tt
AllDigits-take (suc n) (c ∷ s) (h, hs) = (h, AllDigits-take n s hs)

AllDigits-drop : (n : ℕ) (s : Text) → AllDigits s → AllDigits (drop n s)
AllDigits-drop zero s h = h
AllDigits-drop (suc n) [] h = tt
AllDigits-drop (suc n) (c ∷ s) (h, hs) = AllDigits-drop n s hs

-- The first digits of a run stand for the quotient by a power of ten.
number-take :
    (p : ℕ) (s : Text)
    → AllDigits s
    → p ≤ length s
    → (number (take p s) * 10 ^ (length s - p) ≤ number s)
      × (number s < number (take p s) * 10 ^ (length s - p) + 10 ^ (length s - p))
number-take p s h k =
    let rest : length (drop p s) ≡ length s - p = omega (arith, length-drop p s k) in
    let parts : number s ≡ number (take p s) * 10 ^ length (drop p s) + number (drop p s) =
      ap number (sym (take-drop p s))
      ∙ number_from-append 0 (take p s) (drop p s)
      ∙ number_from-eq (number (take p s)) (drop p s) in
    rw (← rest) (omega (arith, parts, number-lt (drop p s) (AllDigits-drop p s h)))

number-fit_mantissa :
    (p : ℕ) (s : Text)
    → length s ≡ p
    → p < precision
    → number (fit_mantissa s) ≡ number s * 10 ^ (precision - p)
unfolding fit_mantissa
number-fit_mantissa p s l h =
    let short : ltb (length s) precision ≡ true = ground arith in
    let zeros : Text = replicate (precision - p) b'0' in
    rw (short, l)
      (number_from-append 0 s zeros
        ∙ number_from-eq (number s) zeros
        ∙ rw (length-replicate {A = ℕ} (precision - p) b'0', number-zeros (precision - p))
            (omega arith))

-- What is read back of a value printed with `p` places: the value, cut to `p` places.
abbrev IsCut : ℕ → ℕ → Decimal → Type 0
IsCut p v r = (n : ℕ) × (r ≡ n * 10 ^ (precision - p)) × (r ≤ v) × (v < r + 10 ^ (precision - p))

cut_text : ℕ → ℕ → Text
cut_text p v = show (v / digits) ++ b'.' ∷ take p (pad_start (show (v % digits)))

digits-split : (p : ℕ) → p < precision → digits ≡ 10 ^ p * 10 ^ (precision - p)
digits-split p h =
    let e : precision ≡ p + (precision - p) = omega arith in
    ap (λ (j : ℕ). 10 ^ j) e ∙ pow_add 10 p (precision - p)

IsCut-parts :
    (p v w : ℕ)
    → p < precision
    → (w * 10 ^ (precision - p) ≤ number (pad_start (show (v % digits))))
      × (number (pad_start (show (v % digits))) < w * 10 ^ (precision - p) + 10 ^ (precision - p))
    → IsCut p v (v / digits * digits + w * 10 ^ (precision - p))
IsCut-parts p v w h b =
    let e : number (pad_start (show (v % digits))) ≡ v % digits =
      number-pad_start (show (v % digits)) ∙ number-show (v % digits) in
    let whole : v / digits * digits ≡ v / digits * (10 ^ p * 10 ^ (precision - p)) =
      ap (λ (j : ℕ). v / digits * j) (digits-split p h) in
    (v / digits * 10 ^ p + w, omega arith, omega arith, omega arith)

read-IsCut :
    (p v : ℕ) → p < precision → (r : Decimal) × (from_string (cut_text p v) ≡ ok r) × IsCut p v r
unfolding cut_text
read-IsCut p v h =
    let m : ℕ = v % digits in
    let s : Text = pad_start (show m) in
    let w : ℕ = number (take p s) in
    let q : ℕ = 10 ^ (precision - p) in
    let l : length s ≡ precision = length-mantissa m (omega arith) in
    (
      v / digits * digits + w * q,
      from_string_point (show (v / digits)) (take p s) (AllDigits-show _)
            (AllDigits-take p s (AllDigits-mantissa m)) (not_empty-show _ _)
          ∙ rw
              (
                number-show (v / digits),
                number-fit_mantissa p (take p s) (length-take p s (omega arith)) h,
              )
              refl,
      IsCut-parts p v w h (rw l at (number-take p s (AllDigits-mantissa m) (omega arith))),
    )

abbrev step : ℕ → ℕ
step p = 10 ^ (precision - p)

half_step : (p : ℕ) → p < precision → 2 * (10 ^ (precision - 1 - p) * 5) ≡ step p
half_step p h =
    let e : precision - p ≡ suc (precision - 1 - p) = omega arith in
    omega (arith, ap (λ (j : ℕ). 10 ^ j) e, pow-suc 10 (precision - 1 - p))

to_string_places :
    (a : Decimal) (p : ℕ)
    → a ≢ infinity
    → 0 < p
    → p < precision
    → to_string a (some p) ≡ cut_text p (round_up a p)
unfolding to_string to_string_with_precision cut_text
to_string_places a p h k l = ground arith

-- The text that `toString` gives of a finite decimal with one to seventeen places is read back as the
-- multiple of the last place that is nearest to the decimal, a tie going up.
pub to_string_nearest :
    (a : Decimal) (p : ℕ)
    → a ≢ infinity
    → 0 < p
    → p < precision
    → (r n : ℕ) × (from_string (to_string a (some p)) ≡ ok r)
      × (r ≡ n * 10 ^ (precision - p))
      × (2 * r ≤ 2 * a + 10 ^ (precision - p))
      × (2 * a < 2 * r + 10 ^ (precision - p))
unfolding round_up
to_string_nearest a p h k l =
    let (r, e, (n, multiple, low, high)) = read-IsCut p (round_up a p) l in
    (
      r,
      n,
      ap from_string (to_string_places a p h k l) ∙ e,
      multiple,
      omega (arith, half_step p l),
      omega (arith, half_step p l),
    )
