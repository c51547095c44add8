-- ===== src/Decimal/Text/Digits.antt =====
-- Runs of decimal digits: what they stand for, and what the readers make of them
-- (packages/lib-base/src/Decimal.ts).
use native.Mathlib.Nat.{pow-suc, pow-zero}
use mathlib.Core.List.{append-nil}
use stability_protocol.Base.{
  ℕ, zero, suc, ◌+◌, ◌-◌, ◌*◌, ◌/◌, ◌%◌, ◌^◌, ◌≤◌, ◌<◌, ◌≡◌, refl, ap, sym, ==-refl, ◌∙◌, true,
  false, [], ◌∷◌, ◌++◌, arith, ltb, ◌==◌, Bool-cases, inl, inr,
}
use stability_protocol.Base.Lists.{length, replicate, take, length-append, length-replicate}
use stability_protocol.Decimal.{precision}
use stability_protocol.Decimal.Text.{
  Text, is_digit, skip_digits, includes, before, after, number_from, number, fit_mantissa,
  show_fuel, show, pad_start, trim_cons, trim_zeros, is_empty_text,
}

abbrev pub AllDigits : Text → Type 0
AllDigits [] = Unit
AllDigits (c ∷ s) = (is_digit c ≡ true) × AllDigits s

pub AllDigits-append : (s t : Text) → AllDigits s → AllDigits t → AllDigits (s ++ t)
AllDigits-append [] t hs ht = ht
AllDigits-append (c ∷ s) t (h, hs) ht = (h, AllDigits-append s t hs ht)

pub number_from-append :
    (acc : ℕ) (s t : Text) → number_from acc (s ++ t) ≡ number_from (number_from acc s) t
unfolding number_from
number_from-append acc [] t = refl
number_from-append acc (c ∷ s) t = number_from-append (acc * 10 + (c - b'0')) s t

digit_at : (n : ℕ) → is_digit (b'0' + n % 10) ≡ true
digit_at n = ground arith

last_digit : (n : ℕ) → n < 10 → is_digit (b'0' + n) ≡ true
last_digit n h = ground arith

AllDigits-show_fuel : (f n : ℕ) → AllDigits (show_fuel f n)
unfolding show_fuel
AllDigits-show_fuel zero n = tt
AllDigits-show_fuel (suc f) n = elim (Bool-cases (ltb n 10)) [
  | inl small ↦ rw small (last_digit n (ground arith), tt)
  | inr large ↦ rw large (
      AllDigits-append (show_fuel f (n / 10)) ((b'0' + n % 10) ∷ [])
        (AllDigits-show_fuel f (n / 10)) (digit_at n, tt))
]

pub AllDigits-show : (n : ℕ) → AllDigits (show n)
unfolding show
AllDigits-show n = AllDigits-show_fuel (suc n) n

number-show_fuel : (f n : ℕ) → n < f → number (show_fuel f n) ≡ n
unfolding show_fuel number_from
number-show_fuel zero n h = absurd (omega arith)
number-show_fuel (suc f) n h = elim (Bool-cases (ltb n 10)) [
  | inl small ↦ rw small (omega arith)
  | inr large ↦
      rw
        (
          large,
          number_from-append 0 (show_fuel f (n / 10)) ((b'0' + n % 10) ∷ []),
          number-show_fuel f (n / 10) (ground arith),
        )
        (omega arith)
]

-- What `BigNumber` prints, it reads.
pub number-show : (n : ℕ) → number (show n) ≡ n
unfolding show
number-show n = number-show_fuel (suc n) n (omega arith)

length-show_fuel : (f n k : ℕ) → n < 10 ^ suc k → length (show_fuel f n) ≤ suc k
unfolding show_fuel
length-show_fuel zero n k h = omega arith
length-show_fuel (suc f) n zero h =
    let small : n < 10 = omega (arith, pow-suc 10 0, pow-zero 10) in ground arith
length-show_fuel (suc f) n (suc k) h = ground (
  arith,
  length-append (show_fuel f (n / 10)) ((b'0' + n % 10) ∷ []),
  length-show_fuel f (n / 10) k (omega (arith, pow-suc 10 (suc k))),
)

pub length-show : (n k : ℕ) → n < 10 ^ suc k → length (show n) ≤ suc k
unfolding show
length-show n k h = length-show_fuel (suc n) n k h

not_empty-snoc : (s : Text) (c : ℕ) (t : Text) → is_empty_text ((s ++ c ∷ []) ++ t) ≡ false
not_empty-snoc [] c t = refl
not_empty-snoc (d ∷ s) c t = refl

pub not_empty-show : (n : ℕ) (t : Text) → is_empty_text (show n ++ t) ≡ false
unfolding show show_fuel
not_empty-show n t = elim (Bool-cases (ltb n 10)) [
  | inl small ↦ rw small refl
  | inr large ↦ rw large (not_empty-snoc (show_fuel n (n / 10)) (b'0' + n % 10) t)
]

-- Leading zeros change nothing, and trailing ones are put back.
number-zeros : (k : ℕ) (s : Text) → number (replicate k b'0' ++ s) ≡ number s
unfolding number_from
number-zeros zero s = refl
number-zeros (suc k) s = number-zeros k s

pub number-pad_start : (s : Text) → number (pad_start s) ≡ number s
unfolding pad_start
number-pad_start s = number-zeros (precision - length s) s

pub length-pad_start : (s : Text) → length s ≤ precision → length (pad_start s) ≡ precision
unfolding pad_start
length-pad_start s h = omega (
  arith,
  length-append (replicate (precision - length s) b'0') s,
  length-replicate {A = ℕ} (precision - length s) b'0',
)

AllDigits-zeros : (k : ℕ) → AllDigits (replicate k b'0')
AllDigits-zeros zero = tt
AllDigits-zeros (suc k) = (refl, AllDigits-zeros k)

pub AllDigits-pad_start : (s : Text) → AllDigits s → AllDigits (pad_start s)
unfolding pad_start
AllDigits-pad_start s h =
    AllDigits-append (replicate (precision - length s) b'0') s
      (AllDigits-zeros (precision - length s)) h

-- `t` is `s` without `k` zeros at its end.
abbrev IsTrimmed : ℕ → Text → Text → Type 0
IsTrimmed k t s = (length t + k ≡ length s) × (t ++ replicate k b'0' ≡ s)

trim_cons-IsTrimmed :
    (c : ℕ) (t s : Text) (k : ℕ) → IsTrimmed k t s → (j : ℕ) × IsTrimmed j (trim_cons c t) (c ∷ s)
unfolding trim_cons
trim_cons-IsTrimmed c [] s k (l, e) = elim (Bool-cases (c == b'0')) [
  | inl zero_digit ↦ (suc k, rw zero_digit (omega arith, ground arith))
  | inr other ↦ (k, rw other (omega arith, ap (◌∷◌ c) e))
]
trim_cons-IsTrimmed c (d ∷ t) s k (l, e) = (k, (omega arith, ap (◌∷◌ c) e))

trim_zeros-IsTrimmed : (s : Text) → (k : ℕ) × IsTrimmed k (trim_zeros s) s
unfolding trim_zeros
trim_zeros-IsTrimmed [] = (0, (omega arith, refl))
trim_zeros-IsTrimmed (c ∷ s) =
    let (k, t) = trim_zeros-IsTrimmed s in trim_cons-IsTrimmed c (trim_zeros s) s k t

take_all : (n : ℕ) (s : Text) → length s ≤ n → take n s ≡ s
take_all zero [] h = refl
take_all zero (c ∷ s) h = absurd (omega arith)
take_all (suc n) [] h = refl
take_all (suc n) (c ∷ s) h = ap (◌∷◌ c) (take_all n s (omega arith))

fit_mantissa_of_IsTrimmed :
    (t s : Text) (k : ℕ) → IsTrimmed k t s → length s ≡ precision → fit_mantissa t ≡ s
unfolding fit_mantissa
fit_mantissa_of_IsTrimmed t s k (l, e) h = elim (Bool-cases (ltb (length t) precision)) [
  | inl short ↦ let same : precision - length t ≡ k = omega arith in rw (short, same) e
  | inr long ↦
      let none_left : k ≡ 0 = ground arith in
      rw (long, take_all precision t (omega arith))
        (sym (append-nil t) ∙ ap (λ j. t ++ replicate j b'0') (sym none_left) ∙ e)
]

-- A mantissa of 18 digits is what the reader makes of it once its trailing zeros are cut.
pub fit_mantissa-trim_zeros : (s : Text) → length s ≡ precision → fit_mantissa (trim_zeros s) ≡ s
fit_mantissa-trim_zeros s h =
    let (k, t) = trim_zeros-IsTrimmed s in fit_mantissa_of_IsTrimmed (trim_zeros s) s k t h

AllDigits-trim_cons :
    (c : ℕ) (t : Text) → is_digit c ≡ true → AllDigits t → AllDigits (trim_cons c t)
unfolding trim_cons
AllDigits-trim_cons c [] h ht = ground arith
AllDigits-trim_cons c (d ∷ t) h ht = (h, ht)

pub AllDigits-trim_zeros : (s : Text) → AllDigits s → AllDigits (trim_zeros s)
unfolding trim_zeros
AllDigits-trim_zeros [] h = tt
AllDigits-trim_zeros (c ∷ s) (h, hs) =
    AllDigits-trim_cons c (trim_zeros s) h (AllDigits-trim_zeros s hs)

-- Readers pass over a run of digits.
pub skip_digits-append : (s t : Text) → AllDigits s → skip_digits (s ++ t) ≡ skip_digits t
unfolding skip_digits
skip_digits-append [] t h = refl
skip_digits-append (c ∷ s) t (h, hs) = rw h (skip_digits-append s t hs)

module _ (sep : ℕ) (no_digit : is_digit sep ≡ false) where
  not_sep : (c : ℕ) → is_digit c ≡ true → (c == sep) ≡ false
  not_sep c h = ground arith

  pub includes-append : (s t : Text) → AllDigits s → includes sep (s ++ t) ≡ includes sep t
  unfolding includes
  includes-append [] t h = refl
  includes-append (c ∷ s) t (h, hs) = rw (not_sep c h) (includes-append s t hs)

  pub before-append : (s t : Text) → AllDigits s → before sep (s ++ sep ∷ t) ≡ s
  unfolding before
  before-append [] t h = rw (==-refl sep) refl
  before-append (c ∷ s) t (h, hs) = rw (not_sep c h) (ap (◌∷◌ c) (before-append s t hs))

  pub after-append : (s t : Text) → AllDigits s → after sep (s ++ sep ∷ t) ≡ t
  unfolding after
  after-append [] t h = rw (==-refl sep) refl
  after-append (c ∷ s) t (h, hs) = rw (not_sep c h) (after-append s t hs)
