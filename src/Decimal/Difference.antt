-- ===== src/Decimal/Difference.antt =====
-- `class Difference` (packages/lib-base/src/Decimal.ts): a signed decimal, or no number at all. The
-- arguments have gone through `Decimal.from`; `undefined` is `none`.
use stability_protocol.Base.{
  ℕ, ◌+◌, ◌-◌, ◌<◌, ◌≡◌, ◌≢◌, ◌↔◌, Bool, true, false, Option, none, some, [], ◌∷◌, ◌++◌, Result, ok,
  ◌>>=◌, if◌then◌else◌, arith,
}
use stability_protocol.Base.Lists.{replicate}
use stability_protocol.Decimal
use stability_protocol.Decimal.{Decimal, infinity, add, sub, infinite, gt, gte, is_zero}
use stability_protocol.Decimal.Text.{Text, from_string, to_string}

pub data Sign : Type 0 where
  no_sign plus minus : Sign

-- `DifferenceRepresentation`.
pub record Signed : Type 0 where
  pub sign : Sign
  pub absolute_value : Decimal

abbrev pub Difference : Type 0
Difference = Option Signed

abbrev pub signed : Sign → Decimal → Difference
signed s a = some (record { sign = s; absolute_value = a })

-- Neither difference is negative where it is taken.
unfoldable pub between_decimals : Decimal → Decimal → Difference
between_decimals a b =
    if infinite a
    then (if infinite b then none else signed plus a)
    else if infinite b
    then signed minus b
    else if gt a b
    then signed plus (a - b)
    else if gt b a
    then signed minus (b - a)
    else signed no_sign 0

unfoldable pub between : Option Decimal → Option Decimal → Difference
unfolding between_decimals
between (some a) (some b) = between_decimals a b
between _ _ = none

unfoldable pub mul : Difference → Decimal → Difference
mul none multiplier = none
mul (some d) multiplier = signed d.sign (Decimal.mul d.absolute_value multiplier)

-- `get nonZero`, `get infinite` and `get finite`, by their test of the absolute value.
abbrev pub keep_if : (Decimal → Bool) → Difference → Difference
keep_if test none = none
keep_if test (some d) = if test d.absolute_value then some d else none

abbrev pub not_zero : Decimal → Bool
not_zero a = if is_zero a then false else true

abbrev pub is_finite : Decimal → Bool
is_finite a = if infinite a then false else true

abbrev pub non_zero : Difference → Difference
non_zero d = keep_if not_zero d

abbrev pub infinite_difference : Difference → Difference
infinite_difference d = keep_if infinite d

abbrev pub finite_difference : Difference → Difference
finite_difference d = keep_if is_finite d

abbrev pub is_plus : Sign → Bool
is_plus plus = true
is_plus _ = false

abbrev pub is_minus : Sign → Bool
is_minus minus = true
is_minus _ = false

abbrev pub positive : Difference → Difference
positive none = none
positive (some d) = if is_plus d.sign then some d else none

abbrev pub negative : Difference → Difference
negative none = none
negative (some d) = if is_minus d.sign then some d else none

abbrev pub absolute_value : Difference → Option Decimal
absolute_value none = none
absolute_value (some d) = some d.absolute_value

-- `nonZeroish`: the least amount that does not round to zero is read from a text.
unfoldable pub zeroish : ℕ → Text
zeroish places = b'0' ∷ b'.' ∷ (replicate places b'0' ++ b'5' ∷ [])

unfoldable pub non_zeroish : Difference → ℕ → Result Difference
non_zeroish none places = ok none
non_zeroish (some d) places = do
  least ← from_string (zeroish places)
  ok (if gte d.absolute_value least then some d else none)

abbrev pub sign_text : Sign → Text
sign_text no_sign = []
sign_text plus = b'+' ∷ []
sign_text minus = b'-' ∷ []

-- `toString`.
unfoldable pub to_text : Difference → Option ℕ → Text
to_text none precision = b'N' ∷ b'/' ∷ b'A' ∷ []
to_text (some d) precision = sign_text d.sign ++ to_string d.absolute_value precision

-- The difference with its sign turned.
abbrev pub opposite : Sign → Sign
opposite no_sign = no_sign
opposite plus = minus
opposite minus = plus

abbrev pub turned : Difference → Difference
turned none = none
turned (some d) = signed (opposite d.sign) d.absolute_value

-- What a sign and an absolute value say of two finite decimals.
abbrev pub AccountsBy : Decimal → Decimal → Sign → Decimal → Type 0
AccountsBy a b no_sign v = (a ≡ b) × (v ≡ 0)
AccountsBy a b plus v = (b < a) × (b + v ≡ a)
AccountsBy a b minus v = (a < b) × (a + v ≡ b)

abbrev pub Accounts : Decimal → Decimal → Difference → Type 0
Accounts a b none = ⊥
Accounts a b (some d) = AccountsBy a b d.sign d.absolute_value

-- The difference of two finite decimals, added to the smaller one on its side, gives the larger one, and its sign
-- says which of them that is; exchanging the two decimals turns the sign and nothing else; and two
-- decimals have no difference exactly if both are infinite.
pub between_lem :
    (a b : Decimal)
    → (a ≢ infinity → b ≢ infinity → Accounts a b (between (some a) (some b)))
      × (between (some b) (some a) ≡ turned (between (some a) (some b)))
      × ((between (some a) (some b) ≡ none) ↔ ((a ≡ infinity) × (b ≡ infinity)))
unfolding between
between_lem a b = (λ p q. ground arith, ground arith, (λ h. ground arith, λ h. ground arith))
