-- ===== src/Base/Results.antt =====
-- What a call that may throw returns. The constructors of `Error` name the messages of the `throw`
-- and `assert` statements; `type_error` is JavaScript's fault on reading a field of `undefined`.
use mathlib.Core.Path.{◌≡◌, refl}
use mathlib.Core.Logic.{◌⊎◌, inl, inr}
use mathlib.Core.Bool.{Bool, true, false, not}

pub data Error : Type 0 where
  negative_decimal bad_decimal_format invalid_decimalish : Error
  assertion_failed type_error out_of_fuel : Error
  property_not_allowed property_missing : Error
  both_collateral_changes both_debt_changes no_nonzero_parameter : Error
  net_debt_below_reserve create_onto_existing close_empty current_above_initial : Error
  rewards_not_applied debt_might_fall amount_too_low not_truncated price_unavailable : Error
  no_address no_signer transaction_cancelled call_exception number_overflow : Error

-- A returned value, or what was thrown.
pub data Result {ℓ} (V : Type ℓ) : Type ℓ where
  err : (thrown : Error) → Result V
  ok : (value : V) → Result V

-- `if (b) throw e`.
abbrev pub throw_if : Bool → Error → Result (Unit {0})
throw_if false thrown = ok tt
throw_if true thrown = err thrown

-- `assert(b)`, and `if (!b) throw e`.
abbrev pub guard : Bool → Error → Result (Unit {0})
guard holds thrown = throw_if (not holds) thrown

-- The statement after one that may throw.
infixl 5 ◌>>=◌
abbrev pub ◌>>=◌ {ℓ κ} : {V : Type ℓ} {W : Type κ} → Result V → (V → Result W) → Result W
err thrown >>= then_do = err thrown
ok value >>= then_do = then_do value

infixl 5 ◌>>◌
abbrev pub ◌>>◌ {κ} : {W : Type κ} → Result (Unit {0}) → Result W → Result W
first >> second = first >>= λ done. second

pub Result-cases {ℓ} :
    {V : Type ℓ} (r : Result V) → ((v : V) × (r ≡ ok v)) ⊎ ((e : Error) × (r ≡ err e))
Result-cases (err thrown) = inr (thrown, refl)
Result-cases (ok value) = inl (value, refl)

-- A chain returns only if its first step does.
pub >>=-eq-ok {ℓ κ} :
    {V : Type ℓ} {W : Type κ} (first : Result V) (then_do : V → Result W) {w : W}
    → (first >>= then_do) ≡ ok w
    → (v : V) × (first ≡ ok v) × (then_do v ≡ ok w)
>>=-eq-ok (err thrown) then_do returned = cc
>>=-eq-ok (ok value) then_do returned = (value, refl, returned)
