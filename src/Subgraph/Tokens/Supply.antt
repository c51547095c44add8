-- ===== src/Subgraph/Tokens/Supply.antt =====
-- The supply of each token and the balances of its holders.
use stability_protocol.Base.{
  ℕ, Bool, true, false, ◌==◌, if◌then◌else◌, Option, none, some, ◌≡◌, refl, arith, sym, subst, ap,
}
use stability_protocol.Base.Int.{ℤ, pos, pos_part, neg_part, ◌+ℤ◌, int_laws}
use stability_protocol.Base.Maps.{
  Map, number_key, pair_key, load_entity, save_entity, OnSome, part_ℤ, sum_by, sum_by-save_entity,
  load_entity-save_entity,
}
use stability_protocol.Subgraph.Entities.{TokenEntity, TokenBalance}
use stability_protocol.Subgraph.Graph.{Graph, pure, gets, ◌>>=◌, ◌>>◌, modify, found_or, get_user}
use stability_protocol.Subgraph.Frame.{Ledger, ledger, Keeps-ledger, Keeps-at, after->>=}
use stability_protocol.Subgraph.Frame.Untouched.{Keeps-get_user}
use stability_protocol.Subgraph.Tokens.{
  save_balance, create_balance, get_token_balance, change_balance,
}

-- The recorded supply of a token, nothing for one that is not stored, and the sum of its balances.
abbrev pub total_of : Option TokenEntity → ℤ
total_of none = pos 0
total_of (some token) = token.total_supply

abbrev pub supply_in : ℕ → Map ℕ TokenEntity → ℤ
supply_in t tokens = total_of (load_entity t tokens)

abbrev pub supply : ℕ → Ledger → ℤ
supply t l = supply_in t l.tokens

abbrev pub of_token : ℕ → ℕ × ℕ → TokenBalance → ℤ
of_token t id b = if id.0 == t then b.balance else pos 0

abbrev pub held : ℕ → Ledger → ℤ
held t l = sum_by (of_token t) l.balances

abbrev pub IsConserved : ℕ → Graph → Type 0
IsConserved t g = supply t (ledger g) ≡ held t (ledger g)

-- An amount of the token at `address`, as an amount of the token `t`.
abbrev pub amount_of : ℕ → ℕ → ℤ → ℤ
amount_of t address value = if address == t then value else pos 0

-- A balance is read from a store of the same supplies and of the same sums.
abbrev IsRead : ℕ → ℕ × ℕ → Ledger → TokenBalance × Graph → Type 0
IsRead t id l (b, g) =
    (g.tokens ≡ l.tokens) × (held t (ledger g) ≡ held t l) × (load_entity id g.balances ≡ some b)

pub amount_of_zero : (t a : ℕ) → amount_of t a (pos 0) ≡ pos 0
amount_of_zero t a = ground arith

zero_saved :
    (t a : ℕ) (after before : ℤ) → after +ℤ pos 0 ≡ before +ℤ amount_of t a (pos 0) → after ≡ before
zero_saved t a after before e = omega (
  int_laws,
  ap pos_part e,
  ap neg_part e,
  ap pos_part (amount_of_zero t a),
  ap neg_part (amount_of_zero t a),
)

saved_sum :
    (t : ℕ) (id : ℕ × ℕ) (b : TokenBalance) (m : Map (ℕ × ℕ) TokenBalance)
    (found : Option TokenBalance)
    → load_entity id m ≡ found
    → sum_by (of_token t) (save_entity id b m) +ℤ part_ℤ (of_token t) id found
      ≡ sum_by (of_token t) m +ℤ of_token t id b
saved_sum t id b m found e = rw (sym e) (sum_by-save_entity (of_token t) id b m)

-- `b` says that the token is the one that is counted.
pub shifted_sum :
    (b : Bool) (after before x y out within : ℤ)
    → y +ℤ out ≡ x +ℤ within
    → after +ℤ (if b then x else pos 0) ≡ before +ℤ (if b then y else pos 0)
    → after +ℤ (if b then out else pos 0) ≡ before +ℤ (if b then within else pos 0)
shifted_sum true after before x y out within shift e =
    omega (int_laws, ap pos_part e, ap neg_part e, ap pos_part shift, ap neg_part shift)
shifted_sum false after before x y out within shift e = e

find_balance-IsRead :
    (t a o owner : ℕ) (g : Graph) (found : Option TokenBalance)
    → load_entity (a, o) g.balances ≡ found
    → OnSome (IsRead t (a, o) (ledger g)) (found_or found (create_balance a o owner) g)
unfolding create_balance save_balance modify pure found_or ◌>>◌ ◌>>=◌
find_balance-IsRead t a o owner g (some b) e = (refl, refl, e)
find_balance-IsRead t a o owner g none e =
    let made : TokenBalance = record { token = a; owner = owner; balance = pos 0 } in
    (
      refl,
      zero_saved t a _ _ (saved_sum t (a, o) made g.balances none e),
      rw (load_entity-save_entity (a, o) (a, o) made g.balances) (ground arith),
    )

get_token_balance-IsRead :
    (t a o : ℕ) (g : Graph) → OnSome (IsRead t (a, o) (ledger g)) (get_token_balance a o g)
unfolding get_token_balance gets ◌>>=◌
get_token_balance-IsRead t a o g =
    after->>= _ _ (get_user o) _ g (Keeps-at _ _ (Keeps-ledger _ (Keeps-get_user o)) g) λ user h e.
      subst
        (λ l.
          OnSome (IsRead t (a, o) l)
            (found_or (load_entity (a, o) h.balances) (create_balance a o user.id) h))
        e (find_balance-IsRead t a o user.id h _ refl)

-- A balance changes by the difference of two amounts.
abbrev pub IsShifted : ℕ → ℤ → ℤ → Ledger → Graph → Type 0
IsShifted t out within l g = (g.tokens ≡ l.tokens) × (held t (ledger g) +ℤ out ≡ held t l +ℤ within)

pub change_balance-IsShifted :
    (t a o : ℕ) (f : ℤ → ℤ) (out within : ℤ)
    → ((x : ℤ) → f x +ℤ out ≡ x +ℤ within)
    → (g : Graph)
    → OnSome
        (λ r. IsShifted t (amount_of t a out) (amount_of t a within) (ledger g) r.1)
        (change_balance a o f g)
unfolding change_balance save_balance modify
change_balance-IsShifted t a o f out within shifts g =
    after->>= _ _ (get_token_balance a o) _ g (get_token_balance-IsRead t a o g)
      λ b h (tokens, same, found). (
        tokens,
        shifted_sum (a == t) _ _ b.balance (f b.balance) out within (shifts b.balance) (
            rw (sym same)
              (saved_sum t (a, o) (record b { balance = f b.balance }) h.balances (some b) found)),
      )
