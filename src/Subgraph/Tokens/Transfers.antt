-- ===== src/Subgraph/Tokens/Transfers.antt =====
-- A transfer keeps the supply of each token the sum of its balances
-- (packages/subgraph/src/entities/TokenBalance.ts).
use stability_protocol.Base.{
  ℕ, Bool, true, false, ◌==◌, List, if◌then◌else◌, Option, none, some, ◌≡◌, refl, arith, sym,
}
use stability_protocol.Base.Int.{ℤ, pos, ◌+ℤ◌, ◌-ℤ◌, int_laws, parts, +ℤ_comm}
use stability_protocol.Base.Maps.{
  Map, number_iff, number_key, pair_key, load_entity, save_entity, OnSome, on_some,
  load_entity-save_entity,
}
use stability_protocol.Subgraph.Entities.{TokenEntity}
use stability_protocol.Subgraph.Graph.{
  Graph, pure, gets, get_or_abort, ◌>>=◌, ◌>>◌, modify, Event, found_or,
}
use stability_protocol.Subgraph.Frame.{ledger, after->>=, after->>, after-if}
use stability_protocol.Subgraph.Tokens.{
  Erc20, save_token, create_token, get_token, mint, change_balance, zero_address, take_from_sender,
  give_to_receiver, update_balance,
}
use stability_protocol.Subgraph.Tokens.Supply.{
  total_of, supply_in, supply, held, IsConserved, amount_of, amount_of_zero, shifted_sum,
  change_balance-IsShifted,
}

same_supply :
    (b : Bool) (token : TokenEntity) (found here : Option TokenEntity)
    → (b ≡ true → here ≡ found)
    → total_of (if b then some token else here) +ℤ (if b then total_of found else pos 0)
      ≡ total_of here +ℤ (if b then token.total_supply else pos 0)
same_supply true token found here is_found = rw (is_found refl) (+ℤ_comm token.total_supply _)
same_supply false token found here is_found = refl

-- Saving a token exchanges its old supply for the new one.
saved_supply :
    (t a : ℕ) (token : TokenEntity) (tokens : Map ℕ TokenEntity) (found : Option TokenEntity)
    → load_entity a tokens ≡ found
    → supply_in t (save_entity a token tokens) +ℤ amount_of t a (total_of found)
      ≡ supply_in t tokens +ℤ amount_of t a token.total_supply
saved_supply t a token tokens found e =
    rw (load_entity-save_entity a t token tokens)
      (same_supply (a == t) token found _ λ same. rw (sym ((number_iff a t).0 same)) e)

-- The token at `address` is stored as the object in hand says, and the books of `t` are out by an amount that
-- the receiver is still to get.
abbrev IsOwed : ℕ → ℕ → ℤ → TokenEntity × Graph → Type 0
IsOwed t address value (token, g) =
    (load_entity address g.tokens ≡ some token)
    × (supply t (ledger g) ≡ held t (ledger g) +ℤ amount_of t address value)

create_token-IsOwed :
    (t a : ℕ) (name symbol : List ℕ) (g : Graph)
    → load_entity a g.tokens ≡ none
    → IsConserved t g
    → OnSome (IsOwed t a (pos 0)) (create_token a name symbol g)
unfolding create_token save_token modify pure ◌>>◌ ◌>>=◌
create_token-IsOwed t a name symbol g missing conserved =
    let made : TokenEntity = record {
      id = a;
      name = name;
      symbol = symbol;
      total_supply = pos 0;
    } in
    (
      rw (load_entity-save_entity a a made g.tokens) (ground arith),
      omega (
        int_laws,
        parts (saved_supply t a made g.tokens none missing),
        parts conserved,
        parts (amount_of_zero t a),
      ),
    )

named_token-IsOwed :
    (t a : ℕ) (name symbol : Option (List ℕ)) (g : Graph)
    → load_entity a g.tokens ≡ none
    → IsConserved t g
    → OnSome
        (IsOwed t a (pos 0))
        ((get_or_abort name >>= λ n. get_or_abort symbol >>= create_token a n) g)
unfolding get_or_abort ◌>>=◌
named_token-IsOwed t a none symbol g missing conserved = tt
named_token-IsOwed t a (some n) none g missing conserved = tt
named_token-IsOwed t a (some n) (some s) g missing conserved =
    create_token-IsOwed t a n s g missing conserved

found_token-IsOwed :
    (t a : ℕ) (name symbol : Option (List ℕ)) (found : Option TokenEntity) (g : Graph)
    → load_entity a g.tokens ≡ found
    → IsConserved t g
    → OnSome
        (IsOwed t a (pos 0))
        (found_or found (get_or_abort name >>= λ n. get_or_abort symbol >>= create_token a n) g)
unfolding found_or pure
found_token-IsOwed t a name symbol none g missing conserved =
    named_token-IsOwed t a name symbol g missing conserved
found_token-IsOwed t a name symbol (some token) g e conserved =
    (e, omega (int_laws, parts conserved, parts (amount_of_zero t a)))

get_token-IsOwed :
    (contracts : Erc20) (t a : ℕ) (g : Graph)
    → IsConserved t g
    → OnSome (IsOwed t a (pos 0)) (get_token contracts a g)
unfolding get_token gets ◌>>=◌
get_token-IsOwed contracts t a g conserved =
    found_token-IsOwed t a (contracts.name a) (contracts.symbol a) _ g refl conserved

mint-IsOwed :
    (t a : ℕ) (value : ℤ) (token : TokenEntity) (g : Graph)
    → IsOwed t a (pos 0) (token, g)
    → OnSome (IsOwed t a value) (mint a value token g)
unfolding mint save_token modify pure ◌>>◌ ◌>>=◌
mint-IsOwed t a value token g (stored, owed) =
    let more : TokenEntity = record token { total_supply = token.total_supply +ℤ value } in
    (
      rw (load_entity-save_entity a a more g.tokens) (ground arith),
      omega (
        int_laws,
        parts owed,
        parts (amount_of_zero t a),
        parts (
            shifted_sum (a == t) _ _ token.total_supply (token.total_supply +ℤ value) (pos 0) value
              (omega int_laws) (saved_supply t a more g.tokens (some token) stored)),
      ),
    )

take_from_sender-IsOwed :
    (t a from : ℕ) (value : ℤ) (token : TokenEntity) (g : Graph)
    → IsOwed t a (pos 0) (token, g)
    → OnSome (IsOwed t a value) (take_from_sender a from value token g)
unfolding take_from_sender pure
take_from_sender-IsOwed t a from value token g (stored, owed) =
    after-if _ (from == zero_address) (mint a value token) _ g
      (λ is_zero. mint-IsOwed t a value token g (stored, owed))
      λ is_holder.
        after->> _ _ (change_balance a from λ b. b -ℤ value) (pure token) g
          (change_balance-IsShifted t a from _ value (pos 0) (λ b. omega int_laws) g)
          λ d h (tokens, moved). (
            rw tokens stored,
            rw tokens (omega (int_laws, parts owed, parts moved, parts (amount_of_zero t a))),
          )

save_token-IsConserved :
    (t a : ℕ) (value : ℤ) (token : TokenEntity) (g : Graph)
    → IsOwed t a value (token, g)
    → OnSome
        (λ r. IsConserved t r.1)
        (save_token a (record token { total_supply = token.total_supply -ℤ value }) g)
unfolding save_token modify
save_token-IsConserved t a value token g (stored, owed) =
    let less : TokenEntity = record token { total_supply = token.total_supply -ℤ value } in
    omega (
      int_laws,
      parts owed,
      parts (amount_of_zero t a),
      parts (
          shifted_sum (a == t) _ _ token.total_supply (token.total_supply -ℤ value) value (pos 0)
            (omega int_laws) (saved_supply t a less g.tokens (some token) stored)),
    )

give_to_receiver-IsConserved :
    (t a to : ℕ) (value : ℤ) (token : TokenEntity) (g : Graph)
    → IsOwed t a value (token, g)
    → OnSome (λ r. IsConserved t r.1) (give_to_receiver a to value token g)
unfolding give_to_receiver
give_to_receiver-IsConserved t a to value token g (stored, owed) =
    after-if _ (to == zero_address) _ (change_balance a to λ b. b +ℤ value) g
      (λ is_zero. save_token-IsConserved t a value token g (stored, owed))
      λ is_holder.
        on_some _ _ (change_balance a to (λ b. b +ℤ value) g)
          (change_balance-IsShifted t a to _ (pos 0) value (λ b. omega int_laws) g)
          λ r (tokens, moved).
            rw tokens (omega (int_laws, parts owed, parts moved, parts (amount_of_zero t a)))

-- Whatever a transfer is, a mint, a burn, a transfer between two holders or of a holder to himself, it
-- keeps the supply of every token equal to the sum of its balances.
pub update_balance-IsConserved :
    (contracts : Erc20) (t : ℕ) (e : Event) (from to : ℕ) (value : ℤ) (g : Graph)
    → IsConserved t g
    → OnSome (λ r. IsConserved t r.1) (update_balance contracts e from to value g)
unfolding update_balance
update_balance-IsConserved contracts t e from to value g conserved =
    after->>= _ _ (get_token contracts e.address) _ g
      (get_token-IsOwed contracts t e.address g conserved)
      λ token h owed.
        after->>= _ _ (take_from_sender e.address from value token) _ h
          (take_from_sender-IsOwed t e.address from value token h owed)
          (give_to_receiver-IsConserved t e.address to value)
