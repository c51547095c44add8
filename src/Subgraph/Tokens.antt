-- ===== src/Subgraph/Tokens.antt =====
-- Balances and allowances of tokens (packages/subgraph/src/entities/Token.ts, TokenBalance.ts,
-- TokenAllowance.ts). The calls of the token's contract are a parameter: its name and its symbol, or nothing if
-- the call reverts.
pub mod Supply
pub mod Transfers
pub mod Run
use stability_protocol.Base.{ℕ, ◌==◌, if◌then◌else◌, Option, List}
use stability_protocol.Base.Int.{ℤ, pos, ◌+ℤ◌, ◌-ℤ◌}
use stability_protocol.Base.Maps.{number_key, pair_key, triple_key, load_entity, save_entity}
use stability_protocol.Subgraph.Entities.{TokenEntity, TokenBalance, TokenAllowance}
use stability_protocol.Subgraph.Graph.{
  Graph, Handler, pure, gets, get_or_abort, ◌>>=◌, ◌>>◌, Done, modify, Event, found_or, get_user,
}

pub record Erc20 : Type 0 where
  pub name : ℕ → Option (List ℕ)
  pub symbol : ℕ → Option (List ℕ)

unfoldable pub save_token : ℕ → TokenEntity → Handler Done
save_token id token = modify λ g. record g { tokens = save_entity id token g.tokens }

unfoldable pub create_token : ℕ → List ℕ → List ℕ → Handler TokenEntity
create_token address name symbol = do
  let token : TokenEntity = record {
    id = address;
    name = name;
    symbol = symbol;
    total_supply = pos 0;
  }
  save_token address token
  pure token

unfoldable pub get_token : Erc20 → ℕ → Handler TokenEntity
get_token contracts address = do
  token_or_none ← gets λ g. load_entity address g.tokens
  found_or token_or_none do
    name ← get_or_abort (contracts.name address)
    symbol ← get_or_abort (contracts.symbol address)
    create_token address name symbol

unfoldable pub save_balance : ℕ × ℕ → TokenBalance → Handler Done
save_balance id balance = modify λ g. record g { balances = save_entity id balance g.balances }

unfoldable pub create_balance : ℕ → ℕ → ℕ → Handler TokenBalance
create_balance token address owner = do
  let balance : TokenBalance = record { token = token; owner = owner; balance = pos 0 }
  save_balance (token, address) balance
  pure balance

unfoldable pub get_token_balance : ℕ → ℕ → Handler TokenBalance
get_token_balance token owner = do
  user ← get_user owner
  balance_or_none ← gets λ g. load_entity (token, owner) g.balances
  found_or balance_or_none (create_balance token owner user.id)

abbrev pub zero_address : ℕ
zero_address = 0

-- The branches of `updateBalance` on the sender and on the receiver; the token is the object that both change.
unfoldable pub mint : ℕ → ℤ → TokenEntity → Handler TokenEntity
mint address value token = do
  let minted = record token { total_supply = token.total_supply +ℤ value }
  save_token address minted
  pure minted

unfoldable pub change_balance : ℕ → ℕ → (ℤ → ℤ) → Handler Done
change_balance address owner f = do
  held ← get_token_balance address owner
  save_balance (address, owner) (record held { balance = f held.balance })

unfoldable pub take_from_sender : ℕ → ℕ → ℤ → TokenEntity → Handler TokenEntity
take_from_sender address from value token =
    if from == zero_address
    then mint address value token
    else do change_balance address from λ balance. balance -ℤ value; pure token

unfoldable pub give_to_receiver : ℕ → ℕ → ℤ → TokenEntity → Handler Done
give_to_receiver address to value token =
    if to == zero_address
    then save_token address (record token { total_supply = token.total_supply -ℤ value })
    else change_balance address to λ balance. balance +ℤ value

unfoldable pub update_balance : Erc20 → Event → ℕ → ℕ → ℤ → Handler Done
update_balance contracts event from to value = do
  token ← get_token contracts event.address
  token_then ← take_from_sender event.address from value token
  give_to_receiver event.address to value token_then

unfoldable pub save_allowance : TokenAllowance → Handler Done
save_allowance a =
    modify λ g. record g { allowances = save_entity (a.token, (a.owner, a.spender)) a g.allowances }

unfoldable pub get_token_allowance : ℕ → ℕ → ℕ → Handler TokenAllowance
get_token_allowance token owner spender = do
  owner_user ← get_user owner
  spender_user ← get_user spender
  allowance_or_none ← gets λ g. load_entity (token, (owner, spender)) g.allowances
  found_or allowance_or_none do
    let allowance : TokenAllowance = record {
      token = token;
      owner = owner_user.id;
      spender = spender_user.id;
      value = pos 0;
    }
    save_allowance allowance
    pure allowance

unfoldable pub update_allowance : Event → ℕ → ℕ → ℤ → Handler Done
update_allowance event owner spender value = do
  allowance ← get_token_allowance event.address owner spender
  save_allowance (record allowance { value = value })
