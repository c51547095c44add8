-- ===== src/Subgraph/Graph.antt =====
-- The subgraph's store and its `Global` entity (packages/subgraph/src/entities/Global.ts, User.ts,
-- Transaction.ts). An operation gives no store where the handler aborts: graph-node then keeps what it had.
use stability_protocol.Base.{ℕ, Bool, true, false, ◌+◌, ◌-◌, ◌%◌, ◌^◌, Option, none, some, []}
use stability_protocol.Base.Int.{ℤ, pos, ◌+ℤ◌}
use stability_protocol.Base.Maps.{Map, number_key, load_entity, save_entity}
use stability_protocol.Subgraph.Entities.{
  Global, SystemState, UserEntity, TroveEntity, DepositEntity, TransactionEntity, TroveChangeEntity,
  DepositChangeEntity, PriceChangeEntity, SurplusChangeEntity, LiquidationEntity, RedemptionEntity,
  TokenEntity, TokenBalance, TokenAllowance,
}

pub record Graph : Type 0 where
  pub global : Option Global
  pub transactions : Map ℕ TransactionEntity
  pub system_states : Map ℕ SystemState
  pub users : Map ℕ UserEntity
  pub troves : Map ℕ TroveEntity
  pub trove_changes : Map ℕ TroveChangeEntity
  pub deposits : Map ℕ DepositEntity
  pub deposit_changes : Map ℕ DepositChangeEntity
  pub price_changes : Map ℕ PriceChangeEntity
  pub surplus_changes : Map ℕ SurplusChangeEntity
  pub liquidations : Map ℕ LiquidationEntity
  pub redemptions : Map ℕ RedemptionEntity
  pub tokens : Map ℕ TokenEntity
  pub balances : Map (ℕ × ℕ) TokenBalance
  pub allowances : Map (ℕ × (ℕ × ℕ)) TokenAllowance

-- The store before the first event.
abbrev pub empty_graph : Graph
empty_graph = record {
  global = none;
  transactions = [];
  system_states = [];
  users = [];
  troves = [];
  trove_changes = [];
  deposits = [];
  deposit_changes = [];
  price_changes = [];
  surplus_changes = [];
  liquidations = [];
  redemptions = [];
  tokens = [];
  balances = [];
  allowances = [];
}

abbrev pub Handler : Type 0 → Type 0
Handler A = Graph → Option (A × Graph)

module _ {A : Type 0} where
  unfoldable pub pure : A → Handler A
  pure a g = some (a, g)

  unfoldable pub gets : (Graph → A) → Handler A
  gets f g = some (f g, g)

  -- A field that must be set, `x!`, or an entity that must exist.
  unfoldable pub get_or_abort : Option A → Handler A
  get_or_abort none g = none
  get_or_abort (some a) g = some (a, g)

infixl 5 ◌>>=◌ ◌>>◌
unfoldable pub ◌>>=◌ : {A B : Type 0} → Handler A → (A → Handler B) → Handler B
◌>>=◌ m f g = elim (m g) [ none ↦ none | some (a, h) ↦ f a h ]

unfoldable pub ◌>>◌ : {A B : Type 0} → Handler A → Handler B → Handler B
unfolding ◌>>=◌
m >> k = m >>= λ _. k

abbrev pub Done : Type 0
Done = Unit {0}

-- `if (b) return`, and what follows it.
unfoldable pub unless : Bool → Handler Done → Handler Done
unless true after = pure tt
unless false after = after

unfoldable pub modify : (Graph → Graph) → Handler Done
modify f g = some (tt, f g)

-- What a handler reads of an event: the contract that emitted it, its transaction, and the block's number and
-- time as 32-bit numbers.
pub record Event : Type 0 where
  pub address : ℕ
  pub transaction_hash : ℕ
  pub transaction_from : ℕ
  pub block_number : ℕ
  pub timestamp : ℕ

abbrev new_global : Global
new_global = record {
  system_state_count = 0;
  transaction_count = 0;
  change_count = 0;
  liquidation_count = 0;
  redemption_count = 0;
  number_of_open_troves = 0;
  number_of_liquidated_troves = 0;
  number_of_redeemed_troves = 0;
  number_of_troves_closed_by_owner = 0;
  total_number_of_troves = 0;
  total_borrowing_fees_paid = pos 0;
  total_redemption_fees_paid = pos 0;
  raw_total_redistributed_collateral = pos 0;
  raw_total_redistributed_debt = pos 0;
  current_system_state = none;
  current_liquidation = none;
  current_redemption = none;
  tmp_deposit_update = none;
}

abbrev pub global_or_new : Option Global → Global
global_or_new none = new_global
global_or_new (some global) = global

-- `getGlobal()` does not save the entity that it makes.
unfoldable pub get_global : Handler Global
get_global = gets λ g. global_or_new g.global

unfoldable pub save_global : Global → Handler Done
save_global global = modify λ g. record g { global = some global }

-- `let global = getGlobal(); global.x = …; global.save()`.
unfoldable pub change_global : (Global → Global) → Handler Done
change_global f = do global ← get_global; save_global (f global)

-- `count++` and `count--` on an `i32`.
abbrev pub increase : ℕ → ℕ
increase n = (n + 1) % 2 ^ 32

abbrev pub decrease : ℕ → ℕ
decrease n = (n + (2 ^ 32 - 1)) % 2 ^ 32

-- The keys that `increaseCounter` takes.
pub data Counter : Type 0 where
  system_states_made transactions_made changes_made liquidations_made redemptions_made : Counter

abbrev count_of : Counter → Global → ℕ
count_of system_states_made global = global.system_state_count
count_of transactions_made global = global.transaction_count
count_of changes_made global = global.change_count
count_of liquidations_made global = global.liquidation_count
count_of redemptions_made global = global.redemption_count

abbrev set_count : Counter → ℕ → Global → Global
set_count system_states_made n global = record global { system_state_count = n }
set_count transactions_made n global = record global { transaction_count = n }
set_count changes_made n global = record global { change_count = n }
set_count liquidations_made n global = record global { liquidation_count = n }
set_count redemptions_made n global = record global { redemption_count = n }

unfoldable pub increase_counter : Counter → Handler ℕ
increase_counter key = do
  global ← get_global
  let count = count_of key global
  save_global (set_count key (increase count) global)
  pure count

unfoldable pub get_last_change_sequence_number : Handler ℕ
get_last_change_sequence_number = do global ← get_global; pure (decrease global.change_count)

unfoldable pub update_total_redistributed : ℤ → ℤ → Handler Done
update_total_redistributed collateral debt = change_global (λ global. record global {
  raw_total_redistributed_collateral = collateral;
  raw_total_redistributed_debt = debt;
})

unfoldable pub increase_total_borrowing_fees_paid : ℤ → Handler Done
increase_total_borrowing_fees_paid fee = change_global (λ global. record global {
  total_borrowing_fees_paid = global.total_borrowing_fees_paid +ℤ fee;
})

unfoldable pub save_user : UserEntity → Handler Done
save_user user = modify λ g. record g { users = save_entity user.id user g.users }

-- What `load` of an entity gives: the entity it finds, or what is to be done if there is none.
unfoldable pub found_or : {A : Type 0} → Option A → Handler A → Handler A
found_or none make = make
found_or (some a) make = pure a

unfoldable pub get_user : ℕ → Handler UserEntity
get_user address = do
  user_or_none ← gets λ g. load_entity address g.users
  found_or user_or_none do
    let user : UserEntity = record {
      id = address;
      trove = none;
      stability_deposit = none;
      coll_surplus = pos 0;
    }
    save_user user
    pure user

unfoldable pub save_transaction : TransactionEntity → Handler Done
save_transaction t = modify λ g. record g { transactions = save_entity t.id t g.transactions }

-- `getTransaction(event).id`.
unfoldable pub get_transaction : Event → Handler ℕ
get_transaction event = do
  transaction_or_none ← gets λ g. load_entity event.transaction_hash g.transactions
  transaction ← found_or transaction_or_none do
    sequence_number ← increase_counter transactions_made
    let transaction : TransactionEntity = record {
      id = event.transaction_hash;
      sequence_number = sequence_number;
      block_number = event.block_number;
      timestamp = event.timestamp;
    }
    save_transaction transaction
    pure transaction
  pure transaction.id
