-- ===== src/Subgraph/Frame/Untouched.antt =====
-- The shared operations of the subgraph that touch neither the Troves and their census nor the tokens and
-- their balances.
use stability_protocol.Base.{ℕ, Option, none, some, ◌≡◌, refl, arith}
use stability_protocol.Base.Int.{ℤ}
use stability_protocol.Subgraph.Entities.{
  Global, SystemState, UserEntity, TroveEntity, DepositEntity, TransactionEntity, ChangeEntity,
  TroveOperation, TroveChangeEntity, DepositChangeEntity, PriceChangeEntity, SurplusChangeEntity,
  LiquidationEntity, RedemptionEntity, TokenAllowance,
}
use stability_protocol.Subgraph.Graph.{
  pure, gets, modify, ◌>>=◌, ◌>>◌, Event, global_or_new, get_global, save_global, change_global,
  Counter, increase_counter, save_user, get_user, save_transaction, get_transaction,
}
use stability_protocol.Subgraph.Changes.{
  save_system_state, find_current_system_state, get_current_system_state, bump_system_state,
  get_current_price, begin_change, finish_change, save_price_change, change_price, set_price,
  update_price, liquidation_totals, totals_after, update_system_state_by_trove_change,
  update_system_state_by_stability_deposit_change, update_system_state_by_coll_surplus_change,
}
use stability_protocol.Subgraph.Closings.{
  save_liquidation, get_current_liquidation, finish_current_liquidation, save_redemption,
  get_current_redemption, finish_current_redemption,
}
use stability_protocol.Subgraph.Troves.{
  save_trove_change, liquidation_id, liquidation_of, redemption_id, redemption_of,
  record_trove_change,
}
use stability_protocol.Subgraph.Deposits.{save_deposit, save_deposit_change, save_surplus_change}
use stability_protocol.Subgraph.Tokens.{save_allowance}
use stability_protocol.Subgraph.Frame.{Keeps, counts_of, books, keeps_rules, Keeps-modify}

pub Keeps-change_global :
    (f : Global → Global)
    → ((global : Global) → counts_of (f global) ≡ counts_of global)
    → Keeps books (change_global f)
unfolding change_global get_global save_global Keeps gets modify ◌>>=◌
Keeps-change_global f same g = rw (same (global_or_new g.global)) refl

pub Keeps-save_user : (e : UserEntity) → Keeps books (save_user e)
unfolding save_user
Keeps-save_user e = Keeps-modify books _ λ g. refl

pub Keeps-save_transaction : (e : TransactionEntity) → Keeps books (save_transaction e)
unfolding save_transaction
Keeps-save_transaction e = Keeps-modify books _ λ g. refl

pub Keeps-save_system_state : (e : SystemState) → Keeps books (save_system_state e)
unfolding save_system_state
Keeps-save_system_state e = Keeps-modify books _ λ g. refl

pub Keeps-save_price_change : (e : PriceChangeEntity) → Keeps books (save_price_change e)
unfolding save_price_change
Keeps-save_price_change e = Keeps-modify books _ λ g. refl

pub Keeps-save_liquidation : (e : LiquidationEntity) → Keeps books (save_liquidation e)
unfolding save_liquidation
Keeps-save_liquidation e = Keeps-modify books _ λ g. refl

pub Keeps-save_redemption : (e : RedemptionEntity) → Keeps books (save_redemption e)
unfolding save_redemption
Keeps-save_redemption e = Keeps-modify books _ λ g. refl

pub Keeps-save_trove_change : (e : TroveChangeEntity) → Keeps books (save_trove_change e)
unfolding save_trove_change
Keeps-save_trove_change e = Keeps-modify books _ λ g. refl

pub Keeps-save_deposit : (e : DepositEntity) → Keeps books (save_deposit e)
unfolding save_deposit
Keeps-save_deposit e = Keeps-modify books _ λ g. refl

pub Keeps-save_deposit_change : (e : DepositChangeEntity) → Keeps books (save_deposit_change e)
unfolding save_deposit_change
Keeps-save_deposit_change e = Keeps-modify books _ λ g. refl

pub Keeps-save_surplus_change : (e : SurplusChangeEntity) → Keeps books (save_surplus_change e)
unfolding save_surplus_change
Keeps-save_surplus_change e = Keeps-modify books _ λ g. refl

pub Keeps-save_allowance : (e : TokenAllowance) → Keeps books (save_allowance e)
unfolding save_allowance
Keeps-save_allowance e = Keeps-modify books _ λ g. refl

pub ruleset saves = (
  Keeps-change_global, Keeps-save_user, Keeps-save_transaction, Keeps-save_system_state,
  Keeps-save_price_change, Keeps-save_liquidation, Keeps-save_redemption, Keeps-save_trove_change,
  Keeps-save_deposit, Keeps-save_deposit_change, Keeps-save_surplus_change, Keeps-save_allowance,
)

pub Keeps-get_global : Keeps books get_global
unfolding get_global
Keeps-get_global = search (keeps_rules, saves) depth 20 fits 8000

pub Keeps-increase_counter : (c : Counter) → Keeps books (increase_counter c)
unfolding increase_counter get_global save_global Keeps pure gets modify ◌>>=◌ ◌>>◌
Keeps-increase_counter c g = ground arith

pub Keeps-get_user : (a : ℕ) → Keeps books (get_user a)
unfolding get_user
Keeps-get_user a = search (keeps_rules, saves) depth 20 fits 8000

pub Keeps-get_transaction : (e : Event) → Keeps books (get_transaction e)
unfolding get_transaction
Keeps-get_transaction e = search (keeps_rules, saves, Keeps-increase_counter) depth 20 fits 8000

pub Keeps-find_current_system_state : Keeps books find_current_system_state
unfolding find_current_system_state
Keeps-find_current_system_state = search (keeps_rules, Keeps-get_global)

pub Keeps-get_current_system_state : Keeps books get_current_system_state
unfolding get_current_system_state
Keeps-get_current_system_state =
    search (keeps_rules, saves, Keeps-find_current_system_state, Keeps-increase_counter) depth 20
      fits 8000

pub Keeps-bump_system_state : (s : SystemState) → Keeps books (bump_system_state s)
unfolding bump_system_state
Keeps-bump_system_state s = search (keeps_rules, saves, Keeps-increase_counter) depth 20 fits 8000

pub Keeps-get_current_price : Keeps books get_current_price
unfolding get_current_price
Keeps-get_current_price =
    search (keeps_rules, saves, Keeps-get_current_system_state) depth 20 fits 8000

pub Keeps-begin_change : (e : Event) → Keeps books (begin_change e)
unfolding begin_change
Keeps-begin_change e =
    search
      (
        keeps_rules, saves, Keeps-increase_counter, Keeps-get_transaction,
        Keeps-get_current_system_state,
      )
      depth 20 fits 8000

pub Keeps-finish_change : (c : ChangeEntity) → Keeps books (finish_change c)
unfolding finish_change
Keeps-finish_change c =
    search (keeps_rules, saves, Keeps-get_current_system_state) depth 20 fits 8000

pub ruleset changes = (
  Keeps-get_current_system_state, Keeps-bump_system_state, Keeps-begin_change, Keeps-finish_change,
)

pub Keeps-change_price :
    (e : Event) (s : SystemState) (a b : ℤ) → Keeps books (change_price e s a b)
unfolding change_price
Keeps-change_price e s a b = search (keeps_rules, saves, changes) depth 20 fits 8000

Keeps-set_price :
    (e : Event) (s : SystemState) (n : ℤ) (o : Option ℤ) → Keeps books (set_price e s n o)
Keeps-set_price e s n none = Keeps-save_system_state _
Keeps-set_price e s n (some p) = search (keeps_rules, Keeps-change_price)

pub Keeps-update_price : (e : Event) (p : ℤ) → Keeps books (update_price e p)
unfolding update_price
Keeps-update_price e p = search (keeps_rules, saves, changes, Keeps-set_price) depth 20 fits 8000

pub Keeps-liquidation_totals :
    (s : SystemState) (c : TroveChangeEntity) → Keeps books (liquidation_totals s c)
unfolding liquidation_totals
Keeps-liquidation_totals s c = search (keeps_rules, saves, changes) depth 20 fits 8000

pub Keeps-totals_after : (s : SystemState) (c : TroveChangeEntity) → Keeps books (totals_after s c)
unfolding totals_after
Keeps-totals_after s c =
    search (keeps_rules, saves, changes, Keeps-liquidation_totals) depth 20 fits 8000

pub Keeps-update_system_state_by_trove_change :
    (c : TroveChangeEntity) → Keeps books (update_system_state_by_trove_change c)
unfolding update_system_state_by_trove_change
Keeps-update_system_state_by_trove_change c =
    search (keeps_rules, saves, changes, Keeps-totals_after) depth 20 fits 8000

pub Keeps-update_system_state_by_stability_deposit_change :
    (c : DepositChangeEntity) → Keeps books (update_system_state_by_stability_deposit_change c)
unfolding update_system_state_by_stability_deposit_change
Keeps-update_system_state_by_stability_deposit_change c =
    search (keeps_rules, saves, changes) depth 20 fits 8000

pub Keeps-update_system_state_by_coll_surplus_change :
    (c : SurplusChangeEntity) → Keeps books (update_system_state_by_coll_surplus_change c)
unfolding update_system_state_by_coll_surplus_change
Keeps-update_system_state_by_coll_surplus_change c =
    search (keeps_rules, saves, changes) depth 20 fits 8000

pub Keeps-get_current_liquidation : (e : Event) → Keeps books (get_current_liquidation e)
unfolding get_current_liquidation
Keeps-get_current_liquidation e =
    search
      (
        keeps_rules, saves, changes, Keeps-get_global, Keeps-increase_counter,
        Keeps-get_transaction, Keeps-get_user,
      )
      depth 20 fits 8000

pub Keeps-finish_current_liquidation :
    (e : Event) (a b c d : ℤ) → Keeps books (finish_current_liquidation e a b c d)
unfolding finish_current_liquidation
Keeps-finish_current_liquidation e a b c d =
    search (keeps_rules, saves, changes, Keeps-get_current_liquidation) depth 20 fits 8000

pub Keeps-get_current_redemption : (e : Event) → Keeps books (get_current_redemption e)
unfolding get_current_redemption
Keeps-get_current_redemption e =
    search
      (
        keeps_rules, saves, changes, Keeps-get_global, Keeps-increase_counter,
        Keeps-get_transaction, Keeps-get_user,
      )
      depth 20 fits 8000

pub Keeps-finish_current_redemption :
    (e : Event) (a b c d : ℤ) → Keeps books (finish_current_redemption e a b c d)
unfolding finish_current_redemption
Keeps-finish_current_redemption e a b c d =
    search (keeps_rules, saves, changes, Keeps-get_current_redemption) depth 20 fits 8000

pub Keeps-liquidation_id : (e : Event) → Keeps books (liquidation_id e)
unfolding liquidation_id
Keeps-liquidation_id e =
    search (keeps_rules, saves, changes, Keeps-get_current_liquidation) depth 20 fits 8000

pub Keeps-redemption_id : (e : Event) → Keeps books (redemption_id e)
unfolding redemption_id
Keeps-redemption_id e =
    search (keeps_rules, saves, changes, Keeps-get_current_redemption) depth 20 fits 8000

pub Keeps-liquidation_of : (e : Event) (o : TroveOperation) → Keeps books (liquidation_of e o)
unfolding liquidation_of
Keeps-liquidation_of e o =
    search (keeps_rules, saves, changes, Keeps-liquidation_id) depth 20 fits 8000

pub Keeps-redemption_of : (e : Event) (o : TroveOperation) → Keeps books (redemption_of e o)
unfolding redemption_of
Keeps-redemption_of e o =
    search (keeps_rules, saves, changes, Keeps-redemption_id) depth 20 fits 8000

pub Keeps-record_trove_change :
    (e : Event) (o : TroveOperation) (t : TroveEntity) (a b : ℤ)
    → Keeps books (record_trove_change e o t a b)
unfolding record_trove_change
Keeps-record_trove_change e o t a b =
    search
      (
        keeps_rules, saves, changes, Keeps-get_current_price, Keeps-liquidation_of,
        Keeps-redemption_of, Keeps-update_system_state_by_trove_change,
      )
      depth 20 fits 8000
