-- ===== src/Subgraph/Frame/Aside.antt =====
-- The handlers of the subgraph that touch neither the Troves and their census nor the tokens and their
-- balances.
use stability_protocol.Base.{ℕ, Option, none, some, refl}
use stability_protocol.Base.Int.{ℤ}
use stability_protocol.Subgraph.Entities.{UserEntity, DepositEntity, DepositOperation}
use stability_protocol.Subgraph.Graph.{
  Handler, Done, pure, gets, modify, ◌>>=◌, ◌>>◌, Event, get_global, save_global,
  get_last_change_sequence_number, update_total_redistributed, increase_total_borrowing_fees_paid,
}
use stability_protocol.Subgraph.Troves.{set_borrowing_fee_of_last_trove_change}
use stability_protocol.Subgraph.Deposits.{
  create_deposit, get_stability_deposit, update_stability_deposit_by_operation, change_deposit,
  update_stability_deposit, withdraw_gain, withdraw_collateral_gain_from_stability_deposit,
  swap_tmp_deposit_update, if_set, handle_user_deposit_changed, handle_collateral_gain_withdrawn,
  change_surplus, update_user_claim_coll,
}
use stability_protocol.Subgraph.Tokens.{get_token_allowance, update_allowance}
use stability_protocol.Subgraph.Handlers.{handle_borrowing_fee_paid}
use stability_protocol.Subgraph.Frame.{Keeps, books, keeps_rules, Keeps-pure}
use stability_protocol.Subgraph.Frame.Untouched.{
  saves, changes, Keeps-get_global, Keeps-get_user,
  Keeps-update_system_state_by_coll_surplus_change,
  Keeps-update_system_state_by_stability_deposit_change,
}

pub Keeps-get_last_change_sequence_number : Keeps books get_last_change_sequence_number
unfolding get_last_change_sequence_number
Keeps-get_last_change_sequence_number =
    search (keeps_rules, saves, changes, Keeps-get_global) depth 20 fits 8000

pub Keeps-set_borrowing_fee_of_last_trove_change :
    (f : ℤ) → Keeps books (set_borrowing_fee_of_last_trove_change f)
unfolding set_borrowing_fee_of_last_trove_change
Keeps-set_borrowing_fee_of_last_trove_change f =
    search (keeps_rules, saves, changes, Keeps-get_last_change_sequence_number) depth 20 fits 8000

pub Keeps-increase_total_borrowing_fees_paid :
    (f : ℤ) → Keeps books (increase_total_borrowing_fees_paid f)
unfolding increase_total_borrowing_fees_paid
Keeps-increase_total_borrowing_fees_paid f = search (keeps_rules, saves, changes) depth 20 fits 8000

pub Keeps-handle_borrowing_fee_paid : (f : ℤ) → Keeps books (handle_borrowing_fee_paid f)
unfolding handle_borrowing_fee_paid
Keeps-handle_borrowing_fee_paid f =
    search
      (
        keeps_rules, saves, changes, Keeps-set_borrowing_fee_of_last_trove_change,
        Keeps-increase_total_borrowing_fees_paid,
      )
      depth 20 fits 8000

pub Keeps-update_total_redistributed : (a b : ℤ) → Keeps books (update_total_redistributed a b)
unfolding update_total_redistributed
Keeps-update_total_redistributed a b = search (keeps_rules, saves, changes) depth 20 fits 8000

pub Keeps-create_deposit : (a : ℕ) → Keeps books (create_deposit a)
unfolding create_deposit
Keeps-create_deposit a = search (keeps_rules, saves, changes, Keeps-get_user) depth 20 fits 8000

pub Keeps-get_stability_deposit : (a : ℕ) → Keeps books (get_stability_deposit a)
unfolding get_stability_deposit
Keeps-get_stability_deposit a =
    search (keeps_rules, saves, changes, Keeps-create_deposit) depth 20 fits 8000

pub Keeps-update_stability_deposit_by_operation :
    (e : Event) (d : DepositEntity) (o : DepositOperation) (n : ℤ) (w : Option ℤ)
    → Keeps books (update_stability_deposit_by_operation e d o n w)
unfolding update_stability_deposit_by_operation
Keeps-update_stability_deposit_by_operation e d o n w =
    search (keeps_rules, saves, changes, Keeps-update_system_state_by_stability_deposit_change)
      depth 20 fits 8000

pub Keeps-change_deposit :
    (e : Event) (d : DepositEntity) (n : ℤ) → Keeps books (change_deposit e d n)
unfolding change_deposit
Keeps-change_deposit e d n =
    search (keeps_rules, saves, changes, Keeps-update_stability_deposit_by_operation) depth 20 fits
      8000

pub Keeps-update_stability_deposit :
    (e : Event) (a : ℕ) (n : ℤ) → Keeps books (update_stability_deposit e a n)
unfolding update_stability_deposit
Keeps-update_stability_deposit e a n =
    search
      (
        keeps_rules, saves, changes, Keeps-get_stability_deposit, Keeps-get_user,
        Keeps-change_deposit,
      )
      depth 20 fits 8000

pub Keeps-withdraw_gain : (e : Event) (a : ℕ) (n l : ℤ) → Keeps books (withdraw_gain e a n l)
unfolding withdraw_gain
Keeps-withdraw_gain e a n l =
    search
      (
        keeps_rules, saves, changes, Keeps-get_stability_deposit,
        Keeps-update_stability_deposit_by_operation,
      )
      depth 20 fits 8000

pub Keeps-withdraw_collateral_gain_from_stability_deposit :
    (e : Event) (a : ℕ) (n l : ℤ)
    → Keeps books (withdraw_collateral_gain_from_stability_deposit e a n l)
unfolding withdraw_collateral_gain_from_stability_deposit
Keeps-withdraw_collateral_gain_from_stability_deposit e a n l =
    search (keeps_rules, saves, changes, Keeps-withdraw_gain) depth 20 fits 8000

pub Keeps-swap_tmp_deposit_update : (n : ℤ) → Keeps books (swap_tmp_deposit_update n)
unfolding swap_tmp_deposit_update get_global save_global Keeps pure gets modify ◌>>=◌ ◌>>◌
Keeps-swap_tmp_deposit_update n g = refl

Keeps-if_set :
    (o : Option ℤ) (update : ℤ → Handler Done)
    → ((n : ℤ) → Keeps books (update n))
    → Keeps books (if_set o update)
Keeps-if_set none update kept = Keeps-pure books tt
Keeps-if_set (some n) update kept = kept n

pub Keeps-handle_user_deposit_changed :
    (e : Event) (a : ℕ) (n : ℤ) → Keeps books (handle_user_deposit_changed e a n)
unfolding handle_user_deposit_changed
Keeps-handle_user_deposit_changed e a n =
    search
      (
        keeps_rules, saves, changes, Keeps-swap_tmp_deposit_update, Keeps-if_set,
        Keeps-update_stability_deposit,
      )
      depth 20 fits 8000

pub Keeps-handle_collateral_gain_withdrawn :
    (e : Event) (a : ℕ) (n l : ℤ) → Keeps books (handle_collateral_gain_withdrawn e a n l)
unfolding handle_collateral_gain_withdrawn
Keeps-handle_collateral_gain_withdrawn e a n l =
    search
      (
        keeps_rules, saves, changes, Keeps-swap_tmp_deposit_update, Keeps-if_set,
        Keeps-update_stability_deposit, Keeps-withdraw_collateral_gain_from_stability_deposit,
      )
      depth 20 fits 8000

pub Keeps-change_surplus : (e : Event) (u : UserEntity) (n : ℤ) → Keeps books (change_surplus e u n)
unfolding change_surplus
Keeps-change_surplus e u n =
    search (keeps_rules, saves, changes, Keeps-update_system_state_by_coll_surplus_change) depth 20
      fits 8000

pub Keeps-update_user_claim_coll :
    (e : Event) (a : ℕ) (n : ℤ) → Keeps books (update_user_claim_coll e a n)
unfolding update_user_claim_coll
Keeps-update_user_claim_coll e a n =
    search (keeps_rules, saves, changes, Keeps-get_user, Keeps-change_surplus) depth 20 fits 8000

pub Keeps-get_token_allowance : (t o s : ℕ) → Keeps books (get_token_allowance t o s)
unfolding get_token_allowance
Keeps-get_token_allowance t o s =
    search (keeps_rules, saves, changes, Keeps-get_user) depth 20 fits 8000

pub Keeps-update_allowance : (e : Event) (o s : ℕ) (n : ℤ) → Keeps books (update_allowance e o s n)
unfolding update_allowance
Keeps-update_allowance e o s n =
    search (keeps_rules, saves, changes, Keeps-get_token_allowance) depth 20 fits 8000
