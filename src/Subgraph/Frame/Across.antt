-- ===== src/Subgraph/Frame/Across.antt =====
-- The transfers of the subgraph leave the Troves and their census alone, and the updates of a Trove leave
-- the tokens and their balances alone.
use stability_protocol.Base.{ℕ, refl, List}
use stability_protocol.Base.Int.{ℤ}
use stability_protocol.Subgraph.Entities.{Global, UserEntity, TroveEntity, TroveOperation}
use stability_protocol.Subgraph.Graph.{
  gets, modify, ◌>>=◌, Event, get_global, save_global, change_global, save_user, get_user,
}
use stability_protocol.Subgraph.Troves.{record_trove_change}
use stability_protocol.Subgraph.Frame.{Keeps, keeps_rules, Keeps-pure, Keeps-modify}
use stability_protocol.Subgraph.Frame.Untouched.{Keeps-get_global, Keeps-get_user}
use stability_protocol.Subgraph.Entities.{
  TokenEntity, TokenBalance, TroveStatus, opened, closed_by_owner, closed_by_liquidation,
  closed_by_redemption,
}
use stability_protocol.Subgraph.Tokens.{
  Erc20, save_token, create_token, get_token, save_balance, create_balance, get_token_balance, mint,
  change_balance, take_from_sender, give_to_receiver, update_balance,
}
use stability_protocol.Subgraph.Troves.{
  create_after_user, create_trove, get_trove, count_status, set_trove_status, save_trove,
  set_status, write_trove, update_trove, apply_redistribution_to_trove_before_liquidation,
}
use stability_protocol.Subgraph.Counters.{
  increase_number_of_open_troves, increase_number_of_liquidated_troves,
  decrease_number_of_liquidated_troves, increase_number_of_redeemed_troves,
  decrease_number_of_redeemed_troves, increase_number_of_troves_closed_by_owner,
  decrease_number_of_troves_closed_by_owner,
}
use stability_protocol.Subgraph.Frame.{register, ledger, Keeps-register, Keeps-ledger}
use stability_protocol.Subgraph.Frame.Untouched.{
  Keeps-get_user, Keeps-save_user, Keeps-record_trove_change, Keeps-get_global,
}

save_token-Keeps : (id : ℕ) (t : TokenEntity) → Keeps register (save_token id t)
unfolding save_token
save_token-Keeps id t = Keeps-modify register _ λ g. refl

save_balance-Keeps : (id : ℕ × ℕ) (b : TokenBalance) → Keeps register (save_balance id b)
unfolding save_balance
save_balance-Keeps id b = Keeps-modify register _ λ g. refl

user-Keeps : (a : ℕ) → Keeps register (get_user a)
user-Keeps a = Keeps-register _ (Keeps-get_user a)

pub create_token-Keeps : (a : ℕ) (n s : List ℕ) → Keeps register (create_token a n s)
unfolding create_token
create_token-Keeps a n s = search (keeps_rules, save_token-Keeps) depth 20 fits 8000

pub get_token-Keeps : (c : Erc20) (a : ℕ) → Keeps register (get_token c a)
unfolding get_token
get_token-Keeps c a = search (keeps_rules, create_token-Keeps) depth 20 fits 8000

pub create_balance-Keeps : (t a o : ℕ) → Keeps register (create_balance t a o)
unfolding create_balance
create_balance-Keeps t a o = search (keeps_rules, save_balance-Keeps) depth 20 fits 8000

pub get_token_balance-Keeps : (t o : ℕ) → Keeps register (get_token_balance t o)
unfolding get_token_balance
get_token_balance-Keeps t o =
    search (keeps_rules, user-Keeps, create_balance-Keeps) depth 20 fits 8000

pub mint-Keeps : (a : ℕ) (v : ℤ) (t : TokenEntity) → Keeps register (mint a v t)
unfolding mint
mint-Keeps a v t = search (keeps_rules, save_token-Keeps) depth 20 fits 8000

pub change_balance-Keeps : (a o : ℕ) (f : ℤ → ℤ) → Keeps register (change_balance a o f)
unfolding change_balance
change_balance-Keeps a o f =
    search (keeps_rules, get_token_balance-Keeps, save_balance-Keeps) depth 20 fits 8000

pub take_from_sender-Keeps :
    (a o : ℕ) (v : ℤ) (t : TokenEntity) → Keeps register (take_from_sender a o v t)
unfolding take_from_sender
take_from_sender-Keeps a o v t =
    search (keeps_rules, mint-Keeps, change_balance-Keeps) depth 20 fits 8000

pub give_to_receiver-Keeps :
    (a o : ℕ) (v : ℤ) (t : TokenEntity) → Keeps register (give_to_receiver a o v t)
unfolding give_to_receiver
give_to_receiver-Keeps a o v t =
    search (keeps_rules, save_token-Keeps, change_balance-Keeps) depth 20 fits 8000

pub update_balance-Keeps :
    (c : Erc20) (e : Event) (a b : ℕ) (v : ℤ) → Keeps register (update_balance c e a b v)
unfolding update_balance
update_balance-Keeps c e a b v =
    search (keeps_rules, get_token-Keeps, take_from_sender-Keeps, give_to_receiver-Keeps) depth 20
      fits 8000

counters-Keeps : (f : Global → Global) → Keeps ledger (change_global f)
unfolding change_global get_global save_global Keeps gets modify ◌>>=◌
counters-Keeps f g = refl

set_trove-Keeps : (id : ℕ) (t : TroveEntity) → Keeps ledger (save_trove id t)
unfolding save_trove
set_trove-Keeps id t = Keeps-modify ledger _ λ g. refl

owner-Keeps : (a : ℕ) → Keeps ledger (get_user a)
owner-Keeps a = Keeps-ledger _ (Keeps-get_user a)

owner_saved-Keeps : (u : UserEntity) → Keeps ledger (save_user u)
owner_saved-Keeps u = Keeps-ledger _ (Keeps-save_user u)

global-Keeps : Keeps ledger get_global
global-Keeps = Keeps-ledger _ Keeps-get_global

recorded-Keeps :
    (e : Event) (o : TroveOperation) (t : TroveEntity) (a b : ℤ)
    → Keeps ledger (record_trove_change e o t a b)
recorded-Keeps e o t a b = Keeps-ledger _ (Keeps-record_trove_change e o t a b)

count_status-Keeps : (before status : TroveStatus) → Keeps ledger (count_status before status)
unfolding increase_number_of_liquidated_troves decrease_number_of_liquidated_troves
    increase_number_of_redeemed_troves decrease_number_of_redeemed_troves
    increase_number_of_troves_closed_by_owner decrease_number_of_troves_closed_by_owner
count_status-Keeps opened opened = Keeps-pure ledger tt
count_status-Keeps closed_by_owner opened = counters-Keeps _
count_status-Keeps closed_by_liquidation opened = counters-Keeps _
count_status-Keeps closed_by_redemption opened = counters-Keeps _
count_status-Keeps before closed_by_owner = counters-Keeps _
count_status-Keeps before closed_by_liquidation = counters-Keeps _
count_status-Keeps before closed_by_redemption = counters-Keeps _

increase_number_of_open_troves-Keeps : Keeps ledger increase_number_of_open_troves
unfolding increase_number_of_open_troves
increase_number_of_open_troves-Keeps = counters-Keeps _

pub create_after_user-Keeps : (a : ℕ) (u : UserEntity) → Keeps ledger (create_after_user a u)
unfolding create_after_user
create_after_user-Keeps a u =
    search (keeps_rules, increase_number_of_open_troves-Keeps, owner_saved-Keeps) depth 20 fits 8000

pub create_trove-Keeps : (a : ℕ) → Keeps ledger (create_trove a)
unfolding create_trove
create_trove-Keeps a = search (keeps_rules, owner-Keeps, create_after_user-Keeps) depth 20 fits 8000

pub get_trove-Keeps : (a : ℕ) → Keeps ledger (get_trove a)
unfolding get_trove
get_trove-Keeps a = search (keeps_rules, create_trove-Keeps) depth 20 fits 8000

pub set_trove_status-Keeps :
    (t : TroveEntity) (s : TroveStatus) → Keeps ledger (set_trove_status t s)
unfolding set_trove_status
set_trove_status-Keeps t s = search (keeps_rules, count_status-Keeps) depth 20 fits 8000

pub set_status-Keeps :
    (o : TroveOperation) (a : ℕ) (x : Global) (t : TroveEntity) (c d s : ℤ)
    → Keeps ledger (set_status o a x t c d s)
unfolding set_status
set_status-Keeps o a x t c d s =
    search (keeps_rules, set_trove_status-Keeps, set_trove-Keeps) depth 20 fits 8000

pub write_trove-Keeps :
    (e : Event) (o : TroveOperation) (a : ℕ) (x : Global) (t : TroveEntity) (c d s : ℤ)
    → Keeps ledger (write_trove e o a x t c d s)
unfolding write_trove
write_trove-Keeps e o a x t c d s =
    search (keeps_rules, recorded-Keeps, set_status-Keeps) depth 20 fits 8000

pub update_trove-Keeps :
    (e : Event) (o : TroveOperation) (a : ℕ) (c d s : ℤ) → Keeps ledger (update_trove e o a c d s)
unfolding update_trove
update_trove-Keeps e o a c d s =
    search (keeps_rules, global-Keeps, get_trove-Keeps, write_trove-Keeps) depth 20 fits 8000

pub apply_redistribution_to_trove_before_liquidation-Keeps :
    (e : Event) (a : ℕ) → Keeps ledger (apply_redistribution_to_trove_before_liquidation e a)
unfolding apply_redistribution_to_trove_before_liquidation
apply_redistribution_to_trove_before_liquidation-Keeps e a =
    search (keeps_rules, global-Keeps, get_trove-Keeps, update_trove-Keeps) depth 20 fits 8000
