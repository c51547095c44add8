-- ===== src/Subgraph/Deposits/Order.antt =====
-- The pair of events of a deposit, `UserDepositChanged` and `CollateralGainWithdrawn`, in either order
-- (packages/subgraph/src/mappings/StabilityPool.ts).
use stability_protocol.Base.{ℕ, Option, none, some, ◌≡◌, refl, sym, ap, ◌∙◌}
use stability_protocol.Base.Int.{ℤ, pos}
use stability_protocol.Subgraph.Graph.{
  Graph, Done, pure, gets, modify, ◌>>=◌, ◌>>◌, Event, global_or_new, get_global, save_global,
}
use stability_protocol.Subgraph.Deposits.{
  update_stability_deposit, withdraw_collateral_gain_from_stability_deposit,
  swap_tmp_deposit_update, handle_user_deposit_changed, handle_collateral_gain_withdrawn,
}
use stability_protocol.Subgraph.Deposits.Ignores.{
  with_tmp, then_with_tmp, and_then, Ignores,
  Ignores-withdraw_collateral_gain_from_stability_deposit,
}

-- Between two transactions `tmpDepositUpdate` is `null`.
abbrev pub IsUnpaired : Graph → Type 0
IsUnpaired g = (global_or_new g.global).tmp_deposit_update ≡ none

first_deposit :
    (e : Event) (a : ℕ) (n : ℤ) (g : Graph)
    → IsUnpaired g
    → handle_user_deposit_changed e a n g ≡ some (tt, with_tmp (some n) g)
unfolding handle_user_deposit_changed swap_tmp_deposit_update get_global save_global gets modify
    pure ◌>>=◌ ◌>>◌
first_deposit e a n g unpaired = rw unpaired refl

second_deposit :
    (e : Event) (a : ℕ) (n d : ℤ) (g : Graph)
    → handle_user_deposit_changed e a n (with_tmp (some d) g)
      ≡ update_stability_deposit e a n (with_tmp none g)
unfolding handle_user_deposit_changed swap_tmp_deposit_update get_global save_global gets modify
    pure ◌>>=◌ ◌>>◌
second_deposit e a n d g = refl

first_gain :
    (e : Event) (a : ℕ) (gain loss : ℤ) (g : Graph)
    → IsUnpaired g
    → handle_collateral_gain_withdrawn e a gain loss g
      ≡ and_then
          (λ d h. some (tt, h))
          (withdraw_collateral_gain_from_stability_deposit e a gain loss
            (with_tmp (some (pos 0)) g))
unfolding handle_collateral_gain_withdrawn swap_tmp_deposit_update get_global save_global gets
    modify pure ◌>>=◌ ◌>>◌
first_gain e a gain loss g unpaired = rw unpaired refl

second_gain :
    (e : Event) (a : ℕ) (gain loss n : ℤ) (g : Graph)
    → handle_collateral_gain_withdrawn e a gain loss (with_tmp (some n) g)
      ≡ and_then
          (λ d. update_stability_deposit e a n)
          (withdraw_collateral_gain_from_stability_deposit e a gain loss (with_tmp none g))
unfolding handle_collateral_gain_withdrawn swap_tmp_deposit_update get_global save_global gets
    modify pure ◌>>=◌ ◌>>◌
second_gain e a gain loss n g = refl

-- What the second event of a pair does, whichever it is.
meet :
    (e : Event) (a : ℕ) (n : ℤ) (o : Option (Done × Graph))
    → and_then (λ d. update_stability_deposit e a n) (then_with_tmp none o)
      ≡ and_then
          (λ d. handle_user_deposit_changed e a n)
          (and_then (λ d h. some (tt, h)) (then_with_tmp (some (pos 0)) o))
meet e a n none = refl
meet e a n (some (d, h)) = sym (second_deposit e a n (pos 0) h)

withdraw-Ignores :
    (e : Event) (a : ℕ) (gain loss : ℤ) (x : Option ℤ) (g : Graph)
    → withdraw_collateral_gain_from_stability_deposit e a gain loss (with_tmp x g)
      ≡ then_with_tmp x (withdraw_collateral_gain_from_stability_deposit e a gain loss g)
unfolding Ignores
withdraw-Ignores e a gain loss =
    Ignores-withdraw_collateral_gain_from_stability_deposit e a gain loss

-- Of one transaction's pair of events, `UserDepositChanged` first or `CollateralGainWithdrawn` first, both orders
-- give the same store: the gain is withdrawn, then the deposit is updated, or the handlers abort.
pub handlers_commute :
    (e : Event) (a : ℕ) (n gain loss : ℤ) (g : Graph)
    → IsUnpaired g
    → (handle_user_deposit_changed e a n >> handle_collateral_gain_withdrawn e a gain loss) g
      ≡ (handle_collateral_gain_withdrawn e a gain loss >> handle_user_deposit_changed e a n) g
unfolding ◌>>◌ ◌>>=◌
handlers_commute e a n gain loss g unpaired =
    let withdrawn = withdraw_collateral_gain_from_stability_deposit e a gain loss g in
    ap (and_then (λ d. handle_collateral_gain_withdrawn e a gain loss))
      (first_deposit e a n g unpaired)
    ∙ second_gain e a gain loss n g
    ∙ ap (and_then (λ d. update_stability_deposit e a n)) (withdraw-Ignores e a gain loss none g)
    ∙ meet e a n withdrawn
    ∙ ap (λ o. and_then (λ d. handle_user_deposit_changed e a n) (and_then (λ d h. some (tt, h)) o))
        (sym (withdraw-Ignores e a gain loss (some (pos 0)) g))
    ∙ ap (and_then (λ d. handle_user_deposit_changed e a n))
        (sym (first_gain e a gain loss g unpaired))
