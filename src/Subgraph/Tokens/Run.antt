-- ===== src/Subgraph/Tokens/Run.antt =====
-- The supplies and the balances of tokens over the events of a subgraph (packages/subgraph/src/mappings).
use stability_protocol.Base.{ℕ, List, [], ◌∷◌, ◌≡◌, sym, subst}
use stability_protocol.Base.Maps.{OnSome, on_some}
use stability_protocol.Subgraph.Graph.{Graph, Handler, Done, Event}
use stability_protocol.Subgraph.Tokens.{Erc20}
use stability_protocol.Subgraph.Handlers.{
  Parameters, borrower_trove_updated, manager_trove_updated, trove_liquidated, liquidation_finished,
  redemption_finished, l_terms_updated, borrowing_fee_paid, user_deposit_changed,
  collateral_gain_withdrawn, coll_balance_updated, last_good_price, transfer, approval, handle,
  index, run_events, kept_by,
}
use stability_protocol.Subgraph.Frame.{ledger, Keeps, Keeps-ledger, Keeps-at}
use stability_protocol.Subgraph.Frame.Untouched.{
  Keeps-finish_current_liquidation, Keeps-finish_current_redemption, Keeps-update_price,
}
use stability_protocol.Subgraph.Frame.Aside.{
  Keeps-update_total_redistributed, Keeps-handle_borrowing_fee_paid,
  Keeps-handle_user_deposit_changed, Keeps-handle_collateral_gain_withdrawn,
  Keeps-update_user_claim_coll, Keeps-update_allowance,
}
use stability_protocol.Subgraph.Frame.Across.{
  update_trove-Keeps, apply_redistribution_to_trove_before_liquidation-Keeps,
}
use stability_protocol.Subgraph.Tokens.Supply.{supply, held, IsConserved}
use stability_protocol.Subgraph.Tokens.Transfers.{update_balance-IsConserved}

kept-IsConserved :
    (t : ℕ) (m : Handler Done)
    → Keeps ledger m
    → (g : Graph) → IsConserved t g
    → OnSome (λ r. IsConserved t r.1) (m g)
kept-IsConserved t m keeps g conserved =
    on_some _ _ (m g) (Keeps-at ledger m keeps g)
      λ r e. subst (λ l. supply t l ≡ held t l) (sym e) conserved

handle-IsConserved :
    (contracts : Erc20) (t : ℕ) (e : Event) (p : Parameters) (g : Graph)
    → IsConserved t g
    → OnSome (λ r. IsConserved t r.1) (handle contracts e p g)
unfolding handle
handle-IsConserved contracts t e (borrower_trove_updated operation borrower coll debt stake) g
      conserved =
    kept-IsConserved t _ (update_trove-Keeps e _ borrower coll debt stake) g conserved
handle-IsConserved contracts t e (manager_trove_updated operation borrower coll debt stake) g
      conserved =
    kept-IsConserved t _ (update_trove-Keeps e _ borrower coll debt stake) g conserved
handle-IsConserved contracts t e (trove_liquidated borrower) g conserved =
    kept-IsConserved t _ (apply_redistribution_to_trove_before_liquidation-Keeps e borrower) g
      conserved
handle-IsConserved contracts t e (liquidation_finished a b c d) g conserved =
    kept-IsConserved t _ (Keeps-ledger _ (Keeps-finish_current_liquidation e a b c d)) g conserved
handle-IsConserved contracts t e (redemption_finished a b c d) g conserved =
    kept-IsConserved t _ (Keeps-ledger _ (Keeps-finish_current_redemption e a b c d)) g conserved
handle-IsConserved contracts t e (l_terms_updated collateral debt) g conserved =
    kept-IsConserved t _ (Keeps-ledger _ (Keeps-update_total_redistributed collateral debt)) g
      conserved
handle-IsConserved contracts t e (borrowing_fee_paid fee) g conserved =
    kept-IsConserved t _ (Keeps-ledger _ (Keeps-handle_borrowing_fee_paid fee)) g conserved
handle-IsConserved contracts t e (user_deposit_changed a n) g conserved =
    kept-IsConserved t _ (Keeps-ledger _ (Keeps-handle_user_deposit_changed e a n)) g conserved
handle-IsConserved contracts t e (collateral_gain_withdrawn a n l) g conserved =
    kept-IsConserved t _ (Keeps-ledger _ (Keeps-handle_collateral_gain_withdrawn e a n l)) g
      conserved
handle-IsConserved contracts t e (coll_balance_updated a n) g conserved =
    kept-IsConserved t _ (Keeps-ledger _ (Keeps-update_user_claim_coll e a n)) g conserved
handle-IsConserved contracts t e (last_good_price p) g conserved =
    kept-IsConserved t _ (Keeps-ledger _ (Keeps-update_price e p)) g conserved
handle-IsConserved contracts t e (transfer from to value) g conserved =
    update_balance-IsConserved contracts t e from to value g conserved
handle-IsConserved contracts t e (approval owner spender value) g conserved =
    kept-IsConserved t _ (Keeps-ledger _ (Keeps-update_allowance e owner spender value)) g conserved

-- Whatever the events are, mints, burns, transfers between holders and of a holder to himself among them,
-- and whichever handlers abort, the stored supply of every token stays the sum of its stored balances.
pub run_events-IsConserved :
    (contracts : Erc20) (t : ℕ) (es : List (Event × Parameters)) (g : Graph)
    → IsConserved t g
    → IsConserved t (run_events contracts es g)
unfolding run_events index
run_events-IsConserved contracts t [] g conserved = conserved
run_events-IsConserved contracts t ((e, p) ∷ es) g conserved =
    run_events-IsConserved contracts t es _ (
      kept_by (IsConserved t) (handle contracts e p g) g conserved
        (handle-IsConserved contracts t e p g conserved))
