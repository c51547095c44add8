-- ===== src/Subgraph/Census/Run.antt =====
-- The count of Troves over every handler, and over the events of a subgraph
-- (packages/subgraph/src/mappings).
use stability_protocol.Base.{ℕ, Option, none, some, List, [], ◌∷◌, ◌≡◌, refl, sym, subst}
use stability_protocol.Base.Int.{ℤ, pos}
use stability_protocol.Base.Maps.{number_key, load_entity, OnSome, on_some, anything}
use stability_protocol.Subgraph.Entities.{Global, TroveEntity, accrue_rewards}
use stability_protocol.Subgraph.Graph.{
  Graph, Handler, pure, gets, get_or_abort, ◌>>=◌, Done, Event, global_or_new, get_global, found_or,
  get_user, save_user,
}
use stability_protocol.Subgraph.Counters.{increase_number_of_open_troves}
use stability_protocol.Subgraph.Troves.{
  accrued_amounts, create_after_user, create_trove, get_trove, update_trove,
  apply_redistribution_to_trove_before_liquidation,
}
use stability_protocol.Subgraph.Tokens.{Erc20}
use stability_protocol.Subgraph.Handlers.{
  Parameters, borrower_trove_updated, manager_trove_updated, trove_liquidated, liquidation_finished,
  redemption_finished, l_terms_updated, borrowing_fee_paid, user_deposit_changed,
  collateral_gain_withdrawn, coll_balance_updated, last_good_price, transfer, approval, handle,
  kept_by, index, run_events,
}
use stability_protocol.Subgraph.Frame.{
  register, Keeps, Keeps-register, Keeps-at, after->>=, after->>, pure_same, get_or_abort_same,
}
use stability_protocol.Subgraph.Frame.Untouched.{
  Keeps-finish_current_liquidation, Keeps-finish_current_redemption, Keeps-update_price,
}
use stability_protocol.Subgraph.Frame.Aside.{
  Keeps-update_total_redistributed, Keeps-handle_borrowing_fee_paid,
  Keeps-handle_user_deposit_changed, Keeps-handle_collateral_gain_withdrawn,
  Keeps-update_user_claim_coll, Keeps-update_allowance,
}
use stability_protocol.Subgraph.Frame.Across.{update_balance-Keeps}
use stability_protocol.Subgraph.Census.{IsCounted}
use stability_protocol.Subgraph.Census.Update.{IsPlausible}
use stability_protocol.Subgraph.Census.Events.{update_trove-IsCounted}

-- A new Trove has no amounts to accrue to.
created_amounts :
    (id : ℕ) (global : Global) (g : Graph)
    → OnSome (λ (r : TroveEntity × Graph). accrued_amounts global r.0 ≡ none) (create_trove id g)
unfolding create_trove create_after_user pure
created_amounts id global g =
    after->>= (λ _. Unit) _ (get_user id) _ g (anything _)
      λ owner h t.
        after->> (λ _. Unit) _ increase_number_of_open_troves _ h (anything _)
          λ d h' t'.
            after->> (λ _. Unit) _ (save_user (record owner { trove = some id })) (pure _) h'
              (anything _) λ d' h'' t''. refl

-- The amounts that the event accrues have no debt without collateral.
abbrev pub IsPlausibleAccrual : Global → Option TroveEntity → Type 0
IsPlausibleAccrual global stored =
    OnSome
      (λ trove. OnSome (λ (a : ℤ × ℤ). a.0 ≡ pos 0 → a.1 ≡ pos 0) (accrued_amounts global trove))
      stored

-- What the handler does with the Trove that it found.
abbrev accrue : Event → ℕ → Global → TroveEntity → Handler Done
accrue e id global trove = get_or_abort (accrued_amounts global trove) >>= λ amounts.
    update_trove e accrue_rewards id amounts.0 amounts.1 (pos 0)

accrue-IsCounted :
    (e : Event) (id : ℕ) (global : Global) (trove : TroveEntity) (g : Graph)
    → load_entity id g.troves ≡ some trove
    → OnSome (λ (a : ℤ × ℤ). a.0 ≡ pos 0 → a.1 ≡ pos 0) (accrued_amounts global trove)
    → IsCounted (register g)
    → OnSome (λ r. IsCounted (register r.1)) (accrue e id global trove g)
accrue-IsCounted e id global trove g stored plausible counted =
    after->>= _ _ (get_or_abort (accrued_amounts global trove)) _ g (get_or_abort_same _ g)
      λ amounts h (read, same). rw same (
        update_trove-IsCounted e accrue_rewards id amounts.0 amounts.1 (pos 0) g
          (
            subst (OnSome (λ (a : ℤ × ℤ). a.0 ≡ pos 0 → a.1 ≡ pos 0)) read plausible,
            λ missing zero. cc,
          )
          counted)

find_accrue-IsCounted :
    (e : Event) (id : ℕ) (global : Global) (found : Option TroveEntity) (g : Graph)
    → load_entity id g.troves ≡ found
    → IsPlausibleAccrual global found
    → IsCounted (register g)
    → OnSome
        (λ r. IsCounted (register r.1))
        ((found_or found (create_trove id) >>= accrue e id global) g)
unfolding found_or
find_accrue-IsCounted e id global none g missing plausible counted =
    after->>= _ _ (create_trove id) _ g (created_amounts id global g) λ trove h unset.
      after->>= _ _ (get_or_abort (accrued_amounts global trove)) _ h (get_or_abort_same _ h)
        λ amounts h' (read, same). cc
find_accrue-IsCounted e id global (some trove) g stored plausible counted =
    after->>= _ _ (pure trove) _ g (pure_same trove g) λ t h (is_it, same).
      rw is_it (rw same (accrue-IsCounted e id global trove g stored plausible counted))

apply_redistribution-IsCounted :
    (e : Event) (id : ℕ) (g : Graph)
    → IsPlausibleAccrual (global_or_new g.global) (load_entity id g.troves)
    → IsCounted (register g)
    → OnSome
        (λ r. IsCounted (register r.1))
        (apply_redistribution_to_trove_before_liquidation e id g)
unfolding apply_redistribution_to_trove_before_liquidation get_global get_trove gets ◌>>=◌
apply_redistribution-IsCounted e id g plausible counted =
    find_accrue-IsCounted e id (global_or_new g.global) _ g refl plausible counted

-- An event whose Trove holds no debt without collateral, and whose Trove, if it is new, holds collateral.
abbrev pub IsPlausibleEvent : Parameters → Graph → Type 0
IsPlausibleEvent (borrower_trove_updated operation borrower coll debt stake) g =
    IsPlausible coll debt (load_entity borrower g.troves)
IsPlausibleEvent (manager_trove_updated operation borrower coll debt stake) g =
    IsPlausible coll debt (load_entity borrower g.troves)
IsPlausibleEvent (trove_liquidated borrower) g =
    IsPlausibleAccrual (global_or_new g.global) (load_entity borrower g.troves)
IsPlausibleEvent _ g = Unit

-- An operation that leaves the register alone leaves the count right.
kept-IsCounted :
    (m : Handler Done)
    → Keeps register m
    → (g : Graph) → IsCounted (register g)
    → OnSome (λ r. IsCounted (register r.1)) (m g)
kept-IsCounted m keeps g counted =
    on_some _ _ (m g) (Keeps-at register m keeps g) λ r e. subst IsCounted (sym e) counted

handle-IsCounted :
    (contracts : Erc20) (e : Event) (p : Parameters) (g : Graph)
    → IsPlausibleEvent p g
    → IsCounted (register g)
    → OnSome (λ r. IsCounted (register r.1)) (handle contracts e p g)
unfolding handle
handle-IsCounted contracts e (borrower_trove_updated operation borrower coll debt stake) g plausible
      counted =
    update_trove-IsCounted e _ borrower coll debt stake g plausible counted
handle-IsCounted contracts e (manager_trove_updated operation borrower coll debt stake) g plausible
      counted =
    update_trove-IsCounted e _ borrower coll debt stake g plausible counted
handle-IsCounted contracts e (trove_liquidated borrower) g plausible counted =
    apply_redistribution-IsCounted e borrower g plausible counted
handle-IsCounted contracts e (liquidation_finished a b c d) g plausible counted =
    kept-IsCounted _ (Keeps-register _ (Keeps-finish_current_liquidation e a b c d)) g counted
handle-IsCounted contracts e (redemption_finished a b c d) g plausible counted =
    kept-IsCounted _ (Keeps-register _ (Keeps-finish_current_redemption e a b c d)) g counted
handle-IsCounted contracts e (l_terms_updated collateral debt) g plausible counted =
    kept-IsCounted _ (Keeps-register _ (Keeps-update_total_redistributed collateral debt)) g counted
handle-IsCounted contracts e (borrowing_fee_paid fee) g plausible counted =
    kept-IsCounted _ (Keeps-register _ (Keeps-handle_borrowing_fee_paid fee)) g counted
handle-IsCounted contracts e (user_deposit_changed a n) g plausible counted =
    kept-IsCounted _ (Keeps-register _ (Keeps-handle_user_deposit_changed e a n)) g counted
handle-IsCounted contracts e (collateral_gain_withdrawn a n l) g plausible counted =
    kept-IsCounted _ (Keeps-register _ (Keeps-handle_collateral_gain_withdrawn e a n l)) g counted
handle-IsCounted contracts e (coll_balance_updated a n) g plausible counted =
    kept-IsCounted _ (Keeps-register _ (Keeps-update_user_claim_coll e a n)) g counted
handle-IsCounted contracts e (last_good_price p) g plausible counted =
    kept-IsCounted _ (Keeps-register _ (Keeps-update_price e p)) g counted
handle-IsCounted contracts e (transfer from to value) g plausible counted =
    kept-IsCounted _ (update_balance-Keeps contracts e from to value) g counted
handle-IsCounted contracts e (approval owner spender value) g plausible counted =
    kept-IsCounted _ (Keeps-register _ (Keeps-update_allowance e owner spender value)) g counted

-- Every event is plausible when it comes.
abbrev pub ArePlausible : Erc20 → List (Event × Parameters) → Graph → Type 0
ArePlausible contracts [] g = Unit
ArePlausible contracts (e ∷ es) g =
    IsPlausibleEvent e.1 g × ArePlausible contracts es (index contracts e g)

-- Over any events that are plausible when they come, from a store whose counters are right, the counters of
-- `Global` stay the numbers of stored Troves of each status, and their total, as 32-bit numbers; and every
-- closed Trove is stored with neither collateral nor debt.
pub run_events-IsCounted :
    (contracts : Erc20) (es : List (Event × Parameters)) (g : Graph)
    → ArePlausible contracts es g
    → IsCounted (register g)
    → IsCounted (register (run_events contracts es g))
unfolding run_events index
run_events-IsCounted contracts [] g plausible counted = counted
run_events-IsCounted contracts ((e, p) ∷ es) g (first, rest) counted =
    run_events-IsCounted contracts es _ rest (
      kept_by (λ h. IsCounted (register h)) (handle contracts e p g) g counted
        (handle-IsCounted contracts e p g first counted))
