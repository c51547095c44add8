-- ===== src/View/Vault/Machine.antt =====
-- The view of a vault over the events that are dispatched for it (VaultViewProvider.tsx in
-- packages/dev-frontend/src/components/Vault/context).
use stability_protocol.Base.{◌≡◌, ◌∙◌, refl, Bool, true, false, List, [], ◌∷◌, arith}
use stability_protocol.View.Vault.{
  VaultView, VaultEvent, transition, transition_all, shows_open, open_vault_pressed,
  adjust_vault_pressed, close_vault_pressed, cancel_adjust_vault_pressed, vault_closed,
  vault_liquidated, vault_redeemed, vault_adjusted, vault_surplus_collateral_claimed, vault_opened,
}

-- Whether the vault is open by what the events tell, from whether it was at first.
abbrev pub told_open : Bool → List VaultEvent → Bool
told_open was [] = was
told_open was (vault_opened ∷ events) = told_open true events
told_open was (vault_closed ∷ events) = told_open false events
told_open was (vault_liquidated ∷ events) = told_open false events
told_open was (vault_redeemed ∷ events) = told_open false events
told_open was (vault_adjusted ∷ events) = told_open was events
told_open was (vault_surplus_collateral_claimed ∷ events) = told_open was events
told_open was (open_vault_pressed ∷ events) = told_open was events
told_open was (adjust_vault_pressed ∷ events) = told_open was events
told_open was (close_vault_pressed ∷ events) = told_open was events
told_open was (cancel_adjust_vault_pressed ∷ events) = told_open was events

tells :
    (v : VaultView) (e : VaultEvent) (events : List VaultEvent)
    → told_open (shows_open (transition v e)) events ≡ told_open (shows_open v) (e ∷ events)
unfolding transition
tells v e events = ground arith

-- Whatever events are dispatched for a vault, and from whatever view, the view then shows an open vault
-- exactly if the last event that tells of an opening or of an end of the vault tells of an opening, or there
-- is none and the first view shows an open vault. An adjustment, a claim and what the user presses do not
-- change that.
pub shows_open-transition_all :
    (v : VaultView) (events : List VaultEvent)
    → shows_open (transition_all v events) ≡ told_open (shows_open v) events
unfolding transition_all
shows_open-transition_all v [] = refl
shows_open-transition_all v (e ∷ events) =
    shows_open-transition_all (transition v e) events ∙ tells v e events
