-- ===== src/View/Vault.antt =====
-- The views of a vault (VaultViewProvider.tsx and types.ts in
-- packages/dev-frontend/src/components/Vault/context).
pub mod Machine
pub mod Mount
use stability_protocol.Base.{
  ◌≡◌, ◌↔◌, ◌⊎◌, inl, inr, refl, Bool, true, false, Option, none, some, List, [], ◌∷◌, map, Result,
  ok, ◌>>=◌, arith,
}
use stability_protocol.Trove.User.{
  UserTroveStatus, non_existent, opened, closed_by_owner, closed_by_liquidation,
  closed_by_redemption,
}
use stability_protocol.View.Dispatch.{Status, dispatch_event}

pub data VaultView : Type 0 where
  none_view liquidated redeemed opening adjusting closing active : VaultView

pub data VaultEvent : Type 0 where
  open_vault_pressed adjust_vault_pressed close_vault_pressed : VaultEvent
  cancel_adjust_vault_pressed : VaultEvent
  vault_closed vault_liquidated vault_redeemed vault_adjusted : VaultEvent
  vault_surplus_collateral_claimed vault_opened : VaultEvent

-- The table `transitions`, by the view and then the event.
unfoldable pub transitions : VaultView → VaultEvent → Option VaultView
transitions none_view open_vault_pressed = some opening
transitions none_view vault_opened = some active
transitions liquidated open_vault_pressed = some opening
transitions liquidated vault_surplus_collateral_claimed = some none_view
transitions liquidated vault_opened = some active
transitions redeemed open_vault_pressed = some opening
transitions redeemed vault_surplus_collateral_claimed = some none_view
transitions redeemed vault_opened = some active
transitions opening cancel_adjust_vault_pressed = some none_view
transitions opening vault_opened = some active
transitions adjusting cancel_adjust_vault_pressed = some active
transitions adjusting vault_adjusted = some active
transitions adjusting vault_closed = some none_view
transitions adjusting vault_liquidated = some liquidated
transitions adjusting vault_redeemed = some redeemed
transitions closing cancel_adjust_vault_pressed = some active
transitions closing vault_closed = some none_view
transitions closing vault_adjusted = some active
transitions closing vault_liquidated = some liquidated
transitions closing vault_redeemed = some redeemed
transitions active adjust_vault_pressed = some adjusting
transitions active close_vault_pressed = some closing
transitions active vault_closed = some none_view
transitions active vault_liquidated = some liquidated
transitions active vault_redeemed = some redeemed
transitions _ _ = none

abbrev pub view_or : VaultView → Option VaultView → VaultView
view_or view none = view
view_or view (some next) = next

unfoldable pub transition : VaultView → VaultEvent → VaultView
unfolding transitions
transition view event = view_or view (transitions view event)

unfoldable pub get_initial_view : UserTroveStatus → VaultView
get_initial_view closed_by_liquidation = liquidated
get_initial_view closed_by_redemption = redeemed
get_initial_view opened = active
get_initial_view _ = none_view

unfoldable pub vault_status_events : UserTroveStatus → Option VaultEvent
vault_status_events opened = some vault_opened
vault_status_events closed_by_owner = some vault_closed
vault_status_events closed_by_liquidation = some vault_liquidated
vault_status_events closed_by_redemption = some vault_redeemed
vault_status_events non_existent = none

-- A selected store: the version, the collateral and the status of the user's vault.
abbrev pub SelectedStore : Type 0
SelectedStore = Status UserTroveStatus

-- The list that the first effect builds.
unfoldable pub initial_views : List SelectedStore → List (Status VaultView)
initial_views [] = []
initial_views (s ∷ stores) =
    record {
      version = s.version;
      collateral = s.collateral;
      initial_view = get_initial_view s.initial_view;
    }
    ∷ initial_views stores

abbrev pub dispatch_some :
    Option VaultEvent
    → SelectedStore
    → List (Status VaultView)
    → List (Status VaultView)
    → Result (List (Status VaultView))
dispatch_some none s refs views = ok views
dispatch_some (some event) s refs views =
    dispatch_event transition event s.version s.collateral refs views

-- The loop of the last effect, over the views that `viewsRef` holds throughout it.
unfoldable pub dispatch_statuses :
    List SelectedStore
    → List (Status VaultView)
    → List (Status VaultView)
    → Result (List (Status VaultView))
dispatch_statuses [] refs views = ok views
dispatch_statuses (s ∷ stores) refs views = do
  next ← dispatch_some (vault_status_events s.initial_view) s refs views
  dispatch_statuses stores refs next

-- A view that shows the vault as open.
abbrev pub shows_open : VaultView → Bool
shows_open adjusting = true
shows_open closing = true
shows_open active = true
shows_open _ = false

-- The view after a list of events that are dispatched for the vault.
unfoldable pub transition_all : VaultView → List VaultEvent → VaultView
transition_all view [] = view
transition_all view (event ∷ events) = transition_all (transition view event) events
