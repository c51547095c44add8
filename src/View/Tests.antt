-- ===== src/View/Tests.antt =====
-- Two vaults: the user's of one collateral is open, that of the other was liquidated.
use Prim.Native.String.{String}
use stability_protocol.Base.{◌≡◌, inl, refl, some, List, [], ◌∷◌, ok}
use stability_protocol.Base.Lists.{length}
use stability_protocol.Trove.User.{UserTroveStatus, opened, closed_by_liquidation}
use stability_protocol.View.Dispatch.{Status, is_at, find, dispatch_event, dispatch_event_lem}
use stability_protocol.View.Vault
use stability_protocol.View.Vault.{
  VaultView, VaultEvent, adjusting, adjust_vault_pressed, vault_closed, vault_adjusted, opening,
  closing, active, close_vault_pressed, open_vault_pressed, shows_open, get_initial_view,
  initial_views, vault_liquidated, transition_all, dispatch_statuses,
}
use stability_protocol.View.Vault.Machine.{told_open, shows_open-transition_all}
use stability_protocol.View.Vault.Mount.{dispatch_statuses_same}
use stability_protocol.View.Stability
use stability_protocol.View.Stability.{
  StabilityEvent, StabilityView, deposit_pressed, deposit_confirmed, adjust_deposit_pressed,
  deposit_emptied, shows_deposit, run, deposited, run_lem, dispatch_empties, dispatch_empties_same,
}

abbrev vault : String → UserTroveStatus → Vault.SelectedStore
vault collateral s = record { version = "v2"; collateral = collateral; initial_view = s }

abbrev vaults : List Vault.SelectedStore
vaults = vault "eth" opened ∷ vault "tbtc" closed_by_liquidation ∷ []

abbrev views : List (Status VaultView)
views =
    record { version = "v2"; collateral = "eth"; initial_view = active }
    ∷ record { version = "v2"; collateral = "tbtc"; initial_view = Vault.liquidated }
    ∷ []

abbrev eth : Status VaultView
eth = record { version = "v2"; collateral = "eth"; initial_view = active }

built : initial_views vaults ≡ views
unfolding initial_views get_initial_view
built = refl

found : find "v2" "eth" views ≡ some eth
unfolding find is_at
found = refl

dispatch_event_lem_example :
    (after : List (Status VaultView)) × (dispatch_event Vault.transition adjust_vault_pressed "v2"
        "eth" views views
      ≡ ok after)
    × (find "v2" "eth" after
        ≡ some (record eth { initial_view = Vault.transition active adjust_vault_pressed }))
    × ((v c : String) → ¬ ((v ≡ "v2") × (c ≡ "eth")) → find v c after ≡ find v c views)
    × (length after ≡ length views)
dispatch_event_lem_example =
    dispatch_event_lem Vault.transition adjust_vault_pressed "v2" "eth" views views found found

-- The user adjusts an open vault, which is liquidated meanwhile.
abbrev vault_events : List VaultEvent
vault_events = adjust_vault_pressed ∷ vault_liquidated ∷ vault_adjusted ∷ []

shows_open-transition_all_example :
    shows_open (transition_all active vault_events) ≡ told_open (shows_open active) vault_events
shows_open-transition_all_example = shows_open-transition_all active vault_events

shown : Vault.Mount.AreShown views vaults
unfolding find is_at get_initial_view
shown = (refl, (refl, tt))

-- A deposit is made, and later emptied.
abbrev events : List StabilityEvent
events = deposit_pressed ∷ deposit_confirmed ∷ adjust_deposit_pressed ∷ deposit_emptied ∷ []

fit : Stability.AllFit Stability.none_view events
unfolding Stability.transition
fit = (tt, (inl refl, (tt, (tt, tt))))

run_lem_example :
    shows_deposit (run Stability.none_view events)
    ≡ deposited (shows_deposit Stability.none_view) events
run_lem_example = run_lem Stability.none_view events fit

abbrev pool : Stability.SelectedStore
pool = record {
  version = "v2";
  collateral = "eth";
  initial_view = record { initial_thusd = 0; current_thusd = 0; collateral_gain = 0 };
}

abbrev pools : List (Status StabilityView)
pools = record { version = "v2"; collateral = "eth"; initial_view = Stability.none_view } ∷ []

pools_shown : Stability.AreShown pools (pool ∷ [])
unfolding find is_at Stability.get_initial_view
pools_shown = (refl, tt)
