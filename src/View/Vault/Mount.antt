-- ===== src/View/Vault/Mount.antt =====
-- Mounting the provider (VaultViewProvider.tsx in
-- packages/dev-frontend/src/components/Vault/context).
use stability_protocol.Base.{◌≡◌, refl, Option, none, some, List, [], ◌∷◌, ok, arith}
use stability_protocol.Trove.User.{UserTroveStatus}
use stability_protocol.View.Dispatch.{Status, find, dispatch_event_same}
use stability_protocol.View.Vault.{
  VaultView, VaultEvent, SelectedStore, transition, get_initial_view, vault_status_events,
  dispatch_some, dispatch_statuses,
}

-- The view that the provider finds for each of the stores is the initial one of its status.
abbrev pub AreShown : List (Status VaultView) → List SelectedStore → Type 0
AreShown views [] = Unit
AreShown views (s ∷ stores) =
    (find s.version s.collateral views
      ≡ some (record {
        version = s.version;
        collateral = s.collateral;
        initial_view = get_initial_view s.initial_view;
      }))
    × AreShown views stores

status_same :
    (s : UserTroveStatus) (e : VaultEvent)
    → vault_status_events s ≡ some e
    → transition (get_initial_view s) e ≡ get_initial_view s
unfolding vault_status_events transition get_initial_view
status_same s e h = ground arith

dispatch_some_same :
    (s : SelectedStore) (o : Option VaultEvent) (refs views : List (Status VaultView))
    → o ≡ vault_status_events s.initial_view
    → AreShown refs (s ∷ [])
    → AreShown views (s ∷ [])
    → dispatch_some o s refs views ≡ ok views
dispatch_some_same s none refs views e hr hv = refl
dispatch_some_same s (some event) refs views e hr hv =
    dispatch_event_same transition event s.version s.collateral refs views hr.0 hv.0
      (status_same s.initial_view event (cc))

-- Telling the provider the statuses from which it has made its views changes no view, as long as it
-- finds the view of each vault; the reference to the views may be an older one that knows the vaults.
pub dispatch_statuses_same :
    (stores : List SelectedStore) (refs views : List (Status VaultView))
    → AreShown refs stores
    → AreShown views stores
    → dispatch_statuses stores refs views ≡ ok views
unfolding dispatch_statuses
dispatch_statuses_same [] refs views hr hv = refl
dispatch_statuses_same (s ∷ stores) refs views (hr, hrs) (hv, hvs) =
    rw (dispatch_some_same s (vault_status_events s.initial_view) refs views refl (hr, tt) (hv, tt))
      (dispatch_statuses_same stores refs views hrs hvs)
