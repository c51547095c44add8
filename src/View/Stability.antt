-- ===== src/View/Stability.antt =====
-- The views of a stability deposit (StabilityViewProvider.tsx and types.ts in
-- packages/dev-frontend/src/components/Stability/context).
use stability_protocol.Base.{
  ◌≡◌, ◌⊎◌, inl, inr, refl, ap, ◌∙◌, Bool, true, false, Option, none, some, List, [], ◌∷◌, Result,
  ok, ◌>>=◌, arith, if◌then◌else◌, Bool-cases,
}
use stability_protocol.Deposit.Stability.{StabilityDeposit, is_empty}
use stability_protocol.View.Dispatch.{Status, find, dispatch_event, dispatch_event_same}

pub data StabilityView : Type 0 where
  none_view depositing active adjusting : StabilityView

pub data StabilityEvent : Type 0 where
  deposit_pressed adjust_deposit_pressed cancel_pressed : StabilityEvent
  deposit_confirmed rewards_claimed deposit_emptied : StabilityEvent

-- The table `transitions`, by the view and then the event.
unfoldable pub transitions : StabilityView → StabilityEvent → Option StabilityView
transitions none_view deposit_pressed = some depositing
transitions depositing cancel_pressed = some none_view
transitions depositing deposit_confirmed = some active
transitions active rewards_claimed = some active
transitions active adjust_deposit_pressed = some adjusting
transitions active deposit_emptied = some none_view
transitions adjusting cancel_pressed = some active
transitions adjusting deposit_confirmed = some active
transitions adjusting deposit_emptied = some none_view
transitions _ _ = none

abbrev pub view_or : StabilityView → Option StabilityView → StabilityView
view_or view none = view
view_or view (some next) = next

unfoldable pub transition : StabilityView → StabilityEvent → StabilityView
unfolding transitions
transition view event = view_or view (transitions view event)

unfoldable pub get_initial_view : StabilityDeposit → StabilityView
get_initial_view d = if is_empty d then none_view else active

abbrev pub SelectedStore : Type 0
SelectedStore = Status StabilityDeposit

-- The list that the first effect builds.
unfoldable pub initial_views : List SelectedStore → List (Status StabilityView)
initial_views [] = []
initial_views (s ∷ stores) =
    record {
      version = s.version;
      collateral = s.collateral;
      initial_view = get_initial_view s.initial_view;
    }
    ∷ initial_views stores

-- One round of the last effect.
abbrev pub dispatch_emptied :
    SelectedStore
    → List (Status StabilityView)
    → List (Status StabilityView)
    → Result (List (Status StabilityView))
dispatch_emptied s refs views =
    if is_empty s.initial_view
    then dispatch_event transition deposit_emptied s.version s.collateral refs views
    else ok views

unfoldable pub dispatch_empties :
    List SelectedStore
    → List (Status StabilityView)
    → List (Status StabilityView)
    → Result (List (Status StabilityView))
dispatch_empties [] refs views = ok views
dispatch_empties (s ∷ stores) refs views = do
  next ← dispatch_emptied s refs views
  dispatch_empties stores refs next

-- A view that shows a deposit.
abbrev pub shows_deposit : StabilityView → Bool
shows_deposit active = true
shows_deposit adjusting = true
shows_deposit _ = false

-- What the events mean for whether there is a deposit: a deposit is confirmed from an editor, which is
-- open, and emptied where there is one; rewards are claimed where there is one.
abbrev pub after_event : Bool → StabilityEvent → Bool
after_event there deposit_confirmed = true
after_event there deposit_emptied = false
after_event there _ = there

-- An event that the front end sends at a view: a confirmation comes from the two editors, and the other events
-- at any time.
abbrev pub Fits : StabilityView → StabilityEvent → Type 0
Fits v deposit_confirmed = (v ≡ depositing) ⊎ (v ≡ adjusting)
Fits v _ = Unit

-- The view reached by a list of events, and whether there is a deposit after them.
unfoldable pub run : StabilityView → List StabilityEvent → StabilityView
run v [] = v
run v (e ∷ es) = run (transition v e) es

abbrev pub deposited : Bool → List StabilityEvent → Bool
deposited there [] = there
deposited there (e ∷ es) = deposited (after_event there e) es

abbrev pub AllFit : StabilityView → List StabilityEvent → Type 0
unfolding transition
AllFit v [] = Unit
AllFit v (e ∷ es) = Fits v e × AllFit (transition v e) es

one_event :
    (v : StabilityView) (e : StabilityEvent)
    → Fits v e
    → shows_deposit (transition v e) ≡ after_event (shows_deposit v) e
unfolding transition
one_event v deposit_pressed h = ground arith
one_event v adjust_deposit_pressed h = ground arith
one_event v cancel_pressed h = ground arith
one_event v deposit_confirmed h = ground arith
one_event v rewards_claimed h = ground arith
one_event v deposit_emptied h = ground arith

-- After any events of which each confirmation comes from an editor, the view shows a deposit exactly if the last
-- confirmation or emptying was a confirmation, or there was none and a deposit was shown at first.
pub run_lem :
    (v : StabilityView) (es : List StabilityEvent)
    → AllFit v es
    → shows_deposit (run v es) ≡ deposited (shows_deposit v) es
unfolding run transition
run_lem v [] h = refl
run_lem v (e ∷ es) (h, hs) =
    run_lem (transition v e) es hs ∙ ap (λ b. deposited b es) (one_event v e h)

-- The view that the provider finds for each of the stores is the initial one of its deposit.
abbrev pub AreShown : List (Status StabilityView) → List SelectedStore → Type 0
AreShown views [] = Unit
AreShown views (s ∷ stores) =
    (find s.version s.collateral views
      ≡ some (record {
        version = s.version;
        collateral = s.collateral;
        initial_view = get_initial_view s.initial_view;
      }))
    × AreShown views stores

empty_same :
    (d : StabilityDeposit)
    → is_empty d ≡ true
    → transition (get_initial_view d) deposit_emptied ≡ get_initial_view d
unfolding transition get_initial_view
empty_same d e = ground arith

dispatch_emptied_same :
    (s : SelectedStore) (refs views : List (Status StabilityView))
    → AreShown refs (s ∷ [])
    → AreShown views (s ∷ [])
    → dispatch_emptied s refs views ≡ ok views
dispatch_emptied_same s refs views hr hv = elim (Bool-cases (is_empty s.initial_view)) [
  | inl e ↦ rw e (
      dispatch_event_same transition deposit_emptied s.version s.collateral refs views hr.0 hv.0
        (empty_same s.initial_view e))
  | inr e ↦ rw e refl
]

-- Telling the provider which deposits are empty changes no view that it has made from the same
-- deposits, as long as it finds the view of each.
pub dispatch_empties_same :
    (stores : List SelectedStore) (refs views : List (Status StabilityView))
    → AreShown refs stores
    → AreShown views stores
    → dispatch_empties stores refs views ≡ ok views
unfolding dispatch_empties
dispatch_empties_same [] refs views hr hv = refl
dispatch_empties_same (s ∷ stores) refs views (hr, hrs) (hv, hvs) =
    rw (dispatch_emptied_same s refs views (hr, tt) (hv, tt))
      (dispatch_empties_same stores refs views hrs hvs)
