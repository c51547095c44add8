-- ===== src/View/Dispatch.antt =====
-- The list of views that a provider keeps, and `dispatchEvent`, which the two providers share but for
-- their types (VaultViewProvider.tsx and StabilityViewProvider.tsx in packages/dev-frontend/src/components).
-- `undefined.initialView` is the error `type_error`.
use Prim.Native.String.{String}
use text.Mathlib.Text.{◌==◌ as str_eq}
use text.Mathlib.TextEquality.{eq_iff}
use stability_protocol.Base.{
  ℕ, suc, ◌≡◌, refl, ap, ◌∙◌, Bool, ◌&&◌, Option, none, some, List, [], ◌∷◌, ◌++◌, Result, ok, err,
  ◌>>=◌, type_error, arith, if◌then◌else◌,
}
use stability_protocol.Base.Lists.{length, take, drop, get_elem?}

-- `VaultStatus` and `StabilityStatus`.
pub record Status (V : Type 0) : Type 0 where
  pub version : String
  pub collateral : String
  pub initial_view : V

module _ {V : Type 0} where
  unfoldable pub is_at : String → String → Status V → Bool
  is_at version collateral s = str_eq s.version version && str_eq s.collateral collateral

  unfoldable pub find : String → String → List (Status V) → Option (Status V)
  find version collateral [] = none
  find version collateral (s ∷ views) =
      if is_at version collateral s then some s else find version collateral views

  -- `findIndex`, with `none` for -1.
  unfoldable pub find_index : String → String → List (Status V) → Option ℕ
  find_index version collateral [] = none
  find_index version collateral (s ∷ views) =
      if is_at version collateral s
      then some 0
      else elim (find_index version collateral views) [ none ↦ none | some i ↦ some (suc i) ]

  -- `prev[index].initialView`; at -1 that is a fault.
  unfoldable pub initial_view_at : List (Status V) → Option ℕ → Result V
  initial_view_at prev none = err type_error
  initial_view_at prev (some i) = elim (get_elem? prev i) [
    | none ↦ err type_error
    | some s ↦ ok s.initial_view
  ]

  -- `{ ...prev[index], initialView: nextView }`, in its place.
  abbrev pub updated_view : Option (Status V) → V → List (Status V)
  updated_view none next_view = []
  updated_view (some s) next_view = record s { initial_view = next_view } ∷ []

  -- The test `index !== -1`, whose second branch adds a view.
  unfoldable pub update_or_add : List (Status V) → Option ℕ → String → String → V → List (Status V)
  update_or_add prev (some i) version collateral next_view =
      take i prev ++ (updated_view (get_elem? prev i) next_view ++ drop (suc i) prev)
  update_or_add prev none version collateral next_view =
      prev ++ (record { version = version; collateral = collateral; initial_view = next_view } ∷ [])

  -- The updater that `dispatchEvent` hands to `setViews`.
  unfoldable pub set_view :
      {E : Type 0} → (V → E → V) → E → String → String → List (Status V) → Result (List (Status V))
  unfolding initial_view_at update_or_add find_index
  set_view transition event version collateral prev =
      let index = find_index version collateral prev in
      do
        initial_view ← initial_view_at prev index
        ok (update_or_add prev index version collateral (transition initial_view event))

  -- `dispatchEvent`, on the views that `viewsRef` holds and the state's previous views.
  unfoldable pub dispatch_event :
      {E : Type 0}
      → (V → E → V)
      → E
      → String
      → String
      → (views_ref prev : List (Status V)) → Result (List (Status V))
  dispatch_event transition event version collateral [] prev = ok prev
  dispatch_event transition event version collateral (r ∷ refs) prev =
      elim (find version collateral (r ∷ refs)) [
        | none ↦ err type_error
        | some current ↦ set_view transition event version collateral prev
      ]

  -- What the updater means: the first view of the vault moves.
  unfoldable pub move_first :
      {E : Type 0} → (V → E → V) → E → String → String → List (Status V) → List (Status V)
  move_first transition event version collateral [] = []
  move_first transition event version collateral (s ∷ views) =
      if is_at version collateral s
      then record s { initial_view = transition s.initial_view event } ∷ views
      else s ∷ move_first transition event version collateral views

not_found :
    {V : Type 0} (version collateral : String) {s : Status V}
    → find version collateral [] ≡ some s
    → ⊥
unfolding find
not_found version collateral h = cc

module _ {V E : Type 0} (transition : V → E → V) (event : E) (version collateral : String) where
  set_view-eq :
      (prev : List (Status V)) {s : Status V}
      → find version collateral prev ≡ some s
      → set_view transition event version collateral prev
        ≡ ok (move_first transition event version collateral prev)
  unfolding set_view find find_index move_first
  set_view-eq [] h = cc
  set_view-eq (t ∷ views) {s} h = ground (arith, set_view-eq views {s = s})

  find-move_first :
      (prev : List (Status V)) (s : Status V)
      → find version collateral prev ≡ some s
      → find version collateral (move_first transition event version collateral prev)
        ≡ some (record s { initial_view = transition s.initial_view event })
  unfolding find move_first is_at
  find-move_first [] s h = cc
  find-move_first (t ∷ views) s h = ground (arith, find-move_first views s)

  find-move_first_other :
      (v c : String) (prev : List (Status V))
      → ¬ ((v ≡ version) × (c ≡ collateral))
      → find v c (move_first transition event version collateral prev) ≡ find v c prev
  unfolding find move_first is_at
  find-move_first_other v c [] h = refl
  find-move_first_other v c (t ∷ views) h = ground (
    arith,
    find-move_first_other v c views h,
    eq_iff t.version version,
    eq_iff t.collateral collateral,
    eq_iff t.version v,
    eq_iff t.collateral c,
  )

  length-move_first :
      (prev : List (Status V))
      → length (move_first transition event version collateral prev) ≡ length prev
  unfolding move_first
  length-move_first [] = refl
  length-move_first (t ∷ views) = ground (arith, length-move_first views)

  dispatches :
      (r : Status V) (refs prev : List (Status V)) {current s : Status V}
      → find version collateral (r ∷ refs) ≡ some current
      → find version collateral prev ≡ some s
      → dispatch_event transition event version collateral (r ∷ refs) prev
        ≡ ok (move_first transition event version collateral prev)
  unfolding dispatch_event
  dispatches r refs prev hr hp = ground (arith, set_view-eq prev hp)

  -- An event for a vault that is known to the provider moves the first view of that vault and no other:
  -- every other vault keeps the view that is found for it, and no view is added or lost.
  pub dispatch_event_lem :
      (refs prev : List (Status V)) {current s : Status V}
      → find version collateral refs ≡ some current
      → find version collateral prev ≡ some s
      → (views : List (Status V)) × (dispatch_event transition event version collateral refs prev
          ≡ ok views)
        × (find version collateral views
            ≡ some (record s { initial_view = transition s.initial_view event }))
        × ((v c : String) → ¬ ((v ≡ version) × (c ≡ collateral)) → find v c views ≡ find v c prev)
        × (length views ≡ length prev)
  dispatch_event_lem [] prev hr hp = absurd (not_found version collateral hr)
  dispatch_event_lem (r ∷ refs) prev {s = s} hr hp = (
    move_first transition event version collateral prev,
    dispatches r refs prev hr hp,
    find-move_first prev s hp,
    λ v c h. find-move_first_other v c prev h,
    length-move_first prev,
  )

  -- Moving to the view that is shown changes nothing.
  pub move_first_same :
      (prev : List (Status V)) (s : Status V)
      → find version collateral prev ≡ some s
      → transition s.initial_view event ≡ s.initial_view
      → move_first transition event version collateral prev ≡ prev
  unfolding find move_first
  move_first_same [] s h same = cc
  move_first_same (t ∷ views) s h same = ground (arith, move_first_same views s)

  pub dispatch_event_same :
      (refs prev : List (Status V)) {current s : Status V}
      → find version collateral refs ≡ some current
      → find version collateral prev ≡ some s
      → transition s.initial_view event ≡ s.initial_view
      → dispatch_event transition event version collateral refs prev ≡ ok prev
  dispatch_event_same [] prev hr hp same = absurd (not_found version collateral hr)
  dispatch_event_same (r ∷ refs) prev {s = s} hr hp same =
      dispatches r refs prev hr hp ∙ ap ok (move_first_same prev s hp same)
