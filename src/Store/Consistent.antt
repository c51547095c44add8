-- ===== src/Store/Consistent.antt =====
-- What a load or an update leaves (packages/lib-base/src/LiquityStore.ts).
use stability_protocol.Base.{
  ◌≡◌, refl, ap, true, false, Option, none, some, [], ◌∷◌, Result, ok, err, Error, assertion_failed,
  if◌then◌else◌,
}
use stability_protocol.Store.State.{
  BaseState, BaseStateUpdate, DerivedState, derive, reduce_derived,
}
use stability_protocol.Store.Reduce.{reduce_derived-eq}
use stability_protocol.Store.Lifecycle.{
  Store, StoreState, loaded_notice, changed, Outcome, finish_update, state, throws, schedule_update,
  load, reduce_base, finish_update, update_extra, update_derived, update_from, update,
}

-- The derived state is what derives from the base state.
abbrev pub IsConsistent : {T : Type 0} → Store T → Type 0
IsConsistent s =
    (b : BaseState) × (d : DerivedState) × (s.base_state ≡ some b)
    × (s.derived_state ≡ some d)
    × (derive b ≡ ok d)

-- Loading a store that is not loaded, with a base state from which a state derives, leaves it consistent and
-- calls `onLoaded` once if it is set; a loaded store refuses and is left alone.
pub load_lem :
    {T : Type 0} (base : BaseState) (extra : Option T) (s : Store T) (d : DerivedState)
    → derive base ≡ ok d
    → (s.loaded ≡ false
        → ((load base extra s).error ≡ none)
          × IsConsistent (load base extra s).store
          × ((load base extra s).store.loaded ≡ true)
          × ((load base extra s).notices ≡ (if s.has_on_loaded then loaded_notice ∷ [] else [])))
      × (s.loaded ≡ true → load base extra s ≡ throws assertion_failed s)
unfolding load
load_lem base extra s d f =
    (λ e. rw (e, f) (refl, (base, d, refl, refl, f), refl, refl), λ e. rw e refl)

module _ {T U : Type 0} (reduce_extra : T → U → T) where
  -- What an update that began with the state `old` may leave: without an error, a derived state that is
  -- up to date and one notice, of the old and the new state; with an error, no notice.
  abbrev pub IsReported : StoreState T → Outcome T → Type 0
  IsReported old o =
      (o.error ≡ none → IsConsistent o.store × (o.notices ≡ changed old (state o.store) ∷ []))
      × ((e : Error) → o.error ≡ some e → o.notices ≡ [])

  throws-IsReported : (old : StoreState T) (e : Error) (s : Store T) → IsReported old (throws e s)
  throws-IsReported old e s = (λ h. cc, λ f h. refl)

  finish_update-IsReported :
      (old : StoreState T) (s : Store T)
      → IsConsistent s
      → IsReported old (finish_update reduce_extra old s)
  unfolding schedule_update
  finish_update-IsReported old s h = (λ e. (h, refl), λ e f. cc)

  update_extra-IsReported :
      (x : Option U) (e : Option T) (old : StoreState T) (s : Store T)
      → IsConsistent s
      → IsReported old (update_extra reduce_extra x e old s)
  update_extra-IsReported none e old s h = finish_update-IsReported old s h
  update_extra-IsReported (some x) none old s h = throws-IsReported old assertion_failed s
  update_extra-IsReported (some x) (some e) old s h =
      finish_update-IsReported old (record s { extra_state = some (reduce_extra e x) }) h

  update_derived-IsReported :
      (x : Option U) (b : BaseState) (d : DerivedState) (old : StoreState T)
      (r : Result DerivedState) (s : Store T)
      → s.base_state ≡ some b
      → derive b ≡ r
      → IsReported old (update_derived reduce_extra x d old r s)
  update_derived-IsReported x b d old (err e) s h f = throws-IsReported old e s
  update_derived-IsReported x b d old (ok fresh) s h f =
      update_extra-IsReported x s.extra_state old
        (record s { derived_state = some (reduce_derived d fresh) })
        (b, fresh, h, ap some (reduce_derived-eq d fresh), f)

  update_from-IsReported :
      (b : Option BaseState) (d : Option DerivedState) (u : Option BaseStateUpdate) (x : Option U)
      (s : Store T)
      → IsReported (state s) (update_from reduce_extra b d u x s)
  update_from-IsReported none d u x s = throws-IsReported (state s) assertion_failed s
  update_from-IsReported (some b) none u x s = throws-IsReported (state s) assertion_failed s
  update_from-IsReported (some b) (some d) u x s =
      update_derived-IsReported x (reduce_base u b) d (state s) (derive (reduce_base u b))
        (record s { base_state = some (reduce_base u b) }) refl refl

  -- On any store, an update that does not throw leaves the derived state that follows from the base
  -- state, and one notice with the state before and after it. One that throws notifies nobody.
  pub update-IsReported :
      (u : Option BaseStateUpdate) (x : Option U) (s : Store T)
      → IsReported (state s) (update reduce_extra u x s)
  unfolding update
  update-IsReported u x s = update_from-IsReported s.base_state s.derived_state u x s
