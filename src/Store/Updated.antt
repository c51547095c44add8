-- ===== src/Store/Updated.antt =====
-- What an update makes of a loaded store (`_update` in packages/lib-base/src/LiquityStore.ts).
use stability_protocol.Base.{
  ◌≡◌, ◌≢◌, ◌⊎◌, inl, inr, refl, ap, sym, subst, true, false, Option, none, some, [], ◌∷◌, ok,
  assertion_failed,
}
use stability_protocol.Fees.{Fees}
use stability_protocol.Fees.Rates.{IsValid, InTime}
use stability_protocol.Store.State.{
  BaseState, BaseStateUpdate, DerivedState, derive, reduce_derived,
}
use stability_protocol.Store.Reduce.{latest, IsMerged, reduce-IsMerged, reduce_derived-eq}
use stability_protocol.Store.Derived.{derive_total}
use stability_protocol.Store.Consistent.{IsConsistent}
use stability_protocol.Store.Lifecycle.{
  Store, StoreState, changed, Outcome, state, schedule_update, reduce_base, update_extra,
  update_from, update,
}

-- The base state with the update merged into it, if there is one.
abbrev pub IsUpdated : Option BaseStateUpdate → BaseState → BaseState → Type 0
IsUpdated none b r = r ≡ b
IsUpdated (some u) b r = IsMerged b u r

abbrev pub fees_left : Option BaseStateUpdate → BaseState → Fees
fees_left none b = b.fees_in_normal_mode
fees_left (some u) b = latest b.fees_in_normal_mode u.fees_in_normal_mode

reduce_base-IsUpdated :
    (u : Option BaseStateUpdate) (b : BaseState)
    → IsUpdated u b (reduce_base u b) × (fees_left u b ≡ (reduce_base u b).fees_in_normal_mode)
reduce_base-IsUpdated none b = (refl, refl)
reduce_base-IsUpdated (some u) b =
    let merged = reduce-IsMerged b u in (merged, sym merged.fees_in_normal_mode)

module _ {T U : Type 0} (reduce_extra : T → U → T) where
  -- The extra state after an update of it, which a store without extra state cannot take.
  abbrev pub IsExtraUpdated : Option U → Option T → Option T → Type 0
  IsExtraUpdated none e after = after ≡ e
  IsExtraUpdated (some x) none after = true ≡ false
  IsExtraUpdated (some x) (some e) after = after ≡ some (reduce_extra e x)

  -- The update fails at the extra state and notifies nobody, or it leaves a consistent store and one notice.
  abbrev pub IsSettled : Option U → Option T → StoreState T → Outcome T → Type 0
  IsSettled x e old o =
      (x ≢ none) × (e ≡ none) × (o.error ≡ some assertion_failed) × (o.notices ≡ [])
      ⊎ (o.error ≡ none)
        × IsExtraUpdated x e o.store.extra_state
        × IsConsistent o.store
        × (o.notices ≡ changed old (state o.store) ∷ [])

  update_extra-IsSettled :
      (x : Option U) (e : Option T) (old : StoreState T) (s : Store T)
      → s.extra_state ≡ e
      → IsConsistent s
      → IsSettled x e old (update_extra reduce_extra x e old s)
        × ((update_extra reduce_extra x e old s).store.base_state ≡ s.base_state)
  unfolding schedule_update
  update_extra-IsSettled none e old s same h = (inr (refl, same, h, refl), refl)
  update_extra-IsSettled (some x) none old s same h = (inl (λ n. cc, refl, refl, refl), refl)
  update_extra-IsSettled (some x) (some e) old s same h = (inr (refl, refl, h, refl), refl)

  -- What is left of a store that held the base state `b`.
  abbrev pub IsTaken : Option BaseStateUpdate → Option U → BaseState → Store T → Outcome T → Type 0
  IsTaken u x b s o =
      (r : BaseState) × IsUpdated u b r
      × (o.store.base_state ≡ some r)
      × IsSettled x s.extra_state (state s) o

  update_from-IsTaken :
      (u : Option BaseStateUpdate) (x : Option U) (s : Store T) (b : BaseState)
      (d fresh : DerivedState)
      → derive (reduce_base u b) ≡ ok fresh
      → IsTaken u x b s (update_from reduce_extra (some b) (some d) u x s)
  update_from-IsTaken u x s b d fresh g =
      let r = reduce_base u b in
      let (settled, kept) =
        update_extra-IsSettled x s.extra_state (state s)
          (record s { base_state = some r; derived_state = some (reduce_derived d fresh) }) refl
          (r, fresh, refl, ap some (reduce_derived-eq d fresh), g) in
      rw g (r, (reduce_base-IsUpdated u b).0, kept, settled)

  -- A loaded store, if the fees that the update leaves are valid and their time is one that the exponent can hold, gets the
  -- base state into which the update is merged, whatever the update of the extra state is. Then it fails if the extra state is
  -- updated and there is none, and notifies nobody; otherwise nothing is thrown, the extra state is the updated one, the
  -- derived state follows from the base state, and one notice tells of the state before and after.
  pub update_total :
      (u : Option BaseStateUpdate) (x : Option U) (s : Store T) (b : BaseState) (d : DerivedState)
      → s.base_state ≡ some b
      → s.derived_state ≡ some d
      → IsValid (fees_left u b)
      → InTime (fees_left u b) none
      → IsTaken u x b s (update reduce_extra u x s)
  unfolding update
  update_total u x s b d e f v t =
      let same = (reduce_base-IsUpdated u b).1 in
      let (fresh, g, _) =
        derive_total (reduce_base u b) (subst IsValid same v)
          (subst (λ (fees : Fees). InTime fees none) same t) in
      subst (λ o. IsTaken u x b s (update_from reduce_extra o s.derived_state u x s)) (sym e)
        (subst (λ o. IsTaken u x b s (update_from reduce_extra (some b) o u x s)) (sym f)
          (update_from-IsTaken u x s b d fresh g))
