-- ===== src/Store/Timer.antt =====
-- The store's one timer (packages/lib-base/src/LiquityStore.ts).
use stability_protocol.Base.{
  ℕ, ◌≡◌, ◌⊎◌, inl, inr, refl, ap, subst, Bool, true, Option, none, some, List, [], ◌∷◌, ◌≤◌,
  Result, ok, err, arith, Bool-cases, Result-cases, ==-refl,
}
use stability_protocol.Base.Lists.{length}
use stability_protocol.Store.State.{
  BaseState, BaseStateUpdate, DerivedState, derive, reduce_derived,
}
use stability_protocol.Store.Lifecycle.{
  Store, StoreState, new_store, state, is_pending, clear_timeout, clear_if_set,
  cancel_update_if_scheduled, schedule_update, stop, load, reduce_base, update_extra,
  update_derived, update_from, update, fire, Operation, load_op, update_op, stop_op, fire_op,
  operate, run,
}

-- Nothing is pending but the timer that the store remembers.
abbrev pub IsTimed : {T : Type 0} → Store T → Type 0
IsTimed s =
    (s.timers.pending ≡ [])
    ⊎ ((id : ℕ) × (s.update_timeout_id ≡ some id) × (s.timers.pending ≡ id ∷ []))

clear_only : (id : ℕ) → clear_timeout id (id ∷ []) ≡ []
unfolding clear_timeout
clear_only id = rw (==-refl id) refl

clear_none : (o : Option ℕ) → clear_if_set o [] ≡ []
unfolding clear_timeout
clear_none none = refl
clear_none (some id) = refl

cancelled :
    {T : Type 0} (s : Store T) → IsTimed s → clear_if_set s.update_timeout_id s.timers.pending ≡ []
cancelled s (inl e) = rw e (clear_none s.update_timeout_id)
cancelled s (inr (id, e, p)) = rw (e, p) (clear_only id)

-- After `stop`, no timer is pending: no update follows that is not asked for.
pub stop_lem : {T : Type 0} (s : Store T) → IsTimed s → (stop s).store.timers.pending ≡ []
unfolding cancel_update_if_scheduled
stop_lem s h = cancelled s h

one_timer : {T : Type 0} (s : Store T) → IsTimed s → length s.timers.pending ≤ 1
one_timer s (inl e) = rw e (omega arith)
one_timer s (inr (id, e, p)) = rw p (omega arith)

clear_pending : (id t : ℕ) → is_pending id (t ∷ []) ≡ true → clear_timeout id (t ∷ []) ≡ []
unfolding clear_timeout
clear_pending id t h = ground arith

-- The store when its timer `id` has fired, before the update.
abbrev fired : {T : Type 0} → ℕ → Store T → Store T
fired id s = record s {
  update_timeout_id = none;
  timers = record { next_id = s.timers.next_id; pending = clear_timeout id s.timers.pending };
}

fired_pending :
    {T : Type 0} (id : ℕ) (s : Store T)
    → IsTimed s
    → is_pending id s.timers.pending ≡ true
    → clear_timeout id s.timers.pending ≡ []
fired_pending id s (inl e) p = rw e (clear_none (some id))
fired_pending id s (inr (t, e, q)) p =
    rw q (clear_pending id t (subst (λ l. is_pending id l ≡ true) q p))

schedule_update-IsTimed : {T : Type 0} (s : Store T) → IsTimed s → IsTimed (schedule_update s)
unfolding schedule_update
schedule_update-IsTimed s h =
    inr (s.timers.next_id, refl, ap (◌∷◌ s.timers.next_id) (cancelled s h))

load-IsTimed :
    {T : Type 0} (base : BaseState) (extra : Option T) (s : Store T)
    → IsTimed s
    → IsTimed (load base extra s).store
unfolding load
load-IsTimed base extra s h = elim (Bool-cases s.loaded) [
  | inl e ↦ rw e h
  | inr e ↦ elim (Result-cases (derive base)) [
    | inl (d, f) ↦
        rw (e, f)
          (schedule_update-IsTimed
            (record s {
              base_state = some base;
              derived_state = some d;
              extra_state = extra;
              loaded = true;
            })
            h)
    | inr (x, f) ↦ rw (e, f) h
  ]
]

module _ {T U : Type 0} (reduce_extra : T → U → T) where
  update_extra-IsTimed :
      (x : Option U) (e : Option T) (old : StoreState T) (s : Store T)
      → IsTimed s
      → IsTimed (update_extra reduce_extra x e old s).store
  update_extra-IsTimed none e old s h = schedule_update-IsTimed s h
  update_extra-IsTimed (some x) none old s h = h
  update_extra-IsTimed (some x) (some e) old s h =
      schedule_update-IsTimed (record s { extra_state = some (reduce_extra e x) }) h

  update_derived-IsTimed :
      (x : Option U) (d : DerivedState) (old : StoreState T) (r : Result DerivedState) (s : Store T)
      → IsTimed s
      → IsTimed (update_derived reduce_extra x d old r s).store
  update_derived-IsTimed x d old (err e) s h = h
  update_derived-IsTimed x d old (ok f) s h =
      update_extra-IsTimed x s.extra_state old
        (record s { derived_state = some (reduce_derived d f) }) h

  update_from-IsTimed :
      (b : Option BaseState) (d : Option DerivedState) (u : Option BaseStateUpdate) (x : Option U)
      (s : Store T)
      → IsTimed s
      → IsTimed (update_from reduce_extra b d u x s).store
  update_from-IsTimed none d u x s h = h
  update_from-IsTimed (some b) none u x s h = h
  update_from-IsTimed (some b) (some d) u x s h =
      update_derived-IsTimed x d (state s) (derive (reduce_base u b))
        (record s { base_state = some (reduce_base u b) }) h

  update-IsTimed :
      (u : Option BaseStateUpdate) (x : Option U) (s : Store T)
      → IsTimed s
      → IsTimed (update reduce_extra u x s).store
  unfolding update
  update-IsTimed u x s h = update_from-IsTimed s.base_state s.derived_state u x s h

  fire-IsTimed : (id : ℕ) (s : Store T) → IsTimed s → IsTimed (fire reduce_extra id s).store
  unfolding fire
  fire-IsTimed id s h = elim (Bool-cases (is_pending id s.timers.pending)) [
    | inl e ↦ rw e (update-IsTimed none none (fired id s) (inl (fired_pending id s h e)))
    | inr e ↦ rw e h
  ]

  operate-IsTimed :
      (op : Operation reduce_extra) (s : Store T)
      → IsTimed s
      → IsTimed (operate reduce_extra op s).store
  unfolding operate cancel_update_if_scheduled
  operate-IsTimed (load_op base extra) s h = load-IsTimed base extra s h
  operate-IsTimed (update_op u x) s h = update-IsTimed u x s h
  operate-IsTimed stop_op s h = inl (cancelled s h)
  operate-IsTimed (fire_op id) s h = fire-IsTimed id s h

  run-IsTimed :
      (ops : List (Operation reduce_extra)) (s : Store T)
      → IsTimed s
      → IsTimed (run reduce_extra ops s)
  unfolding run
  run-IsTimed [] s h = h
  run-IsTimed (op ∷ ops) s h =
      run-IsTimed ops (operate reduce_extra op s).store (operate-IsTimed op s h)

  -- Whatever is loaded, updated, stopped and fired in whatever order on a new store, errors included, at
  -- most one timer is pending, and stopping then leaves none.
  pub run-one_timer :
      (ops : List (Operation reduce_extra)) (has_on_loaded : Bool) (id : ℕ)
      → let s = run reduce_extra ops (new_store has_on_loaded id) in
        (length s.timers.pending ≤ 1) × ((stop s).store.timers.pending ≡ [])
  run-one_timer ops has_on_loaded id =
      let s = run reduce_extra ops (new_store has_on_loaded id) in
      let h : IsTimed s = run-IsTimed ops (new_store has_on_loaded id) (inl refl) in
      (one_timer s h, stop_lem s h)
