-- ===== src/Store/Lifecycle.antt =====
-- Loading, updating and the timer of the store (packages/lib-base/src/LiquityStore.ts). A throw keeps what
-- was written before it, so each operation returns the store beside its error. `setTimeout` is the
-- runtime's: it gives a fresh number, and the number is pending until it fires or is cleared. The
-- extra state and its reduction belong to a subclass.
use stability_protocol.Base.{
  ℕ, suc, Bool, true, false, ◌||◌, Option, none, some, List, [], ◌∷◌, Result, ok, err, Error,
  assertion_failed, ◌==◌, if◌then◌else◌,
}
use stability_protocol.Store.State.{
  BaseState, BaseStateUpdate, DerivedState, reduce, derive, reduce_derived,
}

-- The runtime's timers.
pub record Timers : Type 0 where
  pub next_id : ℕ
  pub pending : List ℕ

abbrev pub is_pending : ℕ → List ℕ → Bool
is_pending id [] = false
is_pending id (t ∷ ts) = t == id || is_pending id ts

-- `clearTimeout`.
unfoldable pub clear_timeout : ℕ → List ℕ → List ℕ
clear_timeout id [] = []
clear_timeout id (t ∷ ts) = if t == id then clear_timeout id ts else t ∷ clear_timeout id ts

pub record Store (T : Type 0) : Type 0 where
  pub loaded : Bool
  pub has_on_loaded : Bool
  pub base_state : Option BaseState
  pub derived_state : Option DerivedState
  pub extra_state : Option T
  pub update_timeout_id : Option ℕ
  pub timers : Timers

-- A store before anything has happened.
abbrev pub new_store : {T : Type 0} → Bool → ℕ → Store T
new_store has_on_loaded id = record {
  loaded = false;
  has_on_loaded = has_on_loaded;
  base_state = none;
  derived_state = none;
  extra_state = none;
  update_timeout_id = none;
  timers = record { next_id = id; pending = [] };
}

-- `get state`: the three parts, of which a missing one adds no property.
pub record StoreState (T : Type 0) : Type 0 where
  pub base : Option BaseState
  pub derived : Option DerivedState
  pub extra : Option T

abbrev pub state : {T : Type 0} → Store T → StoreState T
state s = record { base = s.base_state; derived = s.derived_state; extra = s.extra_state }

-- A call to the outside: `onLoaded()`, or `_notify` with the old and the new state.
pub data Notice (T : Type 0) : Type 0 where
  loaded_notice : Notice T
  changed : (old new : StoreState T) → Notice T

pub record Outcome (T : Type 0) : Type 0 where
  pub store : Store T
  pub error : Option Error
  pub notices : List (Notice T)

abbrev pub throws : {T : Type 0} → Error → Store T → Outcome T
throws e s = record { store = s; error = some e; notices = [] }

-- `if (id !== undefined) clearTimeout(id)`.
abbrev pub clear_if_set : Option ℕ → List ℕ → List ℕ
clear_if_set none ts = ts
clear_if_set (some id) ts = clear_timeout id ts

unfoldable pub cancel_update_if_scheduled : {T : Type 0} → Store T → Store T
cancel_update_if_scheduled s = record s {
  timers = record {
    next_id = s.timers.next_id;
    pending = clear_if_set s.update_timeout_id s.timers.pending;
  };
}

unfoldable pub schedule_update : {T : Type 0} → Store T → Store T
unfolding cancel_update_if_scheduled
schedule_update s =
    let c = cancel_update_if_scheduled s in
    record c {
      update_timeout_id = some c.timers.next_id;
      timers = record {
        next_id = suc c.timers.next_id;
        pending = c.timers.next_id ∷ c.timers.pending;
      };
    }

-- The function that `start` returns stops the subclass's monitoring, and then this.
abbrev pub stop : {T : Type 0} → Store T → Outcome T
stop s = record { store = cancel_update_if_scheduled s; error = none; notices = [] }

unfoldable pub load : {T : Type 0} → BaseState → Option T → Store T → Outcome T
unfolding schedule_update
load base extra s =
    let written = record s { base_state = some base } in
    if s.loaded then throws assertion_failed s else elim (derive base) [
      | err e ↦ throws e written
      | ok derived ↦ record {
        store =
            schedule_update
              (record written { derived_state = some derived; extra_state = extra; loaded = true });
        error = none;
        notices = if s.has_on_loaded then loaded_notice ∷ [] else [];
      }
    ]

-- `if (baseStateUpdate) …`.
abbrev pub reduce_base : Option BaseStateUpdate → BaseState → BaseState
reduce_base none b = b
reduce_base (some u) b = reduce b u

module _ {T U : Type 0} (reduce_extra : T → U → T) where
  -- The end of `_update`, from the store with its new base and derived state.
  abbrev pub finish_update : StoreState T → Store T → Outcome T
  finish_update old s =
      let done = schedule_update s in
      record { store = done; error = none; notices = changed old (state done) ∷ [] }

  -- The part from `if (extraStateUpdate)`, on the extra state that the store holds.
  abbrev pub update_extra : Option U → Option T → StoreState T → Store T → Outcome T
  update_extra none e old s = finish_update old s
  update_extra (some x) none old s = throws assertion_failed s
  update_extra (some x) (some e) old s =
      finish_update old (record s { extra_state = some (reduce_extra e x) })

  -- The part from `_derive`, on what it returns and the store with its new base state.
  abbrev pub update_derived :
      Option U → DerivedState → StoreState T → Result DerivedState → Store T → Outcome T
  update_derived x d old (err e) s = throws e s
  update_derived x d old (ok fresh) s =
      update_extra x s.extra_state old (record s { derived_state = some (reduce_derived d fresh) })

  -- `_update`, on the states that the store holds.
  abbrev pub update_from :
      Option BaseState
      → Option DerivedState
      → Option BaseStateUpdate
      → Option U
      → Store T
      → Outcome T
  update_from none d u x s = throws assertion_failed s
  update_from (some b) none u x s = throws assertion_failed s
  update_from (some b) (some d) u x s =
      let new_base = reduce_base u b in
      update_derived x d (state s) (derive new_base) (record s { base_state = some new_base })

  unfoldable pub update : Option BaseStateUpdate → Option U → Store T → Outcome T
  update u x s = update_from s.base_state s.derived_state u x s

  -- The timer `id` fires, if it is pending: the callback forgets the timer and updates.
  unfoldable pub fire : ℕ → Store T → Outcome T
  unfolding update
  fire id s =
      let fired = record s {
        update_timeout_id = none;
        timers = record { next_id = s.timers.next_id; pending = clear_timeout id s.timers.pending };
      } in
      if is_pending id s.timers.pending
      then update none none fired
      else record { store = s; error = none; notices = [] }

  -- What a user or the runtime does with a store.
  pub data Operation : Type 0 where
    load_op : BaseState → Option T → Operation
    update_op : Option BaseStateUpdate → Option U → Operation
    stop_op : Operation
    fire_op : ℕ → Operation

  unfoldable pub operate : Operation → Store T → Outcome T
  operate (load_op base extra) s = load base extra s
  operate (update_op u x) s = update u x s
  operate stop_op s = stop s
  operate (fire_op id) s = fire id s

  unfoldable pub run : List Operation → Store T → Store T
  run [] s = s
  run (op ∷ ops) s = run ops (operate op s).store
