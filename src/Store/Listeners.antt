-- ===== src/Store/Listeners.antt =====
-- The listeners of the store: `_notify` and `subscribe` (packages/lib-base/src/LiquityStore.ts). `wrap`
-- makes a new function of each listener, so a listener is a number; a `Set` keeps the order in which
-- its elements came. What a listener does to the set when it is called is a parameter.
use stability_protocol.Base.{
  ℕ, ◌≡◌, Bool, false, ◌||◌, List, [], ◌∷◌, ◌++◌, ◌==◌, if◌then◌else◌, arith,
}

-- `this._listeners.has(listener)`.
unfoldable pub has : ℕ → List ℕ → Bool
has l [] = false
has l (k ∷ ks) = k == l || has l ks

-- `this._listeners.add(uniqueListener)`.
unfoldable pub subscribe : ℕ → List ℕ → List ℕ
subscribe l ks = if has l ks then ks else ks ++ (l ∷ [])

-- `this._listeners.delete(uniqueListener)`.
unfoldable pub unsubscribe : ℕ → List ℕ → List ℕ
unsubscribe l [] = []
unsubscribe l (k ∷ ks) = if k == l then unsubscribe l ks else k ∷ unsubscribe l ks

module _ (react : ℕ → List ℕ → List ℕ) where
  -- The loop over the copy, with the set as it is then: the listeners that are called, in order.
  unfoldable pub notify_each : List ℕ → List ℕ → List ℕ
  notify_each [] listeners = []
  notify_each (l ∷ copy) listeners =
      let called = l ∷ notify_each copy (react l listeners) in
      let skipped = notify_each copy listeners in if has l listeners then called else skipped

  unfoldable pub notify : List ℕ → List ℕ
  unfolding notify_each
  notify listeners = notify_each listeners listeners

-- The first list is the second with some elements left out.
pub data IsSublist : List ℕ → List ℕ → Type 0 where
  nothing : IsSublist [] []
  kept : (l : ℕ) (ks ls : List ℕ) → IsSublist ks ls → IsSublist (l ∷ ks) (l ∷ ls)
  left_out : (l : ℕ) (ks ls : List ℕ) → IsSublist ks ls → IsSublist ks (l ∷ ls)

unsubscribe_last : (l : ℕ) (ks : List ℕ) → has l ks ≡ false → unsubscribe l (ks ++ (l ∷ [])) ≡ ks
unfolding has unsubscribe
unsubscribe_last l [] h = ground arith
unsubscribe_last l (k ∷ ks) h = ground (arith, unsubscribe_last l ks)

-- A subscription that is taken back leaves the listeners as they were.
pub unsubscribe-subscribe :
    (l : ℕ) (ks : List ℕ) → has l ks ≡ false → unsubscribe l (subscribe l ks) ≡ ks
unfolding subscribe
unsubscribe-subscribe l ks h = rw h (unsubscribe_last l ks h)

module _ (react : ℕ → List ℕ → List ℕ) where
  -- No reaction removes the listener, or none adds it.
  abbrev pub Stays : ℕ → Bool → Type 0
  Stays l b = (k : ℕ) (ks : List ℕ) → has l ks ≡ b → has l (react k ks) ≡ b
