-- ===== src/Providers/Waiting.antt =====
-- The calls that wait in the batch and the timer that sends them
-- (packages/providers/src/BatchedProvider.ts).
use stability_protocol.Base.{
  ℕ, ◌+◌, true, not, ◌&&◌, ◌||◌, ltb, ◌==◌, ==-refl, Option, none, some, List, [], ◌∷◌, ◌++◌, map,
  ◌≡◌, ◌∙◌, sym, subst, false, arith, refl, ap, ◌⊎◌, inl, inr,
}
use stability_protocol.Store.Lifecycle.{is_pending}
use stability_protocol.Providers.{
  Tag, Bytes, Request, CallRequest, BatchedCalls, empty_batch, batchable_call, batched_call,
  Provider, Node, Settled, resolve_each, settle, dispatch_calls, enqueue_call,
  already_batched_calls_conflict_with, direct, with_tag, call_with, check_ratio_since, check_ratio,
  call_or_direct, call, fire,
}
use stability_protocol.Providers.Answers.{Asked, call_of}
use stability_protocol.Providers.Run.{Client, Input, requested, fired, step, run, if_case}

-- The batch is empty, or the timer that was set last is pending.
abbrev pub IsTimed : Provider → Type 0
IsTimed s =
    (s.batched ≡ empty_batch)
    ⊎ ((id : ℕ) × (s.timeout_id ≡ some id) × (is_pending id s.timers.pending ≡ true))

enqueue_call-IsTimed : (p : ℕ) (c : CallRequest) (s : Provider) → IsTimed (enqueue_call p c s)
unfolding enqueue_call
enqueue_call-IsTimed p c s = inr (s.timers.next_id, refl, rw (==-refl s.timers.next_id) refl)

check_ratio_since-IsTimed :
    (last : Option ℕ) (now : ℕ) (s : Provider) → IsTimed s → IsTimed (check_ratio_since last now s)
check_ratio_since-IsTimed none now s timed = timed
check_ratio_since-IsTimed (some last) now s timed =
    if_case IsTimed (not (ltb now (last + 10000)) && not (s.number_of_actual_calls == 0)) _ s
      (λ restart. timed) λ go_on. timed

call_with-IsTimed :
    (node : Node) (address p : ℕ) (r : Request) (tag : Tag) (s : Provider)
    → IsTimed s
    → IsTimed (call_with node address p r tag s).0
unfolding call_with
call_with-IsTimed node address p r tag s timed =
    if_case (λ (c : Provider × List (ℕ × Settled)). IsTimed c.0)
      (batched_call r address
        || not (batchable_call r)
        || already_batched_calls_conflict_with tag s)
      (record s { number_of_actual_calls = s.number_of_actual_calls + 1 }, direct node p r tag)
      (
        enqueue_call p (call_of r)
            (with_tag tag (record s { number_of_batched_calls = s.number_of_batched_calls + 1 })),
        [],
      )
      (λ alone. timed) λ together. enqueue_call-IsTimed p (call_of r) _

fire-IsTimed : (node : Node) (id : ℕ) (s : Provider) → IsTimed s → IsTimed (fire node id s).0
unfolding fire dispatch_calls
fire-IsTimed node id s timed =
    if_case (λ (c : Provider × List (ℕ × Settled)). IsTimed c.0) (is_pending id s.timers.pending) _
      (s, []) (λ due. inl refl) λ gone. timed

step-IsTimed :
    (node : Node) (i : Input) (s : Client) → IsTimed s.provider → IsTimed (step node i s).0.provider
unfolding step call check_ratio
step-IsTimed node (requested now r tag) s timed = called s.provider.multicall
  where
    called : (m : Option ℕ) → IsTimed (call_or_direct m node now s.next r tag s.provider).0
    called none = timed
    called (some address) =
        call_with-IsTimed node address s.next r tag (check_ratio now s.provider)
          (check_ratio_since-IsTimed s.provider.time_of_last_ratio_check now s.provider timed)
step-IsTimed node (fired id) s timed = fire-IsTimed node id s.provider timed

run-IsTimed :
    (node : Node) (is : List Input) (s : Client)
    → IsTimed s.provider
    → IsTimed (run node is s).0.provider
unfolding run
run-IsTimed node [] s timed = timed
run-IsTimed node (i ∷ is) s timed =
    run-IsTimed node is (step node i s).0 (step-IsTimed node i s timed)

-- The promises that are settled, in order.
abbrev pub promises : List (ℕ × Settled) → List ℕ
promises settled = map (λ (c : ℕ × Settled). c.0) settled

promises-resolve_each :
    (ps : List ℕ) (results : List Bytes) → promises (resolve_each ps results) ≡ ps
promises-resolve_each [] results = refl
promises-resolve_each (p ∷ ps) [] = ap (◌∷◌ p) (promises-resolve_each ps [])
promises-resolve_each (p ∷ ps) (x ∷ results) = ap (◌∷◌ p) (promises-resolve_each ps results)

promises-settle : (ps : List ℕ) (results : Option (List Bytes)) → promises (settle ps results) ≡ ps
promises-settle [] none = refl
promises-settle (p ∷ ps) none = ap (◌∷◌ p) (promises-settle ps none)
promises-settle ps (some results) = promises-resolve_each ps results

-- Some pending timer sends the batch: firing it settles every promise that waits, once and in order, and
-- leaves an empty batch.
abbrev pub IsSent : Node → Provider → ℕ → Type 0
IsSent node s id =
    (is_pending id s.timers.pending ≡ true)
    × ((fire node id s).0.batched ≡ empty_batch)
    × (promises (fire node id s).1 ≡ s.batched.callbacks)

pending-IsSent :
    (node : Node) (s : Provider) (id : ℕ) → is_pending id s.timers.pending ≡ true → IsSent node s id
unfolding fire dispatch_calls
pending-IsSent node s id pending =
    (pending, rw pending refl, rw pending (promises-settle s.batched.callbacks _))

-- The promise is one of the list.
abbrev pub Among : ℕ → List ℕ → Type 0
Among p [] = true ≡ false
Among p (q ∷ qs) = (p ≡ q) ⊎ Among p qs

Among-left : (p : ℕ) (xs ys : List ℕ) → Among p xs → Among p (xs ++ ys)
Among-left p [] ys h = cc
Among-left p (x ∷ xs) ys (inl e) = inl e
Among-left p (x ∷ xs) ys (inr h) = inr (Among-left p xs ys h)

Among-right : (p : ℕ) (xs ys : List ℕ) → Among p ys → Among p (xs ++ ys)
Among-right p [] ys h = h
Among-right p (x ∷ xs) ys h = inr (Among-right p xs ys h)

-- The promise of every call is settled, or waits.
abbrev pub ArePlaced : (settled waiting : List ℕ) → List Asked → Type 0
ArePlaced settled waiting [] = Unit
ArePlaced settled waiting (a ∷ asked) =
    (Among a.promise settled ⊎ Among a.promise waiting) × ArePlaced settled waiting asked

ArePlaced-mono :
    (ps qs xs ys : List ℕ) (asked : List Asked)
    → ((p : ℕ) → Among p ps → Among p xs ⊎ Among p ys)
    → ((p : ℕ) → Among p qs → Among p xs ⊎ Among p ys)
    → ArePlaced ps qs asked
    → ArePlaced xs ys asked
ArePlaced-mono ps qs xs ys [] f g h = tt
ArePlaced-mono ps qs xs ys (a ∷ asked) f g (inl settled, h) =
    (f a.promise settled, ArePlaced-mono ps qs xs ys asked f g h)
ArePlaced-mono ps qs xs ys (a ∷ asked) f g (inr waits, h) =
    (g a.promise waits, ArePlaced-mono ps qs xs ys asked f g h)

-- What a step leaves of the promises: those that were settled before, and those that it settles.
abbrev IsPlacing : List ℕ → List Asked → Provider × List (ℕ × Settled) → Type 0
IsPlacing before asked (s, settled) =
    ArePlaced (before ++ promises settled) s.batched.callbacks asked

direct-IsPlacing :
    (node : Node) (p : ℕ) (r : Request) (tag : Tag) (before waiting : List ℕ) (asked : List Asked)
    → ArePlaced before waiting asked
    → ArePlaced
        (before ++ promises (direct node p r tag))
        waiting
        (record { promise = p; request = r; tag = tag } ∷ asked)
direct-IsPlacing node p r tag before waiting asked placed =
    subst
      (λ ps.
        ArePlaced (before ++ ps) waiting (record { promise = p; request = r; tag = tag } ∷ asked))
      (sym (promises-settle (p ∷ []) _))
      (
        inl (Among-right p before (p ∷ []) (inl refl)),
        ArePlaced-mono before waiting (before ++ p ∷ []) waiting asked
            (λ q h. inl (Among-left q before (p ∷ []) h)) (λ q h. inr h) placed,
      )

batched-IsPlacing :
    (p : ℕ) (r : Request) (tag : Tag) (before waiting : List ℕ) (asked : List Asked)
    → ArePlaced before waiting asked
    → ArePlaced
        (before ++ [])
        (waiting ++ p ∷ [])
        (record { promise = p; request = r; tag = tag } ∷ asked)
batched-IsPlacing p r tag before waiting asked placed = (
  inr (Among-right p waiting (p ∷ []) (inl refl)),
  ArePlaced-mono before waiting (before ++ []) (waiting ++ p ∷ []) asked
      (λ q h. inl (Among-left q before [] h)) (λ q h. inr (Among-left q waiting (p ∷ []) h)) placed,
)

with_tag-callbacks :
    (tag : Tag) (s : Provider) → (with_tag tag s).batched.callbacks ≡ s.batched.callbacks
with_tag-callbacks tag s = ground arith

check_ratio-callbacks :
    (now : ℕ) (s : Provider) → (check_ratio now s).batched.callbacks ≡ s.batched.callbacks
unfolding check_ratio
check_ratio-callbacks now s = ground arith

call_with-IsPlacing :
    (node : Node) (address p : ℕ) (r : Request) (tag : Tag) (before : List ℕ) (asked : List Asked)
    (s : Provider)
    → ArePlaced before s.batched.callbacks asked
    → IsPlacing before
        (record { promise = p; request = r; tag = tag } ∷ asked)
        (call_with node address p r tag s)
unfolding call_with enqueue_call
call_with-IsPlacing node address p r tag before asked s placed =
    let counted : Provider = record s { number_of_batched_calls = s.number_of_batched_calls + 1 } in
    if_case (IsPlacing before (record { promise = p; request = r; tag = tag } ∷ asked))
      (batched_call r address
        || not (batchable_call r)
        || already_batched_calls_conflict_with tag s)
      (record s { number_of_actual_calls = s.number_of_actual_calls + 1 }, direct node p r tag)
      (enqueue_call p (call_of r) (with_tag tag counted), [])
      (λ alone. direct-IsPlacing node p r tag before s.batched.callbacks asked placed)
      λ together.
        batched-IsPlacing p r tag before (with_tag tag counted).batched.callbacks asked
          (subst (λ ps. ArePlaced before ps asked) (sym (with_tag-callbacks tag counted)) placed)

fire-IsPlacing :
    (node : Node) (id : ℕ) (before : List ℕ) (asked : List Asked) (s : Provider)
    → ArePlaced before s.batched.callbacks asked
    → IsPlacing before asked (fire node id s)
unfolding fire dispatch_calls
fire-IsPlacing node id before asked s placed =
    if_case (IsPlacing before asked) (is_pending id s.timers.pending) _ (s, [])
      (λ due.
        subst (λ ps. ArePlaced (before ++ ps) [] asked)
          (sym (promises-settle s.batched.callbacks _))
          (ArePlaced-mono before s.batched.callbacks (before ++ s.batched.callbacks) [] asked
            (λ q h. inl (Among-left q before s.batched.callbacks h))
            (λ q h. inl (Among-right q before s.batched.callbacks h)) placed))
      λ gone.
        ArePlaced-mono before s.batched.callbacks (before ++ []) s.batched.callbacks asked
          (λ q h. inl (Among-left q before [] h)) (λ q h. inr h) placed

step-IsPlacing :
    (node : Node) (i : Input) (before : List ℕ) (s : Client)
    → ArePlaced before s.provider.batched.callbacks s.asked
    → IsPlacing before (step node i s).0.asked ((step node i s).0.provider, (step node i s).1)
unfolding step call
step-IsPlacing node (requested now r tag) before s placed = called s.provider.multicall
  where
    called :
        (m : Option ℕ)
        → IsPlacing before
            (record { promise = s.next; request = r; tag = tag } ∷ s.asked)
            (call_or_direct m node now s.next r tag s.provider)
    called none =
        direct-IsPlacing node s.next r tag before s.provider.batched.callbacks s.asked placed
    called (some address) =
        call_with-IsPlacing node address s.next r tag before s.asked (check_ratio now s.provider) (
          subst (λ ps. ArePlaced before ps s.asked) (sym (check_ratio-callbacks now s.provider))
            placed)
step-IsPlacing node (fired id) before s placed =
    fire-IsPlacing node id before s.asked s.provider placed

promises-append : (xs ys : List (ℕ × Settled)) → promises (xs ++ ys) ≡ promises xs ++ promises ys
promises-append [] ys = refl
promises-append (x ∷ xs) ys = ap (◌∷◌ x.0) (promises-append xs ys)

append_assoc : (xs ys zs : List ℕ) → (xs ++ ys) ++ zs ≡ xs ++ (ys ++ zs)
append_assoc [] ys zs = refl
append_assoc (x ∷ xs) ys zs = ap (◌∷◌ x) (append_assoc xs ys zs)

run-ArePlaced :
    (node : Node) (is : List Input) (before : List ℕ) (s : Client)
    → ArePlaced before s.provider.batched.callbacks s.asked
    → ArePlaced
        (before ++ promises (run node is s).1)
        (run node is s).0.provider.batched.callbacks
        (run node is s).0.asked
unfolding run
run-ArePlaced node [] before s placed =
    ArePlaced-mono before s.provider.batched.callbacks (before ++ []) s.provider.batched.callbacks
      s.asked (λ q h. inl (Among-left q before [] h)) (λ q h. inr h) placed
run-ArePlaced node (i ∷ is) before s placed =
    let first = step node i s in
    let rest = run node is first.0 in
    subst (λ ps. ArePlaced ps rest.0.provider.batched.callbacks rest.0.asked)
      (append_assoc before (promises first.1) (promises rest.1)
        ∙ ap (λ ps. before ++ ps) (sym (promises-append first.1 rest.1)))
      (run-ArePlaced node is (before ++ promises first.1) first.0
        (step-IsPlacing node i before s placed))

-- Every promise is settled.
abbrev pub AreSettled : (settled : List ℕ) → List Asked → Type 0
AreSettled settled asked = ArePlaced settled [] asked

ArePlaced-AreSettled :
    (ps qs : List ℕ) (asked : List Asked) → ArePlaced ps qs asked → AreSettled (ps ++ qs) asked
ArePlaced-AreSettled ps qs asked placed =
    ArePlaced-mono ps qs (ps ++ qs) [] asked (λ p h. inl (Among-left p ps qs h))
      (λ p h. inl (Among-right p ps qs h)) placed

-- Whatever is called and whichever timers fire, from a provider whose batch is empty or has a pending timer, and in
-- which the promise of every earlier call waits, either nothing waits and the promise of every call has been settled, or
-- some timer is pending: firing it settles every promise that waits, each once and in the order of the calls, and leaves
-- an empty batch, and then the promise of every call has been settled. The node may fail.
pub run-IsSent :
    (node : Node) (is : List Input) (s : Client)
    → IsTimed s.provider
    → ArePlaced [] s.provider.batched.callbacks s.asked
    → ((run node is s).0.provider.batched ≡ empty_batch)
        × AreSettled (promises (run node is s).1) (run node is s).0.asked
      ⊎ ((id : ℕ) × IsSent node (run node is s).0.provider id
          × AreSettled
              (promises (run node is s).1 ++ promises (fire node id (run node is s).0.provider).1)
              (run node is s).0.asked)
run-IsSent node is s timed waiting =
    let after = run node is s in
    let placed = run-ArePlaced node is [] s waiting in
    elim (run-IsTimed node is s timed) [
      | inl empty ↦ inl (
        empty,
        subst (λ (b : BatchedCalls). ArePlaced (promises after.1) b.callbacks after.0.asked) empty
            placed,
      )
      | inr (id, set, pending) ↦
          let sent = pending-IsSent node after.0.provider id pending in
          inr (
            id,
            sent,
            subst (λ ps. AreSettled (promises after.1 ++ ps) after.0.asked) (sym sent.2)
                (ArePlaced-AreSettled (promises after.1) after.0.provider.batched.callbacks
                  after.0.asked placed),
          )
    ]
