-- ===== src/Providers/Answers.antt =====
-- What the promises of a batching provider are resolved with (packages/providers/src/BatchedProvider.ts).
use stability_protocol.Base.{
  ℕ, true, false, ◌==◌, Option, none, some, List, [], ◌∷◌, ◌++◌, map, ◌≡◌, refl, sym, ap, ◌∙◌,
  subst, ◌⊎◌, inl, inr, arith,
}
use stability_protocol.Base.Lists.{length}
use stability_protocol.Providers.{
  Tag, tag_or_latest, Bytes, Request, CallRequest, batchable_call, Provider, Node, Settled,
  resolved, rejected, plain, resolve_each, settle, only, results_of, direct,
}

-- A call of the provider, with the number of its promise.
pub record Asked : Type 0 where
  pub promise : ℕ
  pub request : Request
  pub tag : Tag

-- One of the calls has the property.
abbrev pub Has : (Asked → Type 0) → List Asked → Type 0
Has P [] = true ≡ false
Has P (a ∷ asked) = P a ⊎ Has P asked

abbrev pub call_of : Request → CallRequest
call_of r = record { target = r.to; call_data = r.call_data }

-- A call with its receiver and its data that another address sends.
abbrev pub sent_by : ℕ → CallRequest → Request
sent_by sender c = record (plain c) { from = some sender }

-- A value that a promise is resolved with is the node's answer to the promise's own request at its own tag; a call
-- that could be batched may have been sent with its receiver and its data alone, or by the Multicall contract.
abbrev pub IsAnswer : ℕ → Node → ℕ → Settled → Asked → Type 0
IsAnswer contract node p rejected a = a.promise ≡ p
IsAnswer contract node p (resolved value) a =
    (a.promise ≡ p)
    × ((value ≡ node.answer a.tag a.request)
        ⊎ (batchable_call a.request ≡ true)
          × ((value ≡ node.answer a.tag (plain (call_of a.request)))
              ⊎ (value ≡ node.answer a.tag (sent_by contract (call_of a.request)))))

abbrev pub AreAnswers : ℕ → Node → List Asked → List (ℕ × Settled) → Type 0
AreAnswers contract node asked [] = Unit
AreAnswers contract node asked ((p, o) ∷ settled) =
    Has (IsAnswer contract node p o) asked × AreAnswers contract node asked settled

-- The call in a place of the batch is that of the promise in that place.
abbrev pub IsBatched : CallRequest → ℕ → Tag → Asked → Type 0
IsBatched c p tag a =
    (a.promise ≡ p)
    × (batchable_call a.request ≡ true)
    × (c ≡ call_of a.request)
    × (tag_or_latest a.tag ≡ tag_or_latest tag)

abbrev pub Aligned : List Asked → List CallRequest → List ℕ → Tag → Type 0
Aligned asked [] [] tag = Unit
Aligned asked (c ∷ cs) (p ∷ ps) tag = Has (IsBatched c p tag) asked × Aligned asked cs ps tag
Aligned asked _ _ tag = true ≡ false

-- What is documented of the node: a call without a tag is answered at the latest block, and `aggregate` returns the
-- answers to its calls in their order, each sent by the Multicall contract, or fails.
abbrev pub TagLaw : Node → Type 0
TagLaw node =
    (tag : Tag) (r : Request) → node.answer tag r ≡ node.answer (some (tag_or_latest tag)) r

abbrev pub AggregateLaw : ℕ → Node → Type 0
AggregateLaw contract node =
    (tag : Tag) (cs : List CallRequest) (results : List Bytes)
    → node.aggregate tag cs ≡ some results
    → map some results ≡ map (λ c. node.answer tag (sent_by contract c)) cs

pub Has-mono :
    (P Q : Asked → Type 0) (asked : List Asked)
    → ((a : Asked) → P a → Q a)
    → Has P asked
    → Has Q asked
Has-mono P Q [] up h = cc
Has-mono P Q (a ∷ asked) up (inl p) = inl (up a p)
Has-mono P Q (a ∷ asked) up (inr h) = inr (Has-mono P Q asked up h)

pub more-Aligned :
    (a : Asked) (asked : List Asked) (cs : List CallRequest) (ps : List ℕ) (tag : Tag)
    → Aligned asked cs ps tag
    → Aligned (a ∷ asked) cs ps tag
more-Aligned a asked [] [] tag h = tt
more-Aligned a asked (c ∷ cs) (p ∷ ps) tag (b, h) = (inr b, more-Aligned a asked cs ps tag h)
more-Aligned a asked _ _ tag h = cc

pub append-Aligned :
    (asked : List Asked) (cs : List CallRequest) (ps : List ℕ) (tag : Tag) (c : CallRequest) (p : ℕ)
    → Aligned asked cs ps tag
    → Has (IsBatched c p tag) asked
    → Aligned asked (cs ++ c ∷ []) (ps ++ p ∷ []) tag
append-Aligned asked [] [] tag c p h b = (b, tt)
append-Aligned asked (d ∷ cs) (q ∷ ps) tag c p (first, h) b =
    (first, append-Aligned asked cs ps tag c p h b)
append-Aligned asked _ _ tag c p h b = cc

-- The two ways in which a batched call is sent.
abbrev IsSending : ℕ → (CallRequest → Request) → Type 0
IsSending contract send = (send ≡ plain) ⊎ (send ≡ sent_by contract)

-- The node's answer to a batched call is the answer to its promise.
IsAnswer-batched :
    (contract : ℕ) (node : Node) (send : CallRequest → Request)
    → TagLaw node
    → IsSending contract send
    → (c : CallRequest) (p : ℕ) (tag : Tag) (a : Asked) → IsBatched c p tag a
    → IsAnswer contract node p (resolved (node.answer tag (send c))) a
IsAnswer-batched contract node send law sending c p tag a (is_p, batchable, same, tags) =
    (is_p, inr (batchable, which sending))
  where
    answered : node.answer tag (send c) ≡ node.answer a.tag (send (call_of a.request))
    answered =
        law tag (send c)
        ∙ ap (λ t. node.answer (some t) (send c)) (sym tags)
        ∙ sym (law a.tag (send c))
        ∙ ap (λ d. node.answer a.tag (send d)) same

    which :
        IsSending contract send
        → (node.answer tag (send c) ≡ node.answer a.tag (plain (call_of a.request)))
          ⊎ (node.answer tag (send c) ≡ node.answer a.tag (sent_by contract (call_of a.request)))
    which (inl e) = inl (answered ∙ ap (λ f. node.answer a.tag (f (call_of a.request))) e)
    which (inr e) = inr (answered ∙ ap (λ f. node.answer a.tag (f (call_of a.request))) e)

rejected-AreAnswers :
    (contract : ℕ) (node : Node) (asked : List Asked) (cs : List CallRequest) (ps : List ℕ)
    (tag : Tag)
    → Aligned asked cs ps tag
    → AreAnswers contract node asked (map (λ p. (p, rejected)) ps)
rejected-AreAnswers contract node asked [] [] tag h = tt
rejected-AreAnswers contract node asked (c ∷ cs) (p ∷ ps) tag (b, h) = (
  Has-mono _ _ asked (λ a batched. batched.0) b,
  rejected-AreAnswers contract node asked cs ps tag h,
)
rejected-AreAnswers contract node asked _ _ tag h = cc

resolve_each-AreAnswers :
    (contract : ℕ) (node : Node) (send : CallRequest → Request)
    → TagLaw node
    → IsSending contract send
    → (asked : List Asked) (cs : List CallRequest) (ps : List ℕ) (tag : Tag) (results : List Bytes)
    → map some results ≡ map (λ c. node.answer tag (send c)) cs
    → Aligned asked cs ps tag
    → AreAnswers contract node asked (resolve_each ps results)
resolve_each-AreAnswers contract node send law sending asked [] [] tag results e h = tt
resolve_each-AreAnswers contract node send law sending asked (c ∷ cs) (p ∷ ps) tag [] e h = cc
resolve_each-AreAnswers contract node send law sending asked (c ∷ cs) (p ∷ ps) tag (x ∷ results) e
      (b, h) =
    (
      Has-mono _ _ asked
          (λ a batched.
            let head : some x ≡ node.answer tag (send c) = cc in
            subst (λ o. IsAnswer contract node p (resolved o) a) (sym head)
              (IsAnswer-batched contract node send law sending c p tag a batched))
          b,
      resolve_each-AreAnswers contract node send law sending asked cs ps tag results
          (let tail : map some results ≡ map (λ c. node.answer tag (send c)) cs = cc in tail) h,
    )
resolve_each-AreAnswers contract node send law sending asked _ _ tag results e h = cc

pub dispatched-AreAnswers :
    (contract : ℕ) (node : Node)
    → TagLaw node
    → AggregateLaw contract node
    → (asked : List Asked) (cs : List CallRequest) (ps : List ℕ) (tag : Tag)
    → Aligned asked cs ps tag
    → AreAnswers contract node asked (settle ps (results_of node tag cs))
dispatched-AreAnswers contract node law many asked [] ps tag h =
    rejected-AreAnswers contract node asked [] ps tag h
dispatched-AreAnswers contract node law many asked (c ∷ []) ps tag h =
    one (node.answer tag (plain c)) refl
  where
    one :
        (o : Option Bytes)
        → node.answer tag (plain c) ≡ o
        → AreAnswers contract node asked (settle ps (only o))
    one none e = rejected-AreAnswers contract node asked (c ∷ []) ps tag h
    one (some x) e =
        resolve_each-AreAnswers contract node plain law (inl refl) asked (c ∷ []) ps tag (x ∷ [])
          (ap (λ o. o ∷ []) (sym e)) h
dispatched-AreAnswers contract node law many asked (c ∷ d ∷ cs) ps tag h =
    all (node.aggregate tag (c ∷ d ∷ cs)) refl
  where
    all :
        (o : Option (List Bytes))
        → node.aggregate tag (c ∷ d ∷ cs) ≡ o
        → AreAnswers contract node asked (settle ps o)
    all none e = rejected-AreAnswers contract node asked (c ∷ d ∷ cs) ps tag h
    all (some results) e =
        resolve_each-AreAnswers contract node (sent_by contract) law (inr refl) asked (c ∷ d ∷ cs)
          ps tag results (many tag (c ∷ d ∷ cs) results e) h

-- The batch of the provider is that of the calls that wait.
abbrev pub IsWaiting : List Asked → Provider → Type 0
IsWaiting asked s = Aligned asked s.batched.calls s.batched.callbacks s.batched.block_tag

pub direct-AreAnswers :
    (contract : ℕ) (node : Node) (asked : List Asked) (p : ℕ) (r : Request) (tag : Tag)
    → AreAnswers contract node
        (record { promise = p; request = r; tag = tag } ∷ asked)
        (direct node p r tag)
direct-AreAnswers contract node asked p r tag = settled_once (node.answer tag r) refl
  where
    settled_once :
        (o : Option Bytes)
        → node.answer tag r ≡ o
        → AreAnswers contract node
            (record { promise = p; request = r; tag = tag } ∷ asked)
            (settle (p ∷ []) (only o))
    settled_once none e = (inl refl, tt)
    settled_once (some x) e = (inl (refl, inl (sym e)), tt)

pub with_tag-Aligned :
    (asked : List Asked) (cs : List CallRequest) (ps : List ℕ) (tag new_tag : Tag)
    → (length cs == 0) ≡ true
    → Aligned asked cs ps tag
    → Aligned asked cs ps new_tag
with_tag-Aligned asked [] [] tag new_tag empty h = tt
with_tag-Aligned asked (c ∷ cs) ps tag new_tag empty h = absurd (ground arith)
with_tag-Aligned asked [] (p ∷ ps) tag new_tag empty h = cc
