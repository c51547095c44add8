-- ===== src/Providers.antt =====
-- The batching of calls (packages/providers/src/BatchedProvider.ts). The node is a parameter: what it answers
-- to a call at a block, or nothing for a failure, and what the Multicall contract's `aggregate` returns. A number
-- stands for an address and for the text of a block tag. A promise is its number, in the order of the calls.

mod Answers
mod Run
mod Waiting
mod Tests
use stability_protocol.Base.{
  ℕ, zero, suc, Bool, true, false, not, ◌&&◌, ◌||◌, ltb, ◌==◌, if◌then◌else◌, ◌+◌, Option, none,
  some, List, [], ◌∷◌, ◌++◌, map,
}
use stability_protocol.Base.Lists.{length}
use stability_protocol.Store.Lifecycle.{Timers, is_pending, clear_timeout, clear_if_set}

abbrev pub Tag : Type 0
Tag = Option ℕ

-- The text "latest".
abbrev pub latest : ℕ
latest = 0

abbrev pub tag_or_latest : Tag → ℕ
tag_or_latest none = latest
tag_or_latest (some tag) = tag

abbrev pub Bytes : Type 0
Bytes = List ℕ

-- The fields of a resolved request that a call has; what is not given is `none`.
pub record Request : Type 0 where
  pub to : Option ℕ
  pub from : Option ℕ
  pub nonce : Option ℕ
  pub gas_limit : Option ℕ
  pub gas_price : Option ℕ
  pub value : Option ℕ
  pub call_data : Option Bytes
  pub chain_id : Option ℕ

pub record CallRequest : Type 0 where
  pub target : Option ℕ
  pub call_data : Option Bytes

pub record BatchedCalls : Type 0 where
  pub calls : List CallRequest
  pub callbacks : List ℕ
  pub block_tag : Tag

abbrev pub empty_batch : BatchedCalls
empty_batch = record { calls = []; callbacks = []; block_tag = none }

abbrev pub is_none : {A : Type 0} → Option A → Bool
is_none none = true
is_none (some a) = false

unfoldable pub batchable_call : Request → Bool
batchable_call r = is_none r.gas_limit && is_none r.gas_price && is_none r.value

abbrev pub starts_with : Bytes → Bytes → Bool
starts_with [] text = true
starts_with (x ∷ prefix) [] = false
starts_with (x ∷ prefix) (y ∷ text) = x == y && starts_with prefix text

-- "0x252dba42", the signature of `aggregate`.
abbrev pub aggregate_signature : Bytes
aggregate_signature = 48 ∷ 120 ∷ 50 ∷ 53 ∷ 50 ∷ 100 ∷ 98 ∷ 97 ∷ 52 ∷ 50 ∷ []

abbrev pub is_to : Option ℕ → ℕ → Bool
is_to none address = false
is_to (some to) address = to == address

abbrev pub is_aggregate : Option Bytes → Bool
is_aggregate none = false
is_aggregate (some text) = starts_with aggregate_signature text

unfoldable pub batched_call : Request → ℕ → Bool
batched_call r multicall_address = is_to r.to multicall_address && is_aggregate r.call_data

-- The Multicall contract of a chain, if the chain has one.
abbrev pub multicall_address : ℕ → Option ℕ
multicall_address chain =
    if chain == 1
    then some 1364351393919681205467118641217852717113896920129
    else if chain == 3
    then some 478222005290913230214451891600934498135740294125
    else if chain == 4
    then some 380658605844618652879074245124558189199932430369
    else if chain == 5
    then some 684290246372695671985300889618502834689649272078
    else if chain == 42
    then some 255664850400112106185542664031310201420060593450
    else none

pub record Provider : Type 0 where
  pub chain_id : ℕ
  pub multicall : Option ℕ
  pub timeout_id : Option ℕ
  pub batched : BatchedCalls
  pub number_of_batched_calls : ℕ
  pub number_of_actual_calls : ℕ
  pub time_of_last_ratio_check : Option ℕ
  pub timers : Timers

abbrev pub new_provider : ℕ → Provider
new_provider id = record {
  chain_id = 0;
  multicall = none;
  timeout_id = none;
  batched = empty_batch;
  number_of_batched_calls = 0;
  number_of_actual_calls = 0;
  time_of_last_ratio_check = none;
  timers = record { next_id = id; pending = [] };
}

-- The setter of `chainId`, which throws when a Multicall contract is set.
unfoldable pub set_chain_id : ℕ → Provider → Option Provider
set_chain_id chain s =
    if is_none s.multicall
    then some (record s { chain_id = chain; multicall = multicall_address chain })
    else none

-- What the node and the Multicall contract answer.
pub record Node : Type 0 where
  pub answer : Tag → Request → Option Bytes
  pub aggregate : Tag → List CallRequest → Option (List Bytes)

-- A settled promise: resolved with a value, which may be missing, or rejected.
pub data Settled : Type 0 where
  resolved : (value : Option Bytes) → Settled
  rejected : Settled

-- `{ to: target, data: callData }`.
abbrev pub plain : CallRequest → Request
plain c = record {
  to = c.target;
  from = none;
  nonce = none;
  gas_limit = none;
  gas_price = none;
  value = none;
  call_data = c.call_data;
  chain_id = none;
}

abbrev pub resolve_each : List ℕ → List Bytes → List (ℕ × Settled)
resolve_each [] results = []
resolve_each (p ∷ ps) [] = (p, resolved none) ∷ resolve_each ps []
resolve_each (p ∷ ps) (x ∷ results) = (p, resolved (some x)) ∷ resolve_each ps results

abbrev pub settle : List ℕ → Option (List Bytes) → List (ℕ × Settled)
settle ps none = map (λ p. (p, rejected)) ps
settle ps (some results) = resolve_each ps results

abbrev pub only : Option Bytes → Option (List Bytes)
only none = none
only (some x) = some (x ∷ [])

-- More than one call goes through `aggregate`; without any, reading the first is a fault that rejects nobody.
abbrev pub results_of : Node → Tag → List CallRequest → Option (List Bytes)
results_of node tag [] = none
results_of node tag (c ∷ []) = only (node.answer tag (plain c))
results_of node tag (c ∷ d ∷ cs) = node.aggregate tag (c ∷ d ∷ cs)

unfoldable pub dispatch_calls : Node → Provider → Provider × List (ℕ × Settled)
dispatch_calls node s = (
  record s { batched = empty_batch },
  settle s.batched.callbacks (results_of node s.batched.block_tag s.batched.calls),
)

unfoldable pub enqueue_call : ℕ → CallRequest → Provider → Provider
enqueue_call promise c s = record s {
  timeout_id = some s.timers.next_id;
  timers = record {
    next_id = suc s.timers.next_id;
    pending = s.timers.next_id ∷ clear_if_set s.timeout_id s.timers.pending;
  };
  batched = record {
    calls = s.batched.calls ++ c ∷ [];
    callbacks = s.batched.callbacks ++ promise ∷ [];
    block_tag = s.batched.block_tag;
  };
}

unfoldable pub already_batched_calls_conflict_with : Tag → Provider → Bool
already_batched_calls_conflict_with tag s =
    not (length s.batched.calls == 0)
    && not (tag_or_latest tag == tag_or_latest s.batched.block_tag)

-- `super.call`.
abbrev pub direct : Node → ℕ → Request → Tag → List (ℕ × Settled)
direct node promise r tag = settle (promise ∷ []) (only (node.answer tag r))

-- The first call of a batch gives it its tag.
abbrev pub with_tag : Tag → Provider → Provider
with_tag tag s =
    if length s.batched.calls == 0
    then record s {
      batched = record {
        calls = s.batched.calls;
        callbacks = s.batched.callbacks;
        block_tag = tag;
      };
    }
    else s

-- The branches of `call` with a Multicall contract.
unfoldable pub call_with : Node → ℕ → ℕ → Request → Tag → Provider → Provider × List (ℕ × Settled)
call_with node address promise r tag s =
    if batched_call r address || not (batchable_call r) || already_batched_calls_conflict_with tag s
    then (
      record s { number_of_actual_calls = s.number_of_actual_calls + 1 },
      direct node promise r tag,
    )
    else (
      enqueue_call promise record { target = r.to; call_data = r.call_data }
          (with_tag tag (record s { number_of_batched_calls = s.number_of_batched_calls + 1 })),
      [],
    )

-- Every ten seconds of calls the counters start again.
abbrev pub check_ratio_since : Option ℕ → ℕ → Provider → Provider
check_ratio_since none now s = record s { time_of_last_ratio_check = some now }
check_ratio_since (some last) now s =
    if not (ltb now (last + 10000)) && not (s.number_of_actual_calls == 0)
    then record s {
      number_of_batched_calls = 0;
      number_of_actual_calls = 0;
      time_of_last_ratio_check = some now;
    }
    else s

unfoldable pub check_ratio : ℕ → Provider → Provider
check_ratio now s = check_ratio_since s.time_of_last_ratio_check now s

abbrev pub call_or_direct :
    Option ℕ → Node → ℕ → ℕ → Request → Tag → Provider → Provider × List (ℕ × Settled)
call_or_direct none node now promise r tag s = (s, direct node promise r tag)
call_or_direct (some address) node now promise r tag s =
    call_with node address promise r tag (check_ratio now s)

unfoldable pub call : Node → ℕ → ℕ → Request → Tag → Provider → Provider × List (ℕ × Settled)
call node now promise r tag s = call_or_direct s.multicall node now promise r tag s

-- A timer fires if it is pending.
unfoldable pub fire : Node → ℕ → Provider → Provider × List (ℕ × Settled)
fire node id s =
    if is_pending id s.timers.pending
    then dispatch_calls node (record s {
      timers = record { next_id = s.timers.next_id; pending = clear_timeout id s.timers.pending };
    })
    else (s, [])
