-- ===== src/Providers/Tests.antt =====
-- A provider on chain 1, with a node that echoes the data of a call.
use stability_protocol.Base.{ℕ, Option, none, some, List, [], ◌∷◌, ◌++◌, ◌≡◌, refl, ◌⊎◌, inl}
use stability_protocol.Providers.{
  Bytes, Request, CallRequest, Node, new_provider, multicall_address, empty_batch, fire,
}
use stability_protocol.Providers.Run.{Client, Input, requested, fired, run}
use stability_protocol.Providers.Waiting.{promises, AreSettled, IsSent, run-IsSent}

abbrev echo : Option Bytes → Bytes
echo none = []
echo (some data_of) = data_of

abbrev echo_each : List CallRequest → List Bytes
echo_each [] = []
echo_each (c ∷ cs) = echo c.call_data ∷ echo_each cs

abbrev node : Node
node = record {
  answer = λ tag r. some (echo r.call_data);
  aggregate = λ tag cs. some (echo_each cs);
}

abbrev client : Client
client = record {
  provider = record (new_provider 1) { chain_id = 1; multicall = multicall_address 1 };
  asked = [];
  next = 0;
}

abbrev asks : ℕ → Request
asks n = record {
  to = some 9;
  from = some 5;
  nonce = none;
  gas_limit = none;
  gas_price = none;
  value = none;
  call_data = some (n ∷ []);
  chain_id = none;
}

-- Two calls that are batched, one at another block that is not, and the timer.
abbrev inputs : List Input
inputs =
    requested 1000 (asks 1) none
    ∷ requested 1001 (asks 2) (some 0)
    ∷ requested 1002 (asks 3) (some 77)
    ∷ fired 2
    ∷ []

abbrev waiting_inputs : List Input
waiting_inputs = requested 1000 (asks 1) none ∷ requested 1001 (asks 2) none ∷ []

run-IsSent_example :
    ((run node waiting_inputs client).0.provider.batched ≡ empty_batch)
      × AreSettled
          (promises (run node waiting_inputs client).1)
          (run node waiting_inputs client).0.asked
    ⊎ ((id : ℕ) × IsSent node (run node waiting_inputs client).0.provider id
        × AreSettled
            (promises (run node waiting_inputs client).1
              ++ promises (fire node id (run node waiting_inputs client).0.provider).1)
            (run node waiting_inputs client).0.asked)
run-IsSent_example = run-IsSent node waiting_inputs client (inl refl) tt
