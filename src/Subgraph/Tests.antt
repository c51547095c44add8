-- ===== src/Subgraph/Tests.antt =====
-- A subgraph that indexes a price, a Trove, a deposit and a token.
use stability_protocol.Base.{ℕ, ◌*◌, ◌^◌, some, List, [], ◌∷◌, ◌≡◌, refl}
use stability_protocol.Base.Int.{ℤ, pos}
use stability_protocol.Base.Maps.{load_entity}
use stability_protocol.Subgraph.Graph.{empty_graph, Event, ◌>>◌}
use stability_protocol.Subgraph.Tokens.{Erc20}
use stability_protocol.Subgraph.Handlers.{
  Parameters, last_good_price, borrower_trove_updated, transfer, run_events,
}
use stability_protocol.Subgraph.Frame.{register}
use stability_protocol.Subgraph.Census.{IsCounted}
use stability_protocol.Subgraph.Census.Run.{run_events-IsCounted}
use stability_protocol.Subgraph.Tokens.Supply.{IsConserved}
use stability_protocol.Subgraph.Tokens.Run.{run_events-IsConserved}
use stability_protocol.Subgraph.Deposits.{
  handle_user_deposit_changed, handle_collateral_gain_withdrawn,
}
use stability_protocol.Subgraph.Deposits.Order.{handlers_commute}

abbrev contracts : Erc20
contracts = record { name = λ a. some (84 ∷ []); symbol = λ a. some (84 ∷ []) }

abbrev event : Event
event = record {
  address = 7;
  transaction_hash = 100;
  transaction_from = 5;
  block_number = 1000;
  timestamp = 1_600_000_000;
}

abbrev whole : ℕ → ℤ
whole n = pos (n * 10 ^ 18)

-- A price, a new Trove of one borrower, and more collateral in it.
abbrev trove_events : List (Event × Parameters)
trove_events =
    (event, last_good_price (whole 2000))
    ∷ (event, borrower_trove_updated 0 5 (whole 2) (whole 2500) (whole 2))
    ∷ (event, borrower_trove_updated 2 5 (whole 3) (whole 2500) (whole 3))
    ∷ []

run_events-IsCounted_example : IsCounted (register (run_events contracts trove_events empty_graph))
run_events-IsCounted_example =
    run_events-IsCounted contracts trove_events empty_graph
      (tt, ((λ e. cc, λ missing e. cc), ((λ e. cc, λ missing e. cc), tt)))
      ((refl, refl, refl, refl, refl), tt)

-- Minted tokens, of which some move and some are burnt.
abbrev token_events : List (Event × Parameters)
token_events =
    (event, transfer 0 5 (whole 100))
    ∷ (event, transfer 5 6 (whole 30))
    ∷ (event, transfer 6 6 (whole 10))
    ∷ (event, transfer 6 0 (whole 20))
    ∷ []

run_events-IsConserved_example : IsConserved 7 (run_events contracts token_events empty_graph)
unfolding load_entity
run_events-IsConserved_example = run_events-IsConserved contracts 7 token_events empty_graph refl

handlers_commute_example :
    (handle_user_deposit_changed event 5 (whole 40)
        >> handle_collateral_gain_withdrawn event 5 (whole 1) (whole 10))
      empty_graph
    ≡ (handle_collateral_gain_withdrawn event 5 (whole 1) (whole 10)
          >> handle_user_deposit_changed event 5 (whole 40))
        empty_graph
handlers_commute_example = handlers_commute event 5 (whole 40) (whole 1) (whole 10) empty_graph refl
