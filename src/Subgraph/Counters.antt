-- ===== src/Subgraph/Counters.antt =====
-- The counters of Troves by status (packages/subgraph/src/entities/Global.ts).
use stability_protocol.Subgraph.Graph.{Handler, Done, change_global, increase, decrease}

-- The changes of the counters: an open Trove more, and the moves out of and into the open Troves.
unfoldable pub increase_number_of_open_troves : Handler Done
increase_number_of_open_troves = change_global (λ global. record global {
  number_of_open_troves = increase global.number_of_open_troves;
  total_number_of_troves = increase global.total_number_of_troves;
})

unfoldable pub increase_number_of_liquidated_troves : Handler Done
increase_number_of_liquidated_troves = change_global (λ global. record global {
  number_of_liquidated_troves = increase global.number_of_liquidated_troves;
  number_of_open_troves = decrease global.number_of_open_troves;
})

unfoldable pub decrease_number_of_liquidated_troves : Handler Done
decrease_number_of_liquidated_troves = change_global (λ global. record global {
  number_of_liquidated_troves = decrease global.number_of_liquidated_troves;
  number_of_open_troves = increase global.number_of_open_troves;
})

unfoldable pub increase_number_of_redeemed_troves : Handler Done
increase_number_of_redeemed_troves = change_global (λ global. record global {
  number_of_redeemed_troves = increase global.number_of_redeemed_troves;
  number_of_open_troves = decrease global.number_of_open_troves;
})

unfoldable pub decrease_number_of_redeemed_troves : Handler Done
decrease_number_of_redeemed_troves = change_global (λ global. record global {
  number_of_redeemed_troves = decrease global.number_of_redeemed_troves;
  number_of_open_troves = increase global.number_of_open_troves;
})

unfoldable pub increase_number_of_troves_closed_by_owner : Handler Done
increase_number_of_troves_closed_by_owner = change_global (λ global. record global {
  number_of_troves_closed_by_owner = increase global.number_of_troves_closed_by_owner;
  number_of_open_troves = decrease global.number_of_open_troves;
})

unfoldable pub decrease_number_of_troves_closed_by_owner : Handler Done
decrease_number_of_troves_closed_by_owner = change_global (λ global. record global {
  number_of_troves_closed_by_owner = decrease global.number_of_troves_closed_by_owner;
  number_of_open_troves = increase global.number_of_open_troves;
})
