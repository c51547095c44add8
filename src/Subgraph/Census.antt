-- ===== src/Subgraph/Census.antt =====
-- The counters of `Global` against the Troves that are stored.
pub mod Update
pub mod Events
pub mod Run
use stability_protocol.Base.{
  ℕ, suc, Bool, true, false, ◌+◌, ◌-◌, ◌%◌, ◌^◌, ◌≤◌, if◌then◌else◌, Option, none, some, ◌≡◌, ◌≢◌,
  refl, sym, subst, arith,
}
use stability_protocol.Base.Int.{ℤ, pos}
use stability_protocol.Base.Maps.{
  Map, number_key, load_entity, save_entity, OnSome, part, count_by, count_by-save_entity,
  part-le-count_by, All,
}
use stability_protocol.Subgraph.Entities.{
  TroveStatus, opened, closed_by_owner, closed_by_liquidation, closed_by_redemption, TroveEntity,
}
use stability_protocol.Subgraph.Graph.{Graph, increase, decrease}
use stability_protocol.Subgraph.Troves.{same_status}
use stability_protocol.Subgraph.Frame.{Census, Register, register}

-- One for a Trove of the status, nothing for another.
abbrev pub unit : TroveStatus → TroveStatus → ℕ
unit s status = if same_status s status then 1 else 0

abbrev pub of_status : TroveStatus → ℕ → TroveEntity → ℕ
of_status s id trove = unit s trove.status

-- The stored Troves of a status.
abbrev pub number : TroveStatus → Map ℕ TroveEntity → ℕ
number s troves = count_by (of_status s) troves

-- A number for each status.
pub record Tally : Type 0 where
  pub open_troves : ℕ
  pub liquidated : ℕ
  pub redeemed : ℕ
  pub by_owner : ℕ

abbrev pub tally : Map ℕ TroveEntity → Tally
tally troves = record {
  open_troves = number opened troves;
  liquidated = number closed_by_liquidation troves;
  redeemed = number closed_by_redemption troves;
  by_owner = number closed_by_owner troves;
}

-- The counters are the numbers, as 32-bit numbers.
abbrev pub Agrees : Census → Tally → Type 0
Agrees c n =
    (c.open_troves ≡ n.open_troves % 2 ^ 32)
    × (c.liquidated ≡ n.liquidated % 2 ^ 32)
    × (c.redeemed ≡ n.redeemed % 2 ^ 32)
    × (c.by_owner ≡ n.by_owner % 2 ^ 32)
    × (c.total ≡ (n.open_troves + n.liquidated + n.redeemed + n.by_owner) % 2 ^ 32)

-- A closed Trove holds nothing.
abbrev pub IsSettled : ℕ → TroveEntity → Type 0
IsSettled id trove =
    same_status opened trove.status ≡ false → (trove.collateral ≡ pos 0) × (trove.debt ≡ pos 0)

abbrev pub IsCounted : Register → Type 0
IsCounted r = Agrees r.counts (tally r.troves) × All IsSettled r.troves

-- The tally with one Trove of the status more.
abbrev pub with_one : TroveStatus → Tally → Tally
with_one status n = record {
  open_troves = n.open_troves + unit opened status;
  liquidated = n.liquidated + unit closed_by_liquidation status;
  redeemed = n.redeemed + unit closed_by_redemption status;
  by_owner = n.by_owner + unit closed_by_owner status;
}

-- The stored Troves but the one with the identifier.
abbrev pub without : ℕ → Map ℕ TroveEntity → Tally
without id troves = record {
  open_troves = number opened troves - part (of_status opened) id (load_entity id troves);
  liquidated =
      number closed_by_liquidation troves
      - part (of_status closed_by_liquidation) id (load_entity id troves);
  redeemed =
      number closed_by_redemption troves
      - part (of_status closed_by_redemption) id (load_entity id troves);
  by_owner =
      number closed_by_owner troves - part (of_status closed_by_owner) id (load_entity id troves);
}

-- The counters count the Trove in hand, with its status, in the place of the stored one.
abbrev pub IsPending : ℕ → TroveStatus → Register → Type 0
IsPending id status r = Agrees r.counts (with_one status (without id r.troves))

number-save :
    (s : TroveStatus) (id : ℕ) (trove : TroveEntity) (troves : Map ℕ TroveEntity)
    → number s (save_entity id trove troves)
      ≡ number s troves - part (of_status s) id (load_entity id troves) + unit s trove.status
number-save s id trove troves = omega (
  arith,
  count_by-save_entity (of_status s) id trove troves,
  part-le-count_by (of_status s) id troves,
)

-- Saving the Trove in hand settles the count.
pub tally-save :
    (id : ℕ) (trove : TroveEntity) (troves : Map ℕ TroveEntity)
    → tally (save_entity id trove troves) ≡ with_one trove.status (without id troves)
tally-save id trove troves = simp number-save

one_stored :
    (s : TroveStatus) (id : ℕ) (trove : TroveEntity) (troves : Map ℕ TroveEntity)
    → load_entity id troves ≡ some trove
    → number s troves - part (of_status s) id (load_entity id troves) + unit s trove.status
      ≡ number s troves
one_stored s id trove troves stored =
    let one = part-le-count_by (of_status s) id troves in
    rw stored (omega (arith, rw stored at one))

with_one-without :
    (id : ℕ) (trove : TroveEntity) (troves : Map ℕ TroveEntity)
    → load_entity id troves ≡ some trove
    → with_one trove.status (without id troves) ≡ tally troves
with_one-without id trove troves stored = simp (
  one_stored opened id trove troves stored,
  one_stored closed_by_liquidation id trove troves stored,
  one_stored closed_by_redemption id trove troves stored,
  one_stored closed_by_owner id trove troves stored,
)

-- A stored Trove in hand is counted, and so is a new one after one more open Trove.
pub stored-IsPending :
    (id : ℕ) (trove : TroveEntity) (r : Register)
    → load_entity id r.troves ≡ some trove
    → Agrees r.counts (tally r.troves)
    → IsPending id trove.status r
stored-IsPending id trove r stored counted =
    subst (Agrees r.counts) (sym (with_one-without id trove r.troves stored)) counted

pub new-IsPending :
    (id : ℕ) (c : Census) (troves : Map ℕ TroveEntity)
    → load_entity id troves ≡ none
    → Agrees c (tally troves)
    → IsPending id opened record {
      counts = record c { open_troves = increase c.open_troves; total = increase c.total };
      troves = troves;
    }
new-IsPending id c troves missing counted = rw missing (ground arith)

-- The counters after a Trove that was open closes, and after a closed one opens.
abbrev pub count_closed : TroveStatus → Census → Census
count_closed opened c = c
count_closed closed_by_owner c = record c {
  by_owner = increase c.by_owner;
  open_troves = decrease c.open_troves;
}
count_closed closed_by_liquidation c = record c {
  liquidated = increase c.liquidated;
  open_troves = decrease c.open_troves;
}
count_closed closed_by_redemption c = record c {
  redeemed = increase c.redeemed;
  open_troves = decrease c.open_troves;
}

abbrev pub count_opened : TroveStatus → Census → Census
count_opened opened c = c
count_opened closed_by_owner c = record c {
  by_owner = decrease c.by_owner;
  open_troves = increase c.open_troves;
}
count_opened closed_by_liquidation c = record c {
  liquidated = decrease c.liquidated;
  open_troves = increase c.open_troves;
}
count_opened closed_by_redemption c = record c {
  redeemed = decrease c.redeemed;
  open_troves = increase c.open_troves;
}

pub count_closed-Agrees :
    (status : TroveStatus) (c : Census) (n : Tally)
    → Agrees c (with_one opened n)
    → Agrees (count_closed status c) (with_one status n)
count_closed-Agrees opened c n agrees = agrees
count_closed-Agrees closed_by_owner c n agrees = ground arith
count_closed-Agrees closed_by_liquidation c n agrees = ground arith
count_closed-Agrees closed_by_redemption c n agrees = ground arith

pub count_opened-Agrees :
    (status : TroveStatus) (c : Census) (n : Tally)
    → Agrees c (with_one status n)
    → Agrees (count_opened status c) (with_one opened n)
count_opened-Agrees opened c n agrees = agrees
count_opened-Agrees closed_by_owner c n agrees = ground arith
count_opened-Agrees closed_by_liquidation c n agrees = ground arith
count_opened-Agrees closed_by_redemption c n agrees = ground arith
