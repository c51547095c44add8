-- ===== src/Trove/User.antt =====
-- Troves with an owner, and Troves with a pending redistribution
-- (packages/lib-base/src/Trove.ts). An address is a text.
use Prim.Native.String.{String}
use text.Mathlib.Text.{◌==◌ as str_eq}
use stability_protocol.Base.{Bool, true, false, ◌&&◌}
use stability_protocol.Decimal.{Decimal, eq}
use stability_protocol.Trove
use stability_protocol.Trove.{Trove, multiply, subtract}

pub data UserTroveStatus : Type 0 where
  non_existent opened closed_by_owner closed_by_liquidation closed_by_redemption : UserTroveStatus

pub record UserTrove : Type 0 where
  pub base : Trove
  pub owner_address : String
  pub status : UserTroveStatus

-- `===` on two statuses, which are texts in the source.
abbrev pub same_status : UserTroveStatus → UserTroveStatus → Bool
same_status non_existent non_existent = true
same_status opened opened = true
same_status closed_by_owner closed_by_owner = true
same_status closed_by_liquidation closed_by_liquidation = true
same_status closed_by_redemption closed_by_redemption = true
same_status _ _ = false

abbrev pub user_equals : UserTrove → UserTrove → Bool
user_equals a b =
    Trove.equals a.base b.base
    && str_eq a.owner_address b.owner_address
    && same_status a.status b.status

-- `TroveWithPendingRedistribution`.
pub record PendingTrove : Type 0 where
  pub user : UserTrove
  pub stake : Decimal
  pub snapshot_of_total_redistributed : Trove

unfoldable pub apply_redistribution : PendingTrove → Trove → UserTrove
apply_redistribution t total_redistributed = record (t.user) {
  base =
      Trove.add t.user.base
        (multiply (subtract total_redistributed t.snapshot_of_total_redistributed) t.stake);
}

abbrev pub pending_equals : PendingTrove → PendingTrove → Bool
pending_equals a b =
    user_equals a.user b.user
    && eq a.stake b.stake
    && Trove.equals a.snapshot_of_total_redistributed b.snapshot_of_total_redistributed
