-- ===== src/Constants.antt =====
-- packages/lib-base/src/constants.ts, in units of 10 ^ -18.
use stability_protocol.Base.{◌+◌, ◌*◌, ◌^◌}
use stability_protocol.Decimal.{Decimal, digits}

abbrev pub critical_collateral_ratio : Decimal
critical_collateral_ratio = 15 * 10 ^ 17

abbrev pub minimum_collateral_ratio : Decimal
minimum_collateral_ratio = 11 * 10 ^ 17

abbrev pub thusd_liquidation_reserve : Decimal
thusd_liquidation_reserve = 200 * digits

abbrev pub thusd_minimum_net_debt : Decimal
thusd_minimum_net_debt = 1800 * digits

abbrev pub thusd_minimum_debt : Decimal
thusd_minimum_debt = thusd_liquidation_reserve + thusd_minimum_net_debt

abbrev pub minimum_borrowing_rate : Decimal
minimum_borrowing_rate = 5 * 10 ^ 15

abbrev pub maximum_borrowing_rate : Decimal
maximum_borrowing_rate = 5 * 10 ^ 16

abbrev pub minimum_redemption_rate : Decimal
minimum_redemption_rate = 5 * 10 ^ 15
