-- ===== src/Fees.antt =====
-- backend/src/common/utils: round-half-even.ts and fee-calculator.util.ts.
pub mod Rounding
pub mod Laws
use kori.Common.{ℕ}
use kori.Common.Int.{ℤ, pos, ◌+ℤ◌, ◌*ℤ◌, div_ℤ}
use kori.Common.Result.{Result}
use kori.Domain.Enums.{TransactionType}
use kori.Domain.Enums.TransactionType.{send_money, cash_in, cash_out, payment, add_money}
use kori.Domain.Money.{Money, from_minor_units, zero_money}
use Rounding.{divide_round_half_even}

-- The dictionary `feeStrategies` has an entry for every type, so its missing-entry error cannot
-- occur.
unfoldable pub calculate_fee : Money → TransactionType → Result Money
unfolding from_minor_units zero_money
calculate_fee amount send_money = from_minor_units (pos 500) amount.money_currency
calculate_fee amount cash_out =
    from_minor_units (divide_round_half_even (amount.amount_minor_units *ℤ pos 185) (pos 10000))
      amount.money_currency
calculate_fee amount cash_in = zero_money amount.money_currency
calculate_fee amount payment = zero_money amount.money_currency
calculate_fee amount add_money = zero_money amount.money_currency
