-- ===== src/Tests/Amounts.antt =====
-- The theorems on amounts, fees and rounding, at concrete numbers.
use kori.Common.{ℕ, ◌+◌, ◌≡◌, ◌≤◌, ◌<◌, refl, arith}
use kori.Common.Int.{pos}
use kori.Common.Result.{ok}
use kori.Common.Text.{text}
use kori.Domain.Enums.{Currency, TransactionType}
use kori.Fees.{calculate_fee}
use kori.Fees.Laws.{money, IsFee, calculate_fee-IsFee}
use kori.Fees.Rounding.{divide_round_half_even, IsNearestEven, divide_round_half_even-IsNearestEven}
use kori.Transactions.Amount.{calculate_transfer_math}
use kori.Transactions.Amount.Decimal.{decimal}
use kori.Transactions.Amount.Laws.{
  amounts, calculate_transfer_math_accepts, calculate_transfer_math_sound,
}
use kori.Tests.Data.{opened}

-- 92.5 is rounded to the even 92, and 93.5 to the even 94.
ties :
    (divide_round_half_even (pos 925000) (pos 10000) ≡ pos 92)
    × (divide_round_half_even (pos 935000) (pos 10000) ≡ pos 94)
unfolding opened
ties = (refl, refl)

divide_round_half_even-IsNearestEven_example :
    (q : ℕ) × (divide_round_half_even (pos 925000) (pos 10000) ≡ pos q)
    × IsNearestEven 925000 10000 q
divide_round_half_even-IsNearestEven_example =
    divide_round_half_even-IsNearestEven 925000 10000 (omega arith)

calculate_fee-IsFee_example :
    (fee : ℕ) × (calculate_fee (money 5000 Currency.bdt) TransactionType.cash_out
      ≡ ok (money fee Currency.bdt))
    × IsFee TransactionType.cash_out 5000 fee
    × (fee ≤ 5000 + 500)
calculate_fee-IsFee_example =
    calculate_fee-IsFee 5000 Currency.bdt TransactionType.cash_out (omega arith)

calculate_transfer_math_accepts_example :
    (fee : ℕ) × (calculate_transfer_math (decimal 5000) TransactionType.cash_out
      ≡ ok (amounts 5000 fee))
    × IsFee TransactionType.cash_out 5000 fee
calculate_transfer_math_accepts_example =
    calculate_transfer_math_accepts 5000 TransactionType.cash_out (omega arith) (omega arith)

math_at_2500 :
    calculate_transfer_math (text "2500") TransactionType.send_money ≡ ok (amounts 2500 500)
unfolding opened
math_at_2500 = refl

calculate_transfer_math_sound_example :
    (n : ℕ) × (fee : ℕ) × (text "2500" ≡ decimal n)
    × (0 < n)
    × (n ≤ 10_000_000)
    × (amounts 2500 500 ≡ amounts n fee)
    × IsFee TransactionType.send_money n fee
    × (fee ≤ n + 500)
calculate_transfer_math_sound_example =
    calculate_transfer_math_sound (text "2500") TransactionType.send_money (amounts 2500 500)
      math_at_2500
