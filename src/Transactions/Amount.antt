-- ===== src/Transactions/Amount.antt =====
-- backend/src/modules/transactions: the constants of transaction-amount.constants.ts and
-- `calculateTransferMath` of transactions.service.ts. The argument is typed as a string, so the
-- `typeof` test passes.
pub mod Decimal
pub mod Print
pub mod Laws
use kori.Common.{
  ℕ, Bool, true, false, List, [], ◌∷◌, ◌+◌, ◌*◌, ◌-◌, none, some, not, ◌&&◌, ◌||◌, leb, ltb,
  if◌then◌else◌,
}
use kori.Common.Int.{ℤ, pos, lt_ℤ}
use kori.Common.Text.{Text, text, length, is_digit}
use kori.Common.Result.{Result, ok, Exception, http, ◌>>=◌, ◌>>◌, throw_if}
use kori.Domain.Enums.{TransactionType, Currency}
use kori.Domain.Money.{Money, from_minor_units, add}
use kori.Fees.{calculate_fee}

abbrev pub max_transaction_principal_minor_units : ℤ
max_transaction_principal_minor_units = pos 10_000_000

-- `MAX_TRANSACTION_PRINCIPAL_MINOR_UNITS.toString().length`
abbrev pub max_transaction_amount_digits : ℕ
max_transaction_amount_digits = 8

unfoldable pub all_digits : Text → Bool
all_digits [] = true
all_digits (c ∷ s) = is_digit c && all_digits s

-- `POSITIVE_MINOR_UNITS_PATTERN.test(s)`, for `/^[1-9]\d*$/`.
unfoldable pub is_positive_minor_units : Text → Bool
unfolding all_digits
is_positive_minor_units [] = false
is_positive_minor_units (c ∷ s) = leb b'1' c && leb c b'9' && all_digits s

-- `BigInt(s)` of a text of decimal digits.
unfoldable pub digits_value : ℕ → Text → ℕ
digits_value acc [] = acc
digits_value acc (c ∷ s) = digits_value (acc * 10 + (c - b'0')) s

pub record TransactionAmounts : Type 0 where
  pub transfer_amount : Money
  pub fee_amount : Money
  pub total_required_amount : Money

abbrev pub invalid_transaction_amount : Exception
invalid_transaction_amount =
    http 400 (some (text "INVALID_TRANSACTION_AMOUNT")) (text "Invalid transaction amount.")

abbrev pub transaction_amount_limit_exceeded : Exception
transaction_amount_limit_exceeded =
    http 400 (some (text "TRANSACTION_AMOUNT_LIMIT_EXCEEDED"))
      (text "Maximum principal is 100,000 BDT.")

unfoldable pub calculate_transfer_math : Text → TransactionType → Result TransactionAmounts
calculate_transfer_math amount_minor_units type = do
  throw_if
      (ltb max_transaction_amount_digits (length amount_minor_units)
        || not (is_positive_minor_units amount_minor_units))
      invalid_transaction_amount
  transfer_amount ← from_minor_units (pos (digits_value 0 amount_minor_units)) Currency.bdt
  throw_if (lt_ℤ max_transaction_principal_minor_units transfer_amount.amount_minor_units)
      transaction_amount_limit_exceeded
  fee_amount ← calculate_fee transfer_amount type
  total_required_amount ← add transfer_amount fee_amount
  ok (record {
    transfer_amount = transfer_amount;
    fee_amount = fee_amount;
    total_required_amount = total_required_amount;
  })
