-- ===== src/Transactions/Amount/Laws.antt =====
-- Which amounts `calculateTransferMath` accepts, and what it computes from them.
use kori.Common.{ℕ, ◌+◌, ◌≤◌, ◌<◌, ◌≡◌, sym, subst, true, arith, ◌∙◌, ap}
use kori.Common.Int.{ℤ, pos, ◌+ℤ◌}
use kori.Common.Text.{Text, length}
use kori.Common.Result.{ok}
use kori.Domain.Enums.{TransactionType, Currency}
use kori.Domain.Money.{from_minor_units, add}
use kori.Domain.Money.Laws.{from_minor_units-InRange, add_in_range}
use kori.Fees.{calculate_fee}
use kori.Fees.Laws.{IsFee, money, calculate_fee-IsFee}
use kori.Transactions.Amount.{
  TransactionAmounts, is_positive_minor_units, digits_value, calculate_transfer_math,
}
use kori.Transactions.Amount.Decimal.{decimal, decimal-digits_value_of_pattern, digits_value_pos}
use kori.Transactions.Amount.Print.{decimal_value, decimal_pattern, length-decimal}

-- The amounts of a transfer of `n` poisha with a given fee.
abbrev pub amounts : ℕ → ℕ → TransactionAmounts
amounts n fee = record {
  transfer_amount = money n Currency.bdt;
  fee_amount = money fee Currency.bdt;
  total_required_amount = money (n + fee) Currency.bdt;
}

pub pos-add : (n m : ℕ) → pos n +ℤ pos m ≡ pos (n + m)
unfolding ◌+ℤ◌
pos-add n m = ground arith

add_money_lem :
    (n fee : ℕ)
    → n ≤ 10_000_000
    → fee ≤ n + 500
    → add (money n Currency.bdt) (money fee Currency.bdt) ≡ ok (money (n + fee) Currency.bdt)
add_money_lem n fee h k =
    add_in_range (money n Currency.bdt) (money fee Currency.bdt) (omega arith) (omega arith)
      (rw (pos-add n fee) (omega arith))
    ∙ ap (λ (x : ℤ). ok (record { amount_minor_units = x; money_currency = Currency.bdt }))
        (pos-add n fee)

-- A text that passes the pattern and the length, with a value up to the limit.
math_of_accepted :
    (s : Text) (t : TransactionType)
    → length s ≤ 8
    → is_positive_minor_units s ≡ true
    → digits_value 0 s ≤ 10_000_000
    → (fee : ℕ) × (calculate_transfer_math s t ≡ ok (amounts (digits_value 0 s) fee))
      × IsFee t (digits_value 0 s) fee
      × (fee ≤ digits_value 0 s + 500)
math_of_accepted s t short matches small =
    let (fee, e, is_fee, bound) = calculate_fee-IsFee (digits_value 0 s) Currency.bdt t small in
    (fee, go fee e bound, is_fee, bound)
  where
    go :
        (fee : ℕ)
        → calculate_fee (money (digits_value 0 s) Currency.bdt) t ≡ ok (money fee Currency.bdt)
        → fee ≤ digits_value 0 s + 500
        → calculate_transfer_math s t ≡ ok (amounts (digits_value 0 s) fee)
    go fee e bound =
        unfold calculate_transfer_math in
        ground (
          arith,
          from_minor_units-InRange (pos (digits_value 0 s)) Currency.bdt,
          add_money_lem (digits_value 0 s) fee small bound,
        )

-- The guards that an accepted text has passed.
passed :
    (s : Text) (t : TransactionType) (a : TransactionAmounts)
    → calculate_transfer_math s t ≡ ok a
    → (length s ≤ 8) × (is_positive_minor_units s ≡ true) × (digits_value 0 s ≤ 10_000_000)
unfolding calculate_transfer_math from_minor_units
passed s t a h = ground arith

-- Every whole number of poisha from 1 to 10,000,000, written in decimal, is accepted; the amounts
-- are that number, the fee of the type, and their sum.
pub calculate_transfer_math_accepts :
    (n : ℕ) (t : TransactionType)
    → 0 < n
    → n ≤ 10_000_000
    → (fee : ℕ) × (calculate_transfer_math (decimal n) t ≡ ok (amounts n fee)) × IsFee t n fee
calculate_transfer_math_accepts n t h k =
    subst
      (λ v.
        (fee : ℕ) × (calculate_transfer_math (decimal n) t ≡ ok (amounts v fee)) × IsFee t v fee)
      (decimal_value n)
      (let (fee, e, is_fee, _) =
          math_of_accepted (decimal n) t (length-decimal n k) (decimal_pattern n h)
            (rw (decimal_value n) k) in
        (fee, e, is_fee))

-- A text is accepted only if it is the decimal form of such a number, and with those amounts, so
-- that printing the transfer amount gives the text of the request back.
pub calculate_transfer_math_sound :
    (s : Text) (t : TransactionType) (a : TransactionAmounts)
    → calculate_transfer_math s t ≡ ok a
    → (n : ℕ) × (fee : ℕ) × (s ≡ decimal n)
      × (0 < n)
      × (n ≤ 10_000_000)
      × (a ≡ amounts n fee)
      × IsFee t n fee
      × (fee ≤ n + 500)
calculate_transfer_math_sound s t a h =
    let (short, matches, small) = passed s t a h in
    let (fee, e, is_fee, bound) = math_of_accepted s t short matches small in
    (
      digits_value 0 s,
      fee,
      sym (decimal-digits_value_of_pattern s matches),
      digits_value_pos s matches,
      small,
      cc,
      is_fee,
      bound,
    )
