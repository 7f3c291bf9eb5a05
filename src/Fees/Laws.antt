-- ===== src/Fees/Laws.antt =====
-- What the fee calculator returns for each type of transaction.
use kori.Common.{ℕ, ◌+◌, ◌*◌, ◌≤◌, ◌≡◌, refl, arith}
use kori.Common.Int.{pos, ◌*ℤ◌}
use kori.Common.Result.{ok}
use kori.Domain.Enums.{Currency, TransactionType}
use kori.Domain.Enums.TransactionType.{send_money, cash_in, cash_out, payment, add_money}
use kori.Domain.Money.{Money}
use kori.Domain.Money.Laws.{from_minor_units-InRange}
use kori.Fees.{calculate_fee}
use kori.Fees.Rounding.{IsNearestEven, divide_round_half_even-IsNearestEven}

abbrev pub money : ℕ → Currency → Money
money n c = record { amount_minor_units = pos n; money_currency = c }

-- The fee of a type: 500 poisha for sending, 1.85 % to the nearest poisha for a cash-out, else none.
abbrev pub IsFee : TransactionType → ℕ → ℕ → Type 0
IsFee send_money n fee = fee ≡ 500
IsFee cash_out n fee = IsNearestEven (n * 185) 10000 fee
IsFee cash_in n fee = fee ≡ 0
IsFee payment n fee = fee ≡ 0
IsFee add_money n fee = fee ≡ 0

pos-mul : (n m : ℕ) → pos n *ℤ pos m ≡ pos (n * m)
unfolding ◌*ℤ◌
pos-mul n m = ground arith

-- Up to the largest principal every type of transaction has its fee, and the fee is at most the
-- principal and 500 poisha.
pub calculate_fee-IsFee :
    (n : ℕ) (c : Currency) (t : TransactionType)
    → n ≤ 10_000_000
    → (fee : ℕ) × (calculate_fee (money n c) t ≡ ok (money fee c)) × IsFee t n fee × (fee ≤ n + 500)
unfolding calculate_fee
calculate_fee-IsFee n c send_money h = (500, ground arith, refl, omega arith)
calculate_fee-IsFee n c cash_out h =
    let (q, e, near) = divide_round_half_even-IsNearestEven (n * 185) 10000 (omega arith) in
    (q, rw (pos-mul n 185, e) (from_minor_units-InRange (pos q) c (omega arith)), near, omega arith)
calculate_fee-IsFee n c cash_in h = (0, ground arith, refl, omega arith)
calculate_fee-IsFee n c payment h = (0, ground arith, refl, omega arith)
calculate_fee-IsFee n c add_money h = (0, ground arith, refl, omega arith)
