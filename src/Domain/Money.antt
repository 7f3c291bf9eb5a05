-- ===== src/Domain/Money.antt =====
-- backend/src/domain/value-objects/money.vo.ts. An amount is a BigInt of minor units (poisha);
-- every amount goes through `from_minor_units`.
pub mod Laws
use kori.Common.{◌-◌, ◌^◌, Bool, arith, not, same, if◌then◌else◌}
use kori.Common.Int.{ℤ, pos, ◌+ℤ◌, lt_ℤ, eq_ℤ}
use kori.Common.Text.{text}
use kori.Common.Result.{Result, ok, err, error, Exception, ◌>>=◌, ◌>>◌, throw_if}
use kori.Domain.Enums.{Currency, Currency-discrete}
use mathlib.Core.Bool.{◌&&◌}

pub record Money : Type 0 where
  pub amount_minor_units : ℤ
  pub money_currency : Currency

abbrev pub max_minor_units : ℤ
max_minor_units = pos 9_223_372_036_854_775_807

-- InvalidMoneyException is a plain Error.
abbrev pub negative_money : Exception
negative_money = error (text "Money cannot be negative")

abbrev pub money_too_large : Exception
money_too_large = error (text "Money exceeds the supported maximum amount")

abbrev pub currency_mismatch : Exception
currency_mismatch = error (text "Cannot operate on money with different currencies")

unfoldable pub from_minor_units : ℤ → Currency → Result Money
from_minor_units minor_units currency = do
  throw_if (lt_ℤ minor_units (pos 0)) negative_money
  throw_if (lt_ℤ max_minor_units minor_units) money_too_large
  ok (record { amount_minor_units = minor_units; money_currency = currency })

unfoldable pub zero_money : Currency → Result Money
zero_money currency = from_minor_units (pos 0) currency

abbrev pub ensure_same_currency : Money → Money → Result (Unit {0})
ensure_same_currency m other =
    throw_if (not (same Currency-discrete m.money_currency other.money_currency)) currency_mismatch

unfoldable pub add : Money → Money → Result Money
unfolding from_minor_units
add m other = do
  ensure_same_currency m other
  from_minor_units (m.amount_minor_units +ℤ other.amount_minor_units) m.money_currency

unfoldable pub equals : Money → Money → Bool
equals m other =
    eq_ℤ m.amount_minor_units other.amount_minor_units
    && same Currency-discrete m.money_currency other.money_currency

unfoldable pub is_zero : Money → Bool
is_zero m = eq_ℤ m.amount_minor_units (pos 0)

unfoldable pub is_positive : Money → Bool
is_positive m = lt_ℤ (pos 0) m.amount_minor_units

unfoldable pub is_less_than : Money → Money → Result Bool
is_less_than m other = do
  ensure_same_currency m other
  ok (lt_ℤ m.amount_minor_units other.amount_minor_units)
