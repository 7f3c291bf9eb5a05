-- ===== src/Domain/Money/Laws.antt =====
-- What Money guarantees: every amount that the class lets through fits a signed 64-bit column.
use kori.Common.{◌≡◌, arith, refl}
use kori.Common.Int.{ℤ, pos, ◌+ℤ◌, ◌≤ℤ◌, +ℤ_parts, lt_ℤ}
use kori.Common.Result.{ok}
use kori.Domain.Enums.{Currency, bdt}
use kori.Domain.Money.{Money, max_minor_units, from_minor_units, add, is_less_than}

-- The amounts of a signed 64-bit column that are not negative.
abbrev pub InRange : ℤ → Type 0
InRange x = (pos 0 ≤ℤ x) × (x ≤ℤ max_minor_units)

abbrev pub IsValid : Money → Type 0
IsValid m = InRange m.amount_minor_units

pub Currency-one : (a b : Currency) → a ≡ b
Currency-one bdt bdt = refl

-- An amount in range is taken as it is.
pub from_minor_units-InRange :
    (x : ℤ) (c : Currency)
    → InRange x
    → from_minor_units x c ≡ ok (record { amount_minor_units = x; money_currency = c })
unfolding from_minor_units
from_minor_units-InRange x c h = ground arith

-- What is accepted is in range, and is the amount that was given.
pub from_minor_units_sound :
    (x : ℤ) (c : Currency) (m : Money)
    → from_minor_units x c ≡ ok m
    → InRange x × (m ≡ record { amount_minor_units = x; money_currency = c })
unfolding from_minor_units
from_minor_units_sound x c m h = ground arith

pub add_sound :
    (m n r : Money)
    → add m n ≡ ok r
    → IsValid r × (r.amount_minor_units ≡ m.amount_minor_units +ℤ n.amount_minor_units)
unfolding add
add_sound m n r h = ground arith

-- The sum is returned exactly when it fits, and otherwise the class throws.
pub add_in_range :
    (m n : Money)
    → IsValid m
    → IsValid n
    → m.amount_minor_units +ℤ n.amount_minor_units ≤ℤ max_minor_units
    → add m n
      ≡ ok (record {
        amount_minor_units = m.amount_minor_units +ℤ n.amount_minor_units;
        money_currency = m.money_currency;
      })
unfolding add
add_in_range m n hm hn h = ground (
  arith,
  Currency-one m.money_currency n.money_currency,
  +ℤ_parts m.amount_minor_units n.amount_minor_units,
)

-- With one currency the comparison never throws, and compares the amounts.
pub is_less_than_lem :
    (m n : Money) → is_less_than m n ≡ ok (lt_ℤ m.amount_minor_units n.amount_minor_units)
unfolding is_less_than
is_less_than_lem m n = ground (arith, Currency-one m.money_currency n.money_currency)
