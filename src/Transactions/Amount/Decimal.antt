-- ===== src/Transactions/Amount/Decimal.antt =====
-- `BigInt.prototype.toString` of an amount, and the way back by `BigInt(s)`.
use kori.Common.{
  ℕ, zero, suc, ◌+◌, ◌*◌, ◌-◌, ◌/◌, ◌%◌, ◌<◌, ◌≤◌, ◌≡◌, ap, ◌∙◌, sym, true, false, [], ◌∷◌, ◌++◌,
  ltb, arith, if◌then◌else◌, Bool-cases, inl, inr,
}
use mathlib.Core.List.{append_assoc, append-nil}
use mathlib.Core.Path.{ap₂}
use kori.Common.Int.{ℤ, pos, negsuc}
use kori.Common.Text.{Text}
use kori.Transactions.Amount.{all_digits, is_positive_minor_units, digits_value}

digits_value_mono : (acc : ℕ) (s : Text) → 0 < acc → 0 < digits_value acc s
unfolding digits_value
digits_value_mono acc [] h = h
digits_value_mono acc (c ∷ s) h = digits_value_mono (acc * 10 + (c - b'0')) s (omega arith)

-- The digits of a number, on fuel; `decimal` gives enough, as the number falls in each round.
unfoldable pub digits : ℕ → ℕ → Text
digits zero n = []
digits (suc f) n =
    let front = digits f (n / 10) in
    if ltb n 10 then (b'0' + n) ∷ [] else front ++ (b'0' + n % 10) ∷ []

unfoldable pub decimal : ℕ → Text
unfolding digits
decimal n = digits (suc n) n

digits_fuel : (f g n : ℕ) → n < f → n < g → digits f n ≡ digits g n
unfolding digits
digits_fuel zero g n h k = elim h [ ]
digits_fuel (suc f) zero n h k = elim k [ ]
digits_fuel (suc f) (suc g) n h k = elim (Bool-cases (ltb n 10)) [
  | inl small ↦ rw small
  | inr large ↦ rw (large, digits_fuel f g (n / 10) (ground arith) (ground arith))
]

decimal_step : (m : ℕ) → 10 ≤ m → decimal m ≡ decimal (m / 10) ++ (b'0' + m % 10) ∷ []
unfolding decimal digits
decimal_step m h = rw (bool_false m h) (
    ap (λ (t : Text). t ++ (b'0' + m % 10) ∷ [])
      (digits_fuel m (suc (m / 10)) (m / 10) (omega arith) (omega arith)))
  where
    bool_false : (k : ℕ) → 10 ≤ k → ltb k 10 ≡ false
    bool_false k g = ground arith

-- One more digit behind a positive number stands at the end of its digits.
decimal-digit : (n d : ℕ) → 0 < n → d < 10 → decimal (n * 10 + d) ≡ decimal n ++ (b'0' + d) ∷ []
decimal-digit n d h k =
    decimal_step (n * 10 + d) (omega arith)
    ∙ ap₂ (λ (a b : ℕ). decimal a ++ (b'0' + b) ∷ []) (omega arith) (omega arith)

-- Reading more digits behind a positive number.
decimal-digits_value :
    (acc : ℕ) (s : Text)
    → 0 < acc
    → all_digits s ≡ true
    → decimal (digits_value acc s) ≡ decimal acc ++ s
unfolding digits_value all_digits
decimal-digits_value acc [] h e = sym (append-nil _)
decimal-digits_value acc (c ∷ s) h e =
    decimal-digits_value (acc * 10 + (c - b'0')) s (omega arith) (ground arith)
    ∙ (rw (decimal-digit acc (c - b'0') h (ground arith), append_assoc)
        (ap (λ (d : ℕ). decimal acc ++ d ∷ s) (ground arith)))

decimal_one : (c : ℕ) → 0 < c → c < 10 → decimal c ≡ (b'0' + c) ∷ []
unfolding decimal digits
decimal_one c h k = ground arith

-- A text that the amount pattern accepts is what `toString` gives back for its value.
pub decimal-digits_value_of_pattern :
    (s : Text) → is_positive_minor_units s ≡ true → decimal (digits_value 0 s) ≡ s
unfolding is_positive_minor_units digits_value
decimal-digits_value_of_pattern [] e = cc
decimal-digits_value_of_pattern (c ∷ s) e =
    decimal-digits_value (0 * 10 + (c - b'0')) s (ground arith) (ground arith)
    ∙ (rw (decimal_one (0 * 10 + (c - b'0')) (ground arith) (ground arith))
        (ap (λ (d : ℕ). d ∷ s) (ground arith)))

pub digits_value_pos : (s : Text) → is_positive_minor_units s ≡ true → 0 < digits_value 0 s
unfolding is_positive_minor_units digits_value
digits_value_pos [] e = cc
digits_value_pos (c ∷ s) e = digits_value_mono (0 * 10 + (c - b'0')) s (ground arith)

-- `toString` of a BigInt.
unfoldable pub show_big_int : ℤ → Text
unfolding decimal
show_big_int (pos n) = decimal n
show_big_int (negsuc n) = b'-' ∷ decimal (suc n)
