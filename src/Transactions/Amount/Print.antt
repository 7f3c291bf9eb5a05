-- ===== src/Transactions/Amount/Print.antt =====
-- What `toString` prints for a positive amount is a text that the amount pattern accepts, of
-- the right length, and with that amount for its value.
use kori.Common.{
  ℕ, zero, suc, ◌+◌, ◌*◌, ◌-◌, ◌/◌, ◌%◌, ◌<◌, ◌≤◌, ◌≡◌, refl, ap, true, [], ◌∷◌, ◌++◌, ltb, arith,
  Bool-cases, inl, inr,
}
use kori.Common.Text.{Text, length}
use kori.Transactions.Amount.{all_digits, is_positive_minor_units, digits_value}
use kori.Transactions.Amount.Decimal.{digits, decimal}

digits_value-snoc :
    (acc : ℕ) (s : Text) (c : ℕ)
    → digits_value acc (s ++ c ∷ []) ≡ digits_value acc s * 10 + (c - b'0')
unfolding digits_value
digits_value-snoc acc [] c = refl
digits_value-snoc acc (b ∷ s) c = digits_value-snoc (acc * 10 + (b - b'0')) s c

all_digits-snoc :
    (s : Text) (d : ℕ) → all_digits s ≡ true → d < 10 → all_digits (s ++ (b'0' + d) ∷ []) ≡ true
unfolding all_digits
all_digits-snoc [] d e h = ground arith
all_digits-snoc (c ∷ s) d e h = ground (arith, all_digits-snoc s d)

pattern-snoc :
    (s : Text) (d : ℕ)
    → is_positive_minor_units s ≡ true
    → d < 10
    → is_positive_minor_units (s ++ (b'0' + d) ∷ []) ≡ true
unfolding is_positive_minor_units
pattern-snoc [] d e h = cc
pattern-snoc (c ∷ s) d e h = ground (arith, all_digits-snoc s d)

length-snoc : (s : Text) (c : ℕ) → length (s ++ c ∷ []) ≡ suc (length s)
length-snoc [] c = refl
length-snoc (b ∷ s) c = ap suc (length-snoc s c)

digits-value : (f n : ℕ) → n < f → digits_value 0 (digits f n) ≡ n
unfolding digits
digits-value zero n h = elim h [ ]
digits-value (suc f) n h = elim (Bool-cases (ltb n 10)) [
  | inl small ↦ rw small (digits_value_one n)
  | inr large ↦
      rw (large, digits_value-snoc 0 (digits f (n / 10)) (b'0' + n % 10))
        (omega (arith, digits-value f (n / 10) (ground arith)))
]
  where
    digits_value_one : (k : ℕ) → digits_value 0 ((b'0' + k) ∷ []) ≡ k
    digits_value_one k = unfold digits_value in omega arith

digits-pattern : (f n : ℕ) → n < f → 0 < n → is_positive_minor_units (digits f n) ≡ true
unfolding digits
digits-pattern zero n h p = elim h [ ]
digits-pattern (suc f) n h p = elim (Bool-cases (ltb n 10)) [
  | inl small ↦ rw small (unfold is_positive_minor_units in ground arith)
  | inr large ↦ rw large (
      pattern-snoc (digits f (n / 10)) (n % 10)
        (digits-pattern f (n / 10) (ground arith) (ground arith)) (omega arith))
]

abbrev power_of_ten : ℕ → ℕ
power_of_ten zero = 1
power_of_ten (suc k) = power_of_ten k * 10

digits-length : (k f n : ℕ) → n < power_of_ten (suc k) → length (digits f n) ≤ suc k
unfolding digits
digits-length k zero n h = omega arith
digits-length zero (suc f) n h = rw (ltb_ten n h) (omega arith)
  where
    ltb_ten : (m : ℕ) → m < 10 → ltb m 10 ≡ true
    ltb_ten m g = ground arith
digits-length (suc k) (suc f) n h = elim (Bool-cases (ltb n 10)) [
  | inl small ↦ rw small (omega arith)
  | inr large ↦
      rw (large, length-snoc (digits f (n / 10)) (b'0' + n % 10))
        (omega (arith, digits-length k f (n / 10) (omega arith)))
]

pub decimal_value : (n : ℕ) → digits_value 0 (decimal n) ≡ n
unfolding decimal
decimal_value n = digits-value (suc n) n (omega arith)

pub decimal_pattern : (n : ℕ) → 0 < n → is_positive_minor_units (decimal n) ≡ true
unfolding decimal
decimal_pattern n h = digits-pattern (suc n) n (omega arith) h

pub length-decimal : (n : ℕ) → n ≤ 10_000_000 → length (decimal n) ≤ 8
unfolding decimal
length-decimal n h = digits-length 7 (suc n) n (omega arith)
