-- ===== src/Fees/Rounding.antt =====
-- backend/src/common/utils/round-half-even.ts, and what it computes: the nearest integer, and the
-- even one of two that are equally near.
use kori.Common.{
  ℕ, ◌+◌, ◌*◌, ◌/◌, ◌%◌, ◌≤◌, ◌<◌, ◌≡◌, subst, arith, ltb, eqb, Bool-cases, inl, inr, if◌then◌else◌,
}
use native.Mathlib.Nat.{div-add-mod', mod-lt}
use kori.Common.Int.{ℤ, pos, ◌+ℤ◌, ◌*ℤ◌, div_ℤ, rem_ℤ, lt_ℤ, eq_ℤ}

unfoldable pub divide_round_half_even : ℤ → ℤ → ℤ
divide_round_half_even numerator denominator =
    let division = div_ℤ numerator denominator in
    let remainder = rem_ℤ numerator denominator in
    let double_remainder = remainder *ℤ pos 2 in
    if lt_ℤ double_remainder denominator
    then division
    else if lt_ℤ denominator double_remainder
    then division +ℤ pos 1
    else if eq_ℤ (rem_ℤ division (pos 2)) (pos 0)
    then division
    else division +ℤ pos 1

-- The same on natural numbers, from the quotient and the remainder.
round_up : ℕ → ℕ → ℕ → ℕ
round_up q r d =
    if ltb (r * 2) d then q else if ltb d (r * 2) then q + 1 else if eqb (q % 2) 0 then q else q + 1

half_even-pos :
    (n d : ℕ) → 0 < d → divide_round_half_even (pos n) (pos d) ≡ pos (round_up (n / d) (n % d) d)
unfolding divide_round_half_even round_up div_ℤ rem_ℤ ◌*ℤ◌ ◌+ℤ◌
half_even-pos n d h = ground arith

-- `q` is the integer that is nearest to `n / d`, and the even one of two that are equally near.
abbrev pub IsNearestEven : ℕ → ℕ → ℕ → Type 0
IsNearestEven n d q =
    (q * d * 2 ≤ n * 2 + d)
    × (n * 2 ≤ q * d * 2 + d)
    × (q * d * 2 ≡ n * 2 + d → q % 2 ≡ 0)
    × (q * d * 2 + d ≡ n * 2 → q % 2 ≡ 0)

-- Rounding down is right below half a divisor, and at half if the quotient is even.
down-IsNearestEven :
    (q r d : ℕ) → r < d → r * 2 ≤ d → (r * 2 ≡ d → q % 2 ≡ 0) → IsNearestEven (q * d + r) d q
down-IsNearestEven q r d lt h e =
    (omega arith, omega arith, λ p. absurd (omega arith), λ p. e (omega arith))

up-IsNearestEven :
    (q r d : ℕ)
    → r < d
    → d ≤ r * 2
    → (r * 2 ≡ d → (q + 1) % 2 ≡ 0)
    → IsNearestEven (q * d + r) d (q + 1)
up-IsNearestEven q r d lt h e =
    (omega arith, omega arith, λ p. e (omega arith), λ p. absurd (omega arith))

round_up-IsNearestEven : (q r d : ℕ) → r < d → IsNearestEven (q * d + r) d (round_up q r d)
unfolding round_up
round_up-IsNearestEven q r d h = elim (Bool-cases (ltb (r * 2) d)) [
  | inl below ↦ rw below (down-IsNearestEven q r d h (ground arith) (ground arith))
  | inr reach ↦ elim (Bool-cases (ltb d (r * 2))) [
    | inl above ↦ rw (reach, above) (up-IsNearestEven q r d h (ground arith) (ground arith))
    | inr tie ↦ elim (Bool-cases (eqb (q % 2) 0)) [
      | inl even ↦ rw (reach, tie, even) (down-IsNearestEven q r d h (ground arith) (ground arith))
      | inr odd ↦ rw (reach, tie, odd) (up-IsNearestEven q r d h (ground arith) (ground arith))
    ]
  ]
]

-- The quotient of a natural number by a positive one is rounded to the nearest integer, and to the
-- even one of two that are equally near.
pub divide_round_half_even-IsNearestEven :
    (n d : ℕ)
    → 0 < d
    → (q : ℕ) × (divide_round_half_even (pos n) (pos d) ≡ pos q) × IsNearestEven n d q
divide_round_half_even-IsNearestEven n d h = (
  round_up (n / d) (n % d) d,
  half_even-pos n d h,
  subst (λ m. IsNearestEven m d (round_up (n / d) (n % d) d)) (div-add-mod' n d)
      (round_up-IsNearestEven (n / d) (n % d) d (mod-lt n h)),
)
