-- ===== src/Common/Int.antt =====
-- JavaScript's BigInt, as far as the backend computes with it: sums, differences, products, order,
-- and division that truncates towards zero.
use Prim.Native.Nat.{ℕ, suc, ◌+◌, ◌-◌, ◌*◌, ◌/◌, ◌%◌, ◌≤◌}
use mathlib.Core.Path.{◌≡◌}
use mathlib.Core.Bool.{Bool}
use native.Mathlib.Omega.{arith}
use kori.Common.Tests.{ltb, leb, eqb, if◌then◌else◌}

-- `negsuc n` is -(n + 1).
pub data ℤ : Type 0 where
  pos : ℕ → ℤ
  negsuc : ℕ → ℤ

-- An integer is the difference of its two parts.
abbrev pub up : ℤ → ℕ
up (pos n) = n
up (negsuc n) = 0

abbrev pub down : ℤ → ℕ
down (pos n) = 0
down (negsuc n) = suc n

abbrev pub diff : ℕ → ℕ → ℤ
diff a b = if leb b a then pos (a - b) else negsuc (b - a - 1)

infixl 65 ◌+ℤ◌ ◌-ℤ◌
infixl 70 ◌*ℤ◌
infix 50 ◌≤ℤ◌
unfoldable pub ◌+ℤ◌ : ℤ → ℤ → ℤ
x +ℤ y = diff (up x + up y) (down x + down y)

unfoldable pub ◌-ℤ◌ : ℤ → ℤ → ℤ
x -ℤ y = diff (up x + down y) (down x + up y)

unfoldable pub ◌*ℤ◌ : ℤ → ℤ → ℤ
x *ℤ y = diff (up x * up y + down x * down y) (up x * down y + down x * up y)

-- `/` and `%` of BigInt, for a divisor that is not zero: the remainder has the dividend's sign.
unfoldable pub div_ℤ : ℤ → ℤ → ℤ
div_ℤ x y = diff (up x / up y + down x / down y) (up x / down y + down x / up y)

unfoldable pub rem_ℤ : ℤ → ℤ → ℤ
rem_ℤ x y = diff (up x % (up y + down y)) (down x % (up y + down y))

abbrev pub ◌≤ℤ◌ : ℤ → ℤ → Type 0
x ≤ℤ y = up x + down y ≤ up y + down x

-- `<` and `===`.
abbrev pub lt_ℤ : ℤ → ℤ → Bool
lt_ℤ x y = ltb (up x + down y) (up y + down x)

abbrev pub eq_ℤ : ℤ → ℤ → Bool
eq_ℤ x y = eqb (up x + down y) (up y + down x)

pub +ℤ_parts : (x y : ℤ) → up (x +ℤ y) + down x + down y ≡ down (x +ℤ y) + up x + up y
unfolding ◌+ℤ◌
+ℤ_parts x y = ground arith

pub -ℤ_parts : (x y : ℤ) → up (x -ℤ y) + down x + up y ≡ down (x -ℤ y) + up x + down y
unfolding ◌-ℤ◌
-ℤ_parts x y = ground arith

pub eq_of_parts : (x y : ℤ) → up x + down y ≡ up y + down x → x ≡ y
eq_of_parts x y h = ground arith

-- The laws by which linear arithmetic reads sums, differences and equations of integers.
pub ruleset int_laws = (arith, +ℤ_parts, -ℤ_parts, eq_of_parts)
