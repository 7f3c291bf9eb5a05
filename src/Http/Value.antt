-- ===== src/Http/Value.antt =====
-- The values that JavaScript calls unknown: what a handler returns, and what a token carries.
use kori.Common.{Bool, ℕ, if◌then◌else◌}
use kori.Common.Int.{ℤ}
use kori.Common.Text.{Text, ◌==◌}

-- A date is its time; numbers are integers here.
mutual
  pub data Unknown : Type 0 where
    undefined : Unknown
    null : Unknown
    boolean : Bool → Unknown
    integer : ℤ → Unknown
    big_int : ℤ → Unknown
    characters : Text → Unknown
    date : ℕ → Unknown
    array : Elements → Unknown
    object : Fields → Unknown

  pub data Elements : Type 0 where
    no_elements : Elements
    element : Unknown → Elements → Elements

  pub data Fields : Type 0 where
    no_fields : Fields
    field : Text → Unknown → Fields → Fields

-- `value.name` on an object.
unfoldable pub property : Text → Fields → Unknown
property name no_fields = undefined
property name (field key v fs) = let rest = property name fs in if key == name then v else rest
