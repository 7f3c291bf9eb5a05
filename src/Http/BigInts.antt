-- ===== src/Http/BigInts.antt =====
-- backend/src/common/interceptors/bigInt.interceptor.ts. The text of a date is a parameter.
pub mod Laws
use kori.Common.{ℕ}
use kori.Common.Text.{Text}
use kori.Transactions.Amount.Decimal.{show_big_int}
use kori.Http.Value.{
  Unknown, undefined, null, boolean, integer, big_int, characters, date, array, object, Elements,
  no_elements, element, Fields, no_fields, field,
}

unfoldable mutual
  -- `serializeBigInt`.
  pub serialize_big_int : (ℕ → Text) → Unknown → Unknown
  serialize_big_int iso undefined = undefined
  serialize_big_int iso null = null
  serialize_big_int iso (boolean b) = boolean b
  serialize_big_int iso (integer n) = integer n
  serialize_big_int iso (big_int n) = characters (show_big_int n)
  serialize_big_int iso (characters t) = characters t
  serialize_big_int iso (date t) = characters (iso t)
  serialize_big_int iso (array vs) = array (serialize_elements iso vs)
  serialize_big_int iso (object fs) = object (serialize_fields iso fs)

  pub serialize_elements : (ℕ → Text) → Elements → Elements
  serialize_elements iso no_elements = no_elements
  serialize_elements iso (element v vs) =
      element (serialize_big_int iso v) (serialize_elements iso vs)

  pub serialize_fields : (ℕ → Text) → Fields → Fields
  serialize_fields iso no_fields = no_fields
  serialize_fields iso (field key v fs) =
      field key (serialize_big_int iso v) (serialize_fields iso fs)
