-- ===== src/Domain/PhoneNumber.antt =====
-- backend/src/domain/value-objects/phone-number.vo.ts. The parser of libphonenumber-js is a
-- parameter: `parsePhoneNumberFromString(input, 'BD')`.
use kori.Common.{Bool, Option, none, some, eqb, not, ◌||◌}
use kori.Common.Text.{Text, text, ◌==◌, length, trim}
use kori.Common.Result.{Result, ok, err, error, ◌>>◌, throw_if, Exception}

-- The fields of a parsed number that the class reads.
pub record ParsedNumber : Type 0 where
  pub country : Text
  pub is_valid : Bool
  pub number : Text

pub record PhoneNumber : Type 0 where
  pub phone : Text

abbrev pub PhoneParser : Type 0
PhoneParser = Text → Option ParsedNumber

abbrev pub invalid_phone : Exception
invalid_phone = error (text "Invalid Bangladeshi phone number")

unfoldable pub from : PhoneParser → Text → Result PhoneNumber
from parse value = do
  throw_if (eqb (length (trim value)) 0) (error (text "Phone number cannot be empty"))
  elim (parse (trim value)) [
    | none ↦ err invalid_phone
    | some parsed ↦ do
      throw_if (not (parsed.country == text "BD") || not parsed.is_valid) invalid_phone
      ok (record { phone = parsed.number })
  ]

unfoldable pub equals : PhoneNumber → PhoneNumber → Bool
equals p other = p.phone == other.phone
