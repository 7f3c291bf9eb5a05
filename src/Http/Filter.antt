-- ===== src/Http/Filter.antt =====
-- backend/src/common/filters/all-exceptions.filter.ts: the answer to a request that throws. A
-- message of class-validator, which is a list of texts, is not among the exceptions of the model.
use kori.Common.{Option, none, some, ℕ, [], ◌∷◌}
use kori.Common.Result.{Exception, http, error, prisma, device_verification_required}
use kori.Common.Text.{Text, text}

pub record DeviceDetails : Type 0 where
  pub device_enrollment_token : Text
  pub expires_in : ℕ

pub record ErrorBody : Type 0 where
  pub timestamp : Text
  pub path : Text
  pub message : Text
  pub code : Option Text
  pub details : Option DeviceDetails

-- An empty code counts as none.
abbrev given_code : Option Text → Option Text
given_code none = none
given_code (some []) = none
given_code (some (c ∷ t)) = some (c ∷ t)

abbrev body : Text → Text → Text → Option Text → Option DeviceDetails → ErrorBody
body timestamp path message code details = record {
  timestamp = timestamp;
  path = path;
  message = message;
  code = given_code code;
  details = details;
}

-- The status and the body of the answer.
unfoldable pub catch_exception : Text → Text → Exception → ℕ × ErrorBody
catch_exception timestamp path (http status code message) =
    (status, body timestamp path message code none)
catch_exception timestamp path (error message) =
    (500, body timestamp path (text "Internal server error") none none)
catch_exception timestamp path (prisma code) =
    (500, body timestamp path (text "Internal server error") none none)
catch_exception timestamp path (device_verification_required token n) = (
  403,
  body timestamp path (text "Verify this device to continue.")
      (some (text "DEVICE_VERIFICATION_REQUIRED"))
      (some (record { device_enrollment_token = token; expires_in = n })),
)
