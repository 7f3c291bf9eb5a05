-- ===== src/Auth/Claims.antt =====
-- backend/src/modules/auth/utils/parse-refresh-token-claims.ts, and `validate` of the strategies
-- (backend/src/modules/auth/strategies), on the payload of a token whose signature is verified.
pub mod Uuid
pub mod Laws
use kori.Common.{
  Bool, true, false, Option, none, some, ℕ, List, [], ◌∷◌, ◌++◌, not, eqb, leb, ◌&&◌, ◌||◌,
  if◌then◌else◌,
}
use kori.Common.Result.{Result, ok, err, Exception, http, unauthorized}
use kori.Common.Text.{Text, text, ◌==◌, length, trim}
use kori.Domain.Enums.{Role}
use kori.Http.Value.{
  Unknown, undefined, null, boolean, integer, big_int, characters, date, array, object, Fields,
  no_fields, field, property,
}
use kori.Auth.Session.{RefreshTokenPayload, AccessTokenPayload, session_invalid}

abbrev pub is_between : ℕ → ℕ → ℕ → Bool
is_between a b c = leb a c && leb c b

-- The classes of UUID_V4_REGEX, whose flag i ignores the case: [0-9a-f], -, 4 and [89ab].
abbrev pub is_hex : ℕ → Bool
is_hex c = is_between 48 57 c || is_between 97 102 c || is_between 65 70 c

abbrev pub is_dash : ℕ → Bool
is_dash c = eqb c 45

abbrev pub is_four : ℕ → Bool
is_four c = eqb c 52

abbrev pub is_variant : ℕ → Bool
is_variant c = eqb c 56 || eqb c 57 || eqb c 97 || eqb c 98 || eqb c 65 || eqb c 66

abbrev four_hex : List (ℕ → Bool)
four_hex = is_hex ∷ is_hex ∷ is_hex ∷ is_hex ∷ []

abbrev pub uuid_v4_regex : List (ℕ → Bool)
uuid_v4_regex =
    four_hex
    ++ (four_hex
        ++ (is_dash
            ∷ (four_hex
                ++ (is_dash
                    ∷ is_four
                    ∷ is_hex
                    ∷ is_hex
                    ∷ is_hex
                    ∷ is_dash
                    ∷ is_variant
                    ∷ is_hex
                    ∷ is_hex
                    ∷ is_hex
                    ∷ is_dash
                    ∷ (four_hex ++ (four_hex ++ four_hex))))))

-- `test` of a regular expression that is a sequence of classes between ^ and $.
unfoldable pub matches : List (ℕ → Bool) → Text → Bool
matches [] [] = true
matches [] (c ∷ t) = false
matches (p ∷ ps) [] = false
matches (p ∷ ps) (c ∷ t) = p c && matches ps t

unfoldable pub is_uuid_v4 : Text → Bool
unfolding matches
is_uuid_v4 t = matches uuid_v4_regex t

unfoldable pub is_non_empty_string : Text → Bool
unfolding trim
is_non_empty_string t = not (eqb (length (trim t)) 0)

-- A value that is a text; the tests of the source are false on others.
abbrev pub as_text : Unknown → Option Text
as_text (characters t) = some t
as_text undefined = none
as_text null = none
as_text (boolean _) = none
as_text (integer _) = none
as_text (big_int _) = none
as_text (date _) = none
as_text (array _) = none
as_text (object _) = none

-- The fields of an object that is no array; a date has no such fields.
abbrev pub as_record : Unknown → Option Fields
as_record (object fs) = some fs
as_record (date _) = some no_fields
as_record (characters _) = none
as_record undefined = none
as_record null = none
as_record (boolean _) = none
as_record (integer _) = none
as_record (big_int _) = none
as_record (array _) = none

abbrev pub accepted : (Text → Bool) → Option Text → Option Text
accepted test none = none
accepted test (some t) = if test t then some t else none

abbrev pub is_device_id : Text → Bool
is_device_id t = is_non_empty_string t && leb (length t) 128

abbrev pub claims :
    Option Text → Option Text → Option Text → Option Text → Option Text → Option RefreshTokenPayload
claims (some kind) (some device_id) (some sub) (some sid) (some jti) =
    some (record { sub = sub; device_id = device_id; sid = sid; jti = jti })
claims none device_id sub sid jti = none
claims (some kind) none sub sid jti = none
claims (some kind) (some device_id) none sid jti = none
claims (some kind) (some device_id) (some sub) none jti = none
claims (some kind) (some device_id) (some sub) (some sid) none = none

-- A property that is a text and passes the test.
abbrev pub checked : (Text → Bool) → Text → Fields → Option Text
checked test name fs = accepted test (as_text (property name fs))

unfoldable pub parse_refresh_token_claims : Unknown → Option RefreshTokenPayload
unfolding property is_uuid_v4 is_non_empty_string
parse_refresh_token_claims payload = elim (as_record payload) [
  | none ↦ none
  | some fs ↦
      claims (checked (λ t. t == text "refresh") (text "tokenUse") fs)
        (checked is_device_id (text "deviceId") fs) (checked is_uuid_v4 (text "sub") fs)
        (checked is_uuid_v4 (text "sid") fs) (checked is_uuid_v4 (text "jti") fs)
]

abbrev invalid_refresh_token : Exception
invalid_refresh_token = http 401 (some (text "SESSION_INVALID")) (text "Invalid refresh token.")

-- `JwtRefreshStrategy.validate`.
unfoldable pub validate_refresh : Unknown → Result RefreshTokenPayload
unfolding parse_refresh_token_claims
validate_refresh payload = elim (parse_refresh_token_claims payload) [
  | none ↦ err invalid_refresh_token
  | some p ↦ ok p
]

-- The values of the enum Role.
abbrev pub role_text : Role → Text
role_text Role.customer = text "CUSTOMER"
role_text Role.agent = text "AGENT"
role_text Role.merchant = text "MERCHANT"
role_text Role.admin = text "ADMIN"

unfoldable pub as_role : Option Text → Option Role
as_role none = none
as_role (some t) =
    if t == text "CUSTOMER"
    then some Role.customer
    else (if t == text "AGENT"
        then some Role.agent
        else (if t == text "MERCHANT"
            then some Role.merchant
            else (if t == text "ADMIN" then some Role.admin else none)))

abbrev access : Option Text → Option Role → Result AccessTokenPayload
access none role = err (unauthorized (text "Malformed token cryptographic identifiers"))
access (some sub) none = err (unauthorized (text "Invalid or missing user role in token"))
access (some sub) (some role) = ok (record { sub = sub; role = role })

-- `JwtStrategy.validate`.
unfoldable pub validate_access : Unknown → Result AccessTokenPayload
unfolding property is_uuid_v4 is_non_empty_string as_role
validate_access payload = elim (as_record payload) [
  | none ↦ err (unauthorized (text "Invalid access token"))
  | some fs ↦
      access (checked (λ t. is_non_empty_string t && is_uuid_v4 t) (text "sub") fs)
        (as_role (as_text (property (text "role") fs)))
]

-- The fields of the payloads that `getTokens` signs. In a verified payload further fields follow,
-- `iat` and `exp`, which the JWT library adds.
abbrev pub refresh_claims : RefreshTokenPayload → Fields → Fields
refresh_claims p added = field (text "sub") (characters p.sub) (
    field (text "deviceId") (characters p.device_id) (
      field (text "sid") (characters p.sid) (
        field (text "jti") (characters p.jti)
          (field (text "tokenUse") (characters (text "refresh")) added))))

abbrev pub access_claims : AccessTokenPayload → Fields → Fields
access_claims p added =
    field (text "sub") (characters p.sub)
      (field (text "role") (characters (role_text p.role)) added)
