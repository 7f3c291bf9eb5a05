-- ===== src/Tests/Payloads.antt =====
-- The theorems on responses and on the claims of tokens, at concrete values.
use kori.Common.{◌≡◌, refl, some, ℕ, ℕ_discrete}
use kori.Common.Int.{pos, negsuc}
use kori.Common.Text.{Text, text, Text-discrete, is_space, trim_start, trim}
use kori.Http.Value.{
  Unknown, integer, big_int, date, array, object, element, no_elements, Fields, field, no_fields,
  property,
}
use kori.Http.BigInts.{serialize_big_int, serialize_fields}
use kori.Http.BigInts.Laws.{IsPlain, serialize_big_int_lem}
use kori.Auth.Session.{RefreshTokenPayload}
use kori.Auth.Claims.{
  matches, is_uuid_v4, is_non_empty_string, parse_refresh_token_claims, refresh_claims,
}
use kori.Auth.Claims.Laws.{IsClaims, parse_refresh_token_claims_round_trip}

abbrev no_date : ℕ → Text
no_date t = text "1970-01-01T00:00:00.000Z"

abbrev wallet_fields : Fields
wallet_fields =
    field (text "balance") (big_int (pos 2500)) (field (text "createdAt") (date 0) no_fields)

abbrev wallets : Unknown
wallets = array (element (object wallet_fields) (element (big_int (negsuc 0)) no_elements))

serialize_big_int_lem_example :
    IsPlain (serialize_big_int no_date wallets)
    × (serialize_big_int no_date (serialize_big_int no_date wallets)
        ≡ serialize_big_int no_date wallets)
    × (property (text "balance") (serialize_fields no_date wallet_fields)
        ≡ serialize_big_int no_date (property (text "balance") wallet_fields))
serialize_big_int_lem_example =
    serialize_big_int_lem no_date no_date wallets (text "balance") wallet_fields

abbrev token_of_alice : RefreshTokenPayload
token_of_alice = record {
  sub = text "0b52b7c2-3f1a-4c7e-9a10-3d1c5b2a7f01";
  device_id = text "phone-1";
  sid = text "1b52b7c2-3f1a-4C7e-8a10-3d1c5b2a7f02";
  jti = text "2b52b7c2-3f1a-4c7e-Ba10-3d1c5b2a7f03";
}

-- What the JWT library adds.
abbrev times : Fields
times =
    field (text "iat") (integer (pos 1700000000))
      (field (text "exp") (integer (pos 1700604800)) no_fields)

abbrev payload : Unknown
payload = object (refresh_claims token_of_alice times)

parsed : parse_refresh_token_claims payload ≡ some token_of_alice
unfolding parse_refresh_token_claims property is_uuid_v4 is_non_empty_string matches is_space
    trim_start trim text Text-discrete ℕ_discrete
parsed = refl

parse_refresh_token_claims_round_trip_example :
    IsClaims token_of_alice × (parse_refresh_token_claims payload ≡ some token_of_alice)
parse_refresh_token_claims_round_trip_example =
    parse_refresh_token_claims_round_trip payload token_of_alice times parsed
