-- ===== src/Tests/Routes.antt =====
-- A login and a logout through the routes, with tokens that carry their claims.
use kori.Common.{
  ◌≡◌, refl, true, Option, none, some, ◌+◌, ◌-◌, ◌≤◌, [], ◌∷◌, arith, ℕ_discrete, if◌then◌else◌,
  eqb, Bool,
}
use kori.Common.Result.{Result, ok}
use kori.Common.Table.{count}
use kori.Common.Text.{Text, text, Text-discrete, is_space, trim_start, trim}
use kori.Schema.{Db, User}
use kori.Schema.Enums.{PrismaRole, PrismaAccountStatus}
use kori.Store.{find_user_by_phone}
use kori.Common.Int.{pos}
use kori.Http.Value.{Unknown, Fields, object, field, no_fields, integer, property}
use kori.Auth.Redis.{Value}
use kori.Auth.Devices.{is_device_of, IsUniqueDevice}
use kori.Auth.Claims.{
  matches, is_uuid_v4, is_non_empty_string, refresh_claims, parse_refresh_token_claims,
}
use kori.Auth.Claims.Laws.{IsClaims, parse_refresh_token_claims-IsClaims}
use kori.Auth.Session.{Signer, TokensResponse, RefreshTokenPayload, Verified, claims, get_tokens}
use kori.Auth.Session.Laws.{IsEnded}
use kori.Auth.Login.{
  LoginFresh, login_phone, establish_session, find_trusted, start_session,
  assert_login_not_throttled, login_user, clear_login_failure_state,
}
use kori.Auth.Routes.{with_cookie, logout}
use kori.Auth.Routes.Laws.{login_claims, login_then_logout}
use kori.Tests.Data.{opened, bank, user}
use kori.Tests.Server.{table, hash, phone, empty}
use kori.Tests.Sessions.{login_config, all_answer, is_pin, right_pin, device}

-- A text with an end mark before a rest, and back.
abbrev mark : Text → Text → Text
mark [] rest = 0 ∷ rest
mark (c ∷ t) rest = (c + 1) ∷ mark t rest

abbrev unmark : Text → Text × Text
unmark [] = ([], [])
unmark (c ∷ t) = let (u, rest) = unmark t in if eqb c 0 then ([], t) else ((c - 1) ∷ u, rest)

unmark-mark : (t rest : Text) → unmark (mark t rest) ≡ (t, rest)
unmark-mark [] rest = refl
unmark-mark (c ∷ t) rest = ground (arith, unmark-mark t rest)

abbrev carrier : Signer
carrier = record {
  sign_access = λ c. c.sub;
  sign_refresh = λ c. mark c.sub (mark c.device_id (mark c.sid (mark c.jti [])));
}

-- What the JWT library adds.
abbrev times : Fields
times =
    field (text "iat") (integer (pos 1700000000))
      (field (text "exp") (integer (pos 1700604800)) no_fields)

abbrev read : Text → Verified Unknown
read t =
    let a = unmark t in
    let b = unmark a.1 in
    let c = unmark b.1 in
    claims (
      object (
        refresh_claims (record { sub = a.0; device_id = b.0; sid = c.0; jti = (unmark c.1).0 })
          times))

reads_back :
    (p : RefreshTokenPayload)
    → read (carrier.sign_refresh p) ≡ claims (object (refresh_claims p times))
reads_back p = rw (
  unmark-mark p.sub (mark p.device_id (mark p.sid (mark p.jti []))),
  unmark-mark p.device_id (mark p.sid (mark p.jti [])),
  unmark-mark p.sid (mark p.jti []),
  unmark-mark p.jti [],
)

abbrev erin : Text
erin = text "0b52b7c2-3f1a-4c7e-9a10-3d1c5b2a7f01"

abbrev erin_row : User
erin_row = user erin phone PrismaRole.customer PrismaAccountStatus.active

abbrev erins : Db
erins = record bank { users = erin_row ∷ []; trust_devices = record device { user_id = erin } ∷ [] }

abbrev session : LoginFresh
session = record {
  sid = text "1b52b7c2-3f1a-4c7e-8a10-3d1c5b2a7f02";
  jti = text "2b52b7c2-3f1a-4c7e-ba10-3d1c5b2a7f03";
  token = text "tok";
  now = 9;
  between = λ d. d;
}

abbrev logged_in : Result TokensResponse × Db × (Text → Option Value)
logged_in =
    login_phone table hash login_config all_answer carrier is_pin session phone right_pin erins
      empty

abbrev tokens : TokensResponse
tokens = get_tokens carrier erin_row (text "dev") session.sid session.jti

logs_in : logged_in ≡ (ok tokens, logged_in.1, logged_in.2)
unfolding opened login_phone assert_login_not_throttled login_user find_trusted start_session
    establish_session clear_login_failure_state
logs_in = refl

one_device : (u d : Text) → IsUniqueDevice u d erins
unfolding count
one_device u d = single (is_device_of u d (record device { user_id = erin }))
  where
    single : (b : Bool) → (if b then 1 else 0) + 0 ≤ 1
    single b = ground arith

abbrev rest_of_token : Text
rest_of_token =
    mark (text "b52b7c2-3f1a-4c7e-9a10-3d1c5b2a7f01")
      (mark (text "dev") (mark session.sid (mark session.jti [])))

token_text : tokens.refresh_token ≡ 49 ∷ rest_of_token
unfolding text
token_text = refl

abbrev login_token : RefreshTokenPayload
login_token = login_claims session erin_row (text "dev")

parsed : parse_refresh_token_claims (object (refresh_claims login_token times)) ≡ some login_token
unfolding parse_refresh_token_claims property is_uuid_v4 is_non_empty_string matches is_space
    trim_start trim text Text-discrete ℕ_discrete
parsed = refl

erin-IsClaims : IsClaims login_token
erin-IsClaims = parse_refresh_token_claims-IsClaims _ login_token parsed

found_erin : find_user_by_phone phone erins ≡ some erin_row
unfolding opened
found_erin = refl

abbrev cookie : Option Text
cookie = some (49 ∷ rest_of_token)

login_then_logout_example :
    (with_cookie true none (ok tokens)
      ≡ (ok (record { access_token = tokens.access_token }), cookie))
    × ((logout read true true cookie logged_in.1).0 ≡ ok tt)
    × ((logout read true true cookie logged_in.1).1 ≡ none)
    × IsEnded login_token (logout read true true cookie logged_in.1).2
login_then_logout_example =
    login_then_logout table hash login_config all_answer carrier is_pin session phone right_pin
      erin_row erins empty tokens logged_in.1 logged_in.2 read times 49 rest_of_token none
      one_device logs_in found_erin token_text (reads_back login_token) erin-IsClaims
