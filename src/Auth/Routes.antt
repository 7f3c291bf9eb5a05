-- ===== src/Auth/Routes.antt =====
-- The routes of backend/src/modules/auth/auth.controller.ts that keep the refresh cookie, with
-- backend/src/modules/auth/services/cookie.service.ts: the cookie is the one that the browser holds.
pub mod Laws
use kori.Common.{Bool, true, false, Option, none, some, List, [], ◌∷◌, if◌then◌else◌}
use kori.Common.Result.{Result, ok, err, ◌>>=◌, internal_server_error}
use kori.Common.Text.{Text, text}
use kori.Domain.UserId.{UserId}
use kori.Domain.UserId
use kori.Schema.{Db}
use kori.Http.Value.{Unknown}
use kori.Auth.Claims.{parse_refresh_token_claims}
use kori.Auth.Session.{
  TokensResponse, Verified, TrustedDeviceResponse, logout_using_refresh_cookie, list_trusted_device,
  revoke_trusted_device,
}

pub record TokenResponse : Type 0 where
  pub access_token : Text

-- The browser's cookie after the call; `writable` says whether the response takes it.
abbrev pub set_refresh_cookies : Bool → Text → Option Text → Result (Unit {0}) × Option Text
set_refresh_cookies writable refresh_token cookie =
    if writable then (ok tt, some refresh_token) else (
      err (internal_server_error (text "An error occurred while establishing the session")),
      cookie,
    )

abbrev pub clear_auth_cookies : Bool → Option Text → Result (Unit {0}) × Option Text
clear_auth_cookies writable cookie =
    if writable
    then (ok tt, none)
    else (err (internal_server_error (text "An error occurred while clearing the session")), cookie)

-- An empty cookie counts as none.
abbrev pub extract_refresh_cookie : Option Text → Option Text
extract_refresh_cookie none = none
extract_refresh_cookie (some []) = none
extract_refresh_cookie (some (c ∷ t)) = some (c ∷ t)

abbrev access_response : TokensResponse → Result (Unit {0}) → Result TokenResponse
access_response tokens (err e) = err e
access_response tokens (ok _) = ok (record { access_token = tokens.access_token })

-- The routes register, register-business, login and refresh, after the call of the service.
unfoldable pub with_cookie :
    Bool → Option Text → Result TokensResponse → Result TokenResponse × Option Text
with_cookie writable cookie (err e) = (err e, cookie)
with_cookie writable cookie (ok tokens) =
    let (r, after) = set_refresh_cookies writable tokens.refresh_token cookie in
    (access_response tokens r, after)

abbrev after_logout :
    Bool → Option Text → Result (Unit {0}) × Db → Result (Unit {0}) × Option Text × Db
after_logout writable cookie (err e, db) = (err e, cookie, db)
after_logout writable cookie (ok _, db) =
    let (r, after) = clear_auth_cookies writable cookie in (r, after, db)

-- The route logout, with `jwtService.verifyAsync`.
unfoldable pub logout :
    (Text → Verified Unknown)
    → Bool
    → Bool
    → Option Text
    → Db
    → Result (Unit {0}) × Option Text × Db
logout verify reachable writable cookie db = after_logout writable cookie (
    logout_using_refresh_cookie verify parse_refresh_token_claims reachable
      (extract_refresh_cookie cookie) db)

unfoldable pub get_my_devices : Text → Db → Result (List TrustedDeviceResponse)
unfolding UserId.from list_trusted_device
get_my_devices raw_user_id db = UserId.from raw_user_id >>= λ user. list_trusted_device user db

unfoldable pub revoke_device : Text → Text → Db → Result (Unit {0}) × Db
unfolding UserId.from revoke_trusted_device
revoke_device raw_user_id device_record_id db = elim (UserId.from raw_user_id) [
  | err e ↦ (err e, db)
  | ok user ↦ revoke_trusted_device user device_record_id db
]
