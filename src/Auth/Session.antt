-- ===== src/Auth/Session.antt =====
-- The sessions of backend/src/modules/auth/auth.service.ts: tokens, refresh, logout, and the list
-- and revocation of trusted devices. The signatures of the JWT library are parameters. Other
-- requests may run between the queries of a refresh: `Pauses` says what they make of the database.
pub mod Laws
pub mod Replay
use kori.Common.{
  Bool, true, false, Option, none, some, ℕ, List, [], ◌∷◌, not, same, eqb, is_some, is_none, ◌&&◌,
  leb, if◌then◌else◌, map,
}
use kori.Common.Result.{Result, ok, err, Exception, http, internal_server_error}
use kori.Common.Table.{find, update_many, count}
use kori.Common.Text.{Text, text, ◌==◌}
use kori.Domain.Enums.{AccountStatus, AccountStatus-discrete, Role}
use kori.Domain.UserId.{UserId}
use kori.Mappers.Account.{to_prisma_status, to_domain_status, to_domain_role}
use kori.Schema.{Db, User, TrustDevice}
use kori.Store.{Action, ◌>>=◌, ◌>>◌, pure, throw, gets, find_user, user_has_status, is_text}
use kori.Auth.Devices.{is_device_of}

-- The claims of the two tokens; `tokenUse` is always 'refresh'.
pub record RefreshTokenPayload : Type 0 where
  pub sub : Text
  pub device_id : Text
  pub sid : Text
  pub jti : Text

pub record AccessTokenPayload : Type 0 where
  pub sub : Text
  pub role : Role

pub record TokensResponse : Type 0 where
  pub access_token : Text
  pub refresh_token : Text

-- `jwtService.signAsync` with the two secrets and lifetimes.
pub record Signer : Type 0 where
  pub sign_access : AccessTokenPayload → Text
  pub sign_refresh : RefreshTokenPayload → Text

abbrev pub get_tokens : Signer → User → Text → Text → Text → TokensResponse
get_tokens jwt user device_id sid jti = record {
  access_token = jwt.sign_access (record { sub = user.id; role = to_domain_role user.role });
  refresh_token =
      jwt.sign_refresh (record { sub = user.id; device_id = device_id; sid = sid; jti = jti });
}

abbrev pub session_invalid : Exception
session_invalid =
    http 401 (some (text "SESSION_INVALID"))
      (text "Your session is no longer valid. Please sign in again.")

-- What other requests make of the database while a refresh waits for its queries.
pub record Pauses : Type 0 where
  pub after_user : Db → Db
  pub after_rotation : Db → Db
  pub after_lookup : Db → Db

abbrev pub pause : (Db → Db) → Action (Unit {0})
pause f = λ db. (ok tt, f db)

-- The filter `user: { is: { status: ACTIVE } }` of a device.
abbrev pub has_active_user : Db → TrustDevice → Bool
has_active_user db d = user_has_status d.user_id (to_prisma_status AccountStatus.active) db

-- The user of the token, if its account is active.
unfoldable pub session_user : Text → Action User
unfolding find_user
session_user id = do
  found ← gets (find_user id)
  elim found [
    | none ↦ throw session_invalid
    | some user ↦
        if not (same AccountStatus-discrete (to_domain_status user.status) AccountStatus.active)
        then throw session_invalid
        else pure user
  ]

-- The rotation of the token identifier, if the device still has the session and the identifier.
abbrev pub holds_token : Db → RefreshTokenPayload → TrustDevice → Bool
holds_token db p d =
    is_text d.refresh_session_id p.sid
    && (is_text d.current_refresh_jti p.jti && (d.is_authorized && has_active_user db d))

abbrev pub with_jti : Text → ℕ → TrustDevice → TrustDevice
with_jti jti now d = record d { current_refresh_jti = some jti; last_used_at = now }

unfoldable pub rotate : RefreshTokenPayload → Text → ℕ → Action ℕ
rotate p jti now db = (
  ok (count (λ d. is_device_of p.sub p.device_id d && holds_token db p d) db.trust_devices),
  record db {
    trust_devices =
        update_many (λ d. is_device_of p.sub p.device_id d && holds_token db p d) (with_jti jti now)
          db.trust_devices;
  },
)

unfoldable pub find_device : Text → Text → Db → Option TrustDevice
find_device user_id device_id db = find (is_device_of user_id device_id) db.trust_devices

-- A token of the current session that is not the current token; NULL equals none.
abbrev pub differs_from : Option Text → Text → Bool
differs_from none t = false
differs_from (some s) t = not (s == t)

abbrev pub is_replay : RefreshTokenPayload → TrustDevice → Bool
is_replay p d =
    is_text d.refresh_session_id p.sid
    && (d.is_authorized && differs_from d.current_refresh_jti p.jti)

abbrev pub without_session : TrustDevice → TrustDevice
without_session d = record d { refresh_session_id = none; current_refresh_jti = none }

unfoldable pub end_replayed : RefreshTokenPayload → Action ℕ
end_replayed p db = (
  ok (count (λ d. is_device_of p.sub p.device_id d && is_replay p d) db.trust_devices),
  record db {
    trust_devices =
        update_many (λ d. is_device_of p.sub p.device_id d && is_replay p d) without_session
          db.trust_devices;
  },
)

abbrev pub is_replayed : RefreshTokenPayload → Option TrustDevice → Bool
is_replayed p none = false
is_replayed p (some d) = is_replay p d

-- A refresh whose rotation has changed no row.
unfoldable pub refuse_refresh : Pauses → RefreshTokenPayload → Action TokensResponse
unfolding find_device end_replayed
refuse_refresh z p = do
  pause z.after_rotation
  device ← gets (find_device p.sub p.device_id)
  pause z.after_lookup
  (if is_replayed p device then (end_replayed p >>= λ n. pure tt) else pure tt)
  throw session_invalid

unfoldable pub refresh_tokens :
    Signer → Pauses → Text → ℕ → RefreshTokenPayload → Action TokensResponse
unfolding session_user rotate refuse_refresh
refresh_tokens jwt z new_jti now p = do
  user ← session_user p.sub
  pause z.after_user
  rotated ← rotate p new_jti now
  (if eqb rotated 1
      then pure (get_tokens jwt user p.device_id p.sid new_jti)
      else refuse_refresh z p)

-- `logoutCurrentSession`; `reachable` says whether the database answers.
abbrev pub has_session_id : RefreshTokenPayload → TrustDevice → Bool
has_session_id p d = is_text d.refresh_session_id p.sid

unfoldable pub logout_current_session : Bool → RefreshTokenPayload → Action (Unit {0})
logout_current_session reachable p db =
    if not reachable then (err (internal_server_error (text "Failed to logout.")), db) else (
      ok tt,
      record db {
        trust_devices =
            update_many (λ d. is_device_of p.sub p.device_id d && has_session_id p d)
              without_session db.trust_devices;
      },
    )

-- What the JWT library makes of a cookie's token: claims, an error of the token, or another error.
pub data Verified (A : Type 0) : Type 0 where
  claims : A → Verified A
  bad_token : Verified A
  failed : Exception → Verified A

abbrev when_claims : Bool → Option RefreshTokenPayload → Action (Unit {0})
when_claims reachable none = pure tt
when_claims reachable (some p) = logout_current_session reachable p

abbrev after_verification :
    {A : Type 0} → (A → Option RefreshTokenPayload) → Bool → Verified A → Action (Unit {0})
after_verification parse reachable (claims c) = when_claims reachable (parse c)
after_verification parse reachable bad_token = pure tt
after_verification parse reachable (failed e) = throw e

-- `logoutUsingRefreshCookie`, with `jwtService.verifyAsync` and the parser of its claims.
unfoldable pub logout_using_refresh_cookie :
    {A : Type 0}
    → (Text → Verified A)
    → (A → Option RefreshTokenPayload)
    → Bool
    → Option Text
    → Action (Unit {0})
unfolding logout_current_session
logout_using_refresh_cookie verify parse reachable none = pure tt
logout_using_refresh_cookie verify parse reachable (some []) = pure tt
logout_using_refresh_cookie verify parse reachable (some (c ∷ t)) =
    after_verification parse reachable (verify (c ∷ t))

pub record TrustedDeviceResponse : Type 0 where
  pub id : Text
  pub device_id : Text
  pub is_authorized : Bool
  pub has_active_session : Bool
  pub created_at : ℕ
  pub last_used_at : ℕ

abbrev to_device_response : TrustDevice → TrustedDeviceResponse
to_device_response d = record {
  id = d.id;
  device_id = d.device_id;
  is_authorized = d.is_authorized;
  has_active_session =
      d.is_authorized && (is_some d.current_refresh_jti && is_some d.refresh_session_id);
  created_at = d.created_at;
  last_used_at = d.last_used_at;
}

abbrev pub device_not_found : Exception
device_not_found = http 404 (some (text "DEVICE_NOT_FOUND")) (text "Device not found.")

-- `updateMany` on the row of a user with an id, which takes the trust away.
abbrev pub is_row_of : Text → Text → TrustDevice → Bool
is_row_of record_id user_id d = d.id == record_id && d.user_id == user_id

abbrev pub revoked : TrustDevice → TrustDevice
revoked d = record d {
  is_authorized = false;
  refresh_session_id = none;
  current_refresh_jti = none;
}

unfoldable pub revoke_trusted_device : UserId → Text → Action (Unit {0})
revoke_trusted_device user record_id db =
    let after = record db {
      trust_devices = update_many (is_row_of record_id user.id) revoked db.trust_devices;
    } in
    if eqb (count (is_row_of record_id user.id) db.trust_devices) 0
    then (err device_not_found, after)
    else (ok tt, after)

-- `orderBy: { createdAt: 'desc' }`.
unfoldable pub insert_newest : TrustDevice → List TrustDevice → List TrustDevice
insert_newest d [] = d ∷ []
insert_newest d (e ∷ ds) =
    let rest = insert_newest d ds in if leb e.created_at d.created_at then d ∷ e ∷ ds else e ∷ rest

unfoldable pub newest_first : List TrustDevice → List TrustDevice
unfolding insert_newest
newest_first [] = []
newest_first (d ∷ ds) = insert_newest d (newest_first ds)

unfoldable pub devices_of : Text → List TrustDevice → List TrustDevice
devices_of user_id [] = []
devices_of user_id (d ∷ ds) =
    if d.user_id == user_id then d ∷ devices_of user_id ds else devices_of user_id ds

abbrev devices_not_found : Exception
devices_not_found = http 404 (some (text "DEVICES_NOT_FOUND")) (text "Device not found.")

unfoldable pub list_trusted_device : UserId → Db → Result (List TrustedDeviceResponse)
unfolding newest_first devices_of
list_trusted_device user db = elim (newest_first (devices_of user.id db.trust_devices)) [
  | [] ↦ err devices_not_found
  | d ∷ ds ↦ ok (map to_device_response (d ∷ ds))
]
