-- ===== src/Auth/Login.antt =====
-- `login` of backend/src/modules/auth/auth.service.ts, with its throttle, on the database and the
-- state of Redis. argon2 is a parameter; the flags of `LoginAnswers` say which calls Redis answers;
-- random identifiers, a random token and the time are arguments, and so is what other requests do to
-- the database between the lookups of the user and its devices and the write.
pub mod Keys
pub mod Laws
pub mod Throttle
use kori.Common.{
  Bool, true, false, Option, none, some, ℕ, not, same, eqb, leb, ◌&&◌, ◌++◌, if◌then◌else◌,
}
use kori.Common.Result.{
  Result, ok, err, Exception, http, service_unavailable, too_many_requests,
  device_verification_required,
}
use kori.Common.Table.{find, update_many, count}
use kori.Common.Text.{Text, text, ◌==◌}
use kori.Domain.Enums.{AccountStatus, AccountStatus-discrete}
use kori.Domain.PhoneNumber.{PhoneParser, PhoneNumber}
use kori.Domain.PhoneNumber
use kori.Mappers.Account.{to_domain_status}
use kori.Schema.{Db, User, TrustDevice}
use kori.Store.{Action, find_user_by_phone}
use kori.Auth.Redis.{Redis, Value}
use kori.Auth.RedisService.{get_strict, set_ex, del, increment_with_ttl}
use kori.Auth.Devices.{is_device_of}
use kori.Auth.Proof.{IssuedAuthorization, issue_device_enrollment_authorization}
use kori.Auth.Session.{Signer, TokensResponse, get_tokens, has_active_user}

pub record AuthCredentialsDto : Type 0 where
  pub phone : Text
  pub pin : Text
  pub device_id : Text

abbrev pub login_prefix : Text
login_prefix = text "auth:login:"

abbrev pub login_failure_key : Text → Text
login_failure_key phone = login_prefix ++ (text "failures:" ++ phone)

abbrev pub login_throttle_key : Text → Text
login_throttle_key phone = login_prefix ++ (text "throttle:" ++ phone)

-- LOGIN_MAX_FAILURES, LOGIN_FAILURE_WINDOW_SECONDS, LOGIN_THROTTLE_SECONDS, and the lifetime of an
-- enrollment authorization.
pub record LoginConfig : Type 0 where
  pub max_failures : ℕ
  pub failure_window : ℕ
  pub throttle_seconds : ℕ
  pub enrollment_ttl : ℕ

pub record LoginAnswers : Type 0 where
  pub get_throttle : Bool
  pub increment : Bool
  pub set_throttle : Bool
  pub del_failures : Bool
  pub del_throttle : Bool
  pub issue : Bool

-- The new session and token identifiers, the token of an enrollment, the time, and what other
-- requests make of the database between the lookups and `updateMany`.
pub record LoginFresh : Type 0 where
  pub sid : Text
  pub jti : Text
  pub token : Text
  pub now : ℕ
  pub between : Db → Db

abbrev pub unavailable : Exception
unavailable = service_unavailable (text "Authentication service temporarily unavailable.")

abbrev pub too_many_logins : Exception
too_many_logins = too_many_requests (text "Too many login attempts. Try again later.")

abbrev pub invalid_credentials : Exception
invalid_credentials =
    http 401 (some (text "INVALID_CREDENTIALS")) (text "Phone number or PIN is incorrect.")

abbrev pub login_restricted : Exception
login_restricted =
    http 403 (some (text "ACCOUNT_RESTRICTED"))
      (text "Your account is temporarily restricted. Please contact support.")

abbrev pub establishment_failed : Exception
establishment_failed =
    http 401 (some (text "SESSION_ESTABLISHMENT_FAILED"))
      (text "Unable to establish session. Please try again.")

-- `trustDevice.updateMany` of a login.
abbrev pub may_start : Db → TrustDevice → Bool
may_start db d = d.is_authorized && has_active_user db d

abbrev pub with_session : Text → Text → ℕ → TrustDevice → TrustDevice
with_session sid jti now d = record d {
  refresh_session_id = some sid;
  current_refresh_jti = some jti;
  last_used_at = now;
}

unfoldable pub establish_session : Text → Text → Text → Text → ℕ → Action ℕ
establish_session user_id device_id sid jti now db = (
  ok (count (λ d. is_device_of user_id device_id d && may_start db d) db.trust_devices),
  record db {
    trust_devices =
        update_many (λ d. is_device_of user_id device_id d && may_start db d)
          (with_session sid jti now) db.trust_devices;
  },
)

-- The device of the login among the devices of the user, if it is authorized.
unfoldable pub find_trusted : Text → Text → Db → Option TrustDevice
find_trusted user_id device_id db = elim (find (is_device_of user_id device_id) db.trust_devices) [
  | none ↦ none
  | some d ↦ if d.is_authorized then some d else none
]

abbrev after_establish :
    Signer → LoginFresh → User → Text → Result ℕ × Db → Result TokensResponse × Db
after_establish jwt fresh user device_id (err e, db) = (err e, db)
after_establish jwt fresh user device_id (ok n, db) =
    if eqb n 1
    then (ok (get_tokens jwt user device_id fresh.sid fresh.jti), db)
    else (err establishment_failed, db)

unfoldable pub start_session : Signer → LoginFresh → User → Text → Action TokensResponse
unfolding establish_session
start_session jwt fresh user device_id db =
    after_establish jwt fresh user device_id
      (establish_session user.id device_id fresh.sid fresh.jti fresh.now db)

module _ (R : Redis) (hash_token : Text → Text) where
  open R use {State}

  -- `assertLoginNotThrottled`; only `true` is stored at the key.
  abbrev after_throttle : Result (Option Value) → Result (Unit {0})
  after_throttle (err e) = err unavailable
  after_throttle (ok none) = ok tt
  after_throttle (ok (some _)) = err too_many_logins

  unfoldable pub assert_login_not_throttled : Bool → Text → State → Result (Unit {0})
  assert_login_not_throttled answers phone s =
      after_throttle (get_strict R answers (login_throttle_key phone) s)

  abbrev after_count :
      LoginConfig → LoginAnswers → Text → Option ℕ × State → Result (Unit {0}) × State
  after_count config a phone (none, s) = (err unavailable, s)
  after_count config a phone (some n, s) =
      if leb config.max_failures n
      then (let (stored, s') =
            set_ex R a.set_throttle (login_throttle_key phone) Value.flag config.throttle_seconds
              s in
          (err (if not stored then unavailable else too_many_logins), s'))
      else (ok tt, s)

  unfoldable pub record_login_failure :
      LoginConfig → LoginAnswers → Text → State → Result (Unit {0}) × State
  record_login_failure config a phone s =
      after_count config a phone
        (increment_with_ttl R a.increment (login_failure_key phone) config.failure_window s)

  unfoldable pub clear_login_failure_state : LoginAnswers → Text → State → State
  clear_login_failure_state a phone s =
      del R a.del_throttle (login_throttle_key phone)
        (del R a.del_failures (login_failure_key phone) s)

  abbrev after_failure : Db → Result (Unit {0}) × State → Result TokensResponse × Db × State
  after_failure db (err e, s) = (err e, db, s)
  after_failure db (ok _, s) = (err invalid_credentials, db, s)

  abbrev after_issue : Db → Result IssuedAuthorization × State → Result TokensResponse × Db × State
  after_issue db (err e, s) = (err e, db, s)
  after_issue db (ok issued, s) =
      (err (device_verification_required issued.token issued.expires_in), db, s)

  abbrev with_state : State → Result TokensResponse × Db → Result TokensResponse × Db × State
  with_state s (r, db) = (r, db, s)

  -- The rest of a login once the PIN is known to be right.
  unfoldable pub login_user :
      LoginConfig
      → LoginAnswers
      → Signer
      → LoginFresh
      → Text
      → Text
      → User
      → Db
      → State
      → Result TokensResponse × Db × State
  unfolding find_trusted start_session clear_login_failure_state
  login_user config a jwt fresh phone device_id user db s =
      let s' = clear_login_failure_state a phone s in
      if not (same AccountStatus-discrete (to_domain_status user.status) AccountStatus.active)
      then (err login_restricted, db, s')
      else elim (find_trusted user.id device_id db) [
        | none ↦ after_issue db (
            issue_device_enrollment_authorization R hash_token a.issue config.enrollment_ttl
              fresh.token user.id phone device_id s')
        | some _ ↦ with_state s' (start_session jwt fresh user device_id (fresh.between db))
      ]

  unfoldable pub login_phone :
      LoginConfig
      → LoginAnswers
      → Signer
      → (Text → Text → Bool)
      → LoginFresh
      → Text
      → AuthCredentialsDto
      → Db
      → State
      → Result TokensResponse × Db × State
  unfolding assert_login_not_throttled record_login_failure login_user
  login_phone config a jwt verify fresh phone dto db s =
      elim (assert_login_not_throttled a.get_throttle phone s) [
        | err e ↦ (err e, db, s)
        | ok _ ↦ elim (find_user_by_phone phone db) [
          | none ↦ after_failure db (record_login_failure config a phone s)
          | some user ↦
              if not (verify dto.pin user.pin)
              then after_failure db (record_login_failure config a phone s)
              else login_user config a jwt fresh phone dto.device_id user db s
        ]
      ]

  -- `passwordService.verify` is `verify`.
  unfoldable pub login :
      LoginConfig
      → LoginAnswers
      → Signer
      → (Text → Text → Bool)
      → LoginFresh
      → PhoneParser
      → AuthCredentialsDto
      → Db
      → State
      → Result TokensResponse × Db × State
  unfolding login_phone
  login config a jwt verify fresh parse dto db s = elim (PhoneNumber.from parse dto.phone) [
    | err e ↦ (err e, db, s)
    | ok number ↦ login_phone config a jwt verify fresh number.phone dto db s
  ]
