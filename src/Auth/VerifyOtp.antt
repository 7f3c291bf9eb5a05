-- ===== src/Auth/VerifyOtp.antt =====
-- `verifyOtp` of backend/src/modules/auth/services/otp.service.ts, on the database and the state of
-- Redis. The flags of `VerifyAnswers` say which calls Redis answers; the random token, the time and
-- the id of a new row are arguments.
pub mod Laws
use kori.Common.{Bool, true, false, Option, none, some, ℕ, not, same, ◌&&◌, if◌then◌else◌, [], ◌∷◌}
use kori.Common.Result.{Result, ok, err, Exception, http, bad_request, service_unavailable}
use kori.Common.Table.{any, update}
use kori.Common.Text.{Text, text, ◌==◌}
use kori.Domain.Enums.{AccountStatus, AccountStatus-discrete}
use kori.Domain.PhoneNumber.{PhoneParser, PhoneNumber}
use kori.Domain.PhoneNumber
use kori.Mappers.Account.{to_domain_status}
use kori.Schema.{Db, User, TrustDevice}
use kori.Store.{find_user_by_phone}
use kori.Auth.Devices.{is_device_of}
use kori.Auth.Redis.{Redis}
use kori.Auth.Otp.{OtpVerificationStatus, OtpRequest, OtpLimits, verify_otp_script}
use kori.Auth.Proof.{
  AuthorizationConsumeStatus, IssuedAuthorization, issue_registration_authorization,
  consume_device_enrollment_authorization,
}
use kori.Auth.SendOtp.{locked_out}

pub record VerifyOtpDto : Type 0 where
  pub phone : Text
  pub device_id : Text
  pub otp : Text
  pub challenge_id : Text
  pub device_enrollment_token : Option Text

pub record VerifyOtpResponse : Type 0 where
  pub message : Text
  pub is_registered : Bool
  pub registration_authorization : Option IssuedAuthorization

pub record VerifyAnswers : Type 0 where
  pub script : Bool
  pub consume : Bool
  pub issue : Bool

-- The random token, the id and the time of a new row, and the lifetime of an authorization.
pub record VerifyFresh : Type 0 where
  pub token : Text
  pub id : Text
  pub now : ℕ
  pub ttl : ℕ

-- The exception of a status that is not VERIFIED.
abbrev pub status_refusal : OtpVerificationStatus → Option Exception
status_refusal OtpVerificationStatus.verified = none
status_refusal OtpVerificationStatus.too_many_attempts = some locked_out
status_refusal OtpVerificationStatus.invalid_otp = some (bad_request (text "Invalid OTP"))
status_refusal OtpVerificationStatus.invalid_challenge =
    some (bad_request (text "Invalid OTP challenge"))
status_refusal OtpVerificationStatus.no_active_challenge =
    some (bad_request (text "OTP challenge is expired or superseded"))
status_refusal OtpVerificationStatus.superseded =
    some (bad_request (text "OTP challenge is expired or superseded"))
status_refusal OtpVerificationStatus.challenge_missing =
    some (bad_request (text "OTP challenge is expired or superseded"))

-- `trustDevice.upsert`, by the unique pair of user and device.
abbrev pub authorized : ℕ → TrustDevice → TrustDevice
authorized now d = record d {
  is_authorized = true;
  refresh_session_id = none;
  current_refresh_jti = none;
  last_used_at = now;
}

abbrev pub new_device : VerifyFresh → Text → Text → TrustDevice
new_device fresh user_id device_id = record {
  id = fresh.id;
  device_id = device_id;
  user_id = user_id;
  is_authorized = true;
  refresh_session_id = none;
  current_refresh_jti = none;
  last_used_at = fresh.now;
  created_at = fresh.now;
}

unfoldable pub upsert_trust_device : VerifyFresh → Text → Text → Db → Db
upsert_trust_device fresh user_id device_id db =
    if any (is_device_of user_id device_id) db.trust_devices
    then record db {
      trust_devices =
          update (is_device_of user_id device_id) (authorized fresh.now) db.trust_devices;
    }
    else record db { trust_devices = new_device fresh user_id device_id ∷ db.trust_devices }

-- `!enrollmentToken`: an empty token counts as none.
abbrev pub given_token : Option Text → Option Text
given_token none = none
given_token (some []) = none
given_token (some (c ∷ t)) = some (c ∷ t)

abbrev enrollment_required : Exception
enrollment_required =
    http 403 (some (text "DEVICE_ENROLLMENT_AUTHORIZATION_REQUIRED"))
      (text "Start device verification from login first.")

abbrev account_restricted : Exception
account_restricted =
    http 403 (some (text "ACCOUNT_RESTRICTED"))
      (text "Your account is temporarily restricted. Please contact support.")

abbrev enrollment_invalid : Exception
enrollment_invalid =
    http 403 (some (text "DEVICE_ENROLLMENT_AUTHORIZATION_INVALID"))
      (text "Device verification authorization is invalid or expired.")

module _ (R : Redis) (hash_token : Text → Text) where
  open R use {State}

  abbrev after_consume :
      VerifyFresh
      → User
      → Text
      → Db
      → Result AuthorizationConsumeStatus × State
      → Result VerifyOtpResponse × Db × State
  after_consume fresh user device_id db (err e, s) = (err e, db, s)
  after_consume fresh user device_id db (ok AuthorizationConsumeStatus.missing, s) =
      (err enrollment_invalid, db, s)
  after_consume fresh user device_id db (ok AuthorizationConsumeStatus.invalid, s) =
      (err enrollment_invalid, db, s)
  after_consume fresh user device_id db (ok AuthorizationConsumeStatus.consumed, s) = (
    ok (record {
      message = text "Device verified. Please login again.";
      is_registered = true;
      registration_authorization = none;
    }),
    upsert_trust_device fresh user.id device_id db,
    s,
  )

  -- The branch of a phone number that has an account.
  unfoldable pub enroll_device :
      VerifyAnswers
      → VerifyFresh
      → Text
      → VerifyOtpDto
      → User
      → Db
      → State
      → Result VerifyOtpResponse × Db × State
  unfolding upsert_trust_device
  enroll_device a fresh phone dto user db s = elim (given_token dto.device_enrollment_token) [
    | none ↦ (err enrollment_required, db, s)
    | some token ↦
        if not (same AccountStatus-discrete (to_domain_status user.status) AccountStatus.active)
        then (err account_restricted, db, s)
        else after_consume fresh user dto.device_id db (
            consume_device_enrollment_authorization R hash_token a.consume user.id phone
              dto.device_id token s)
  ]

  abbrev after_issue :
      Db → Result IssuedAuthorization × State → Result VerifyOtpResponse × Db × State
  after_issue db (err e, s) = (err e, db, s)
  after_issue db (ok authorization, s) = (
    ok (record {
      message = text "Otp verified. Procced to PIN setup";
      is_registered = false;
      registration_authorization = some authorization;
    }),
    db,
    s,
  )

  abbrev unavailable : Exception
  unavailable = service_unavailable (text "Authentication service temporarily unavailable.")

  -- `verifyOtpAtomically`.
  unfoldable pub verify_otp_atomically :
      Bool → OtpLimits → OtpRequest → State → Result OtpVerificationStatus × State
  unfolding verify_otp_script
  verify_otp_atomically answers limits q s =
      if not answers
      then (err unavailable, s)
      else (let (status, s') = verify_otp_script R limits q s in
          elim status [ none ↦ (err unavailable, s') | some v ↦ (ok v, s') ])

  abbrev after_status :
      VerifyAnswers
      → VerifyFresh
      → Text
      → VerifyOtpDto
      → Db
      → Result OtpVerificationStatus × State
      → Result VerifyOtpResponse × Db × State
  after_status a fresh phone dto db (err e, s) = (err e, db, s)
  after_status a fresh phone dto db (ok status, s) = elim (status_refusal status) [
    | some e ↦ (err e, db, s)
    | none ↦ elim (find_user_by_phone phone db) [
      | some user ↦ enroll_device a fresh phone dto user db s
      | none ↦ after_issue db (
          issue_registration_authorization R hash_token a.issue fresh.ttl fresh.token phone
            dto.device_id s)
    ]
  ]

  unfoldable pub verify_otp :
      VerifyAnswers
      → VerifyFresh
      → OtpLimits
      → PhoneParser
      → VerifyOtpDto
      → Db
      → State
      → Result VerifyOtpResponse × Db × State
  unfolding verify_otp_atomically enroll_device
  verify_otp a fresh limits parse dto db s = elim (PhoneNumber.from parse dto.phone) [
    | err e ↦ (err e, db, s)
    | ok number ↦ after_status a fresh number.phone dto db (
        verify_otp_atomically a.script limits
          (record {
            phone = number.phone;
            device_id = dto.device_id;
            challenge_id = dto.challenge_id;
            otp = dto.otp;
          })
          s)
  ]
