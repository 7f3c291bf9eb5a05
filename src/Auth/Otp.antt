-- ===== src/Auth/Otp.antt =====
-- backend/src/modules/auth/scripts/verify-otp.script.ts, and the keys of
-- backend/src/modules/auth/services/otp.service.ts.
pub mod Laws
pub mod Lockout
use kori.Common.{Bool, Option, none, some, ℕ, ◌+◌, not, ◌&&◌, ◌++◌, if◌then◌else◌, leb}
use kori.Common.Text.{Text, text, ◌==◌}
use kori.Auth.Redis.{Redis, Value, OtpChallenge, counter, is_string, as_otp_challenge}

pub data OtpVerificationStatus : Type 0 where
  verified too_many_attempts no_active_challenge superseded : OtpVerificationStatus
  challenge_missing invalid_challenge invalid_otp : OtpVerificationStatus

abbrev pub otp_prefix : Text → Text
otp_prefix phone = text "auth:otp:{" ++ (phone ++ text "}:")

abbrev pub otp_challenge_key : Text → Text → Text
otp_challenge_key phone challenge_id = otp_prefix phone ++ (text "challenge:" ++ challenge_id)

abbrev pub otp_active_challenge_key : Text → Text
otp_active_challenge_key phone = otp_prefix phone ++ text "active"

abbrev pub otp_resend_key : Text → Text
otp_resend_key phone = otp_prefix phone ++ text "resend"

abbrev pub otp_failure_key : Text → Text
otp_failure_key phone = otp_prefix phone ++ text "failures"

-- What a verification asks, and the limits of the configuration.
pub record OtpRequest : Type 0 where
  pub phone : Text
  pub device_id : Text
  pub challenge_id : Text
  pub otp : Text

pub record OtpLimits : Type 0 where
  pub max_failures : ℕ
  pub failure_window : ℕ

module _ (R : Redis) where
  open R use {State, get, del, incr, expire}

  abbrev record_failure : OtpLimits → Text → ℕ → State → Option OtpVerificationStatus × State
  record_failure limits phone n s = (
    some (
        if leb limits.max_failures (n + 1)
        then OtpVerificationStatus.too_many_attempts
        else OtpVerificationStatus.invalid_otp),
    expire (otp_failure_key phone) limits.failure_window (incr (otp_failure_key phone) s),
  )

  abbrev accept : OtpRequest → State → Option OtpVerificationStatus × State
  accept q s = (
    some OtpVerificationStatus.verified,
    del (otp_failure_key q.phone)
        (del (otp_active_challenge_key q.phone) (del (otp_challenge_key q.phone q.challenge_id) s)),
  )

  -- VERIFY_OTP_SCRIPT with the keys and arguments of `verifyOtpAtomically`; none is a Lua error.
  unfoldable pub verify_otp_script :
      OtpLimits → OtpRequest → State → Option OtpVerificationStatus × State
  verify_otp_script limits q s = elim (counter (get (otp_failure_key q.phone) s)) [
    | none ↦ (none, s)
    | some n ↦
        if leb limits.max_failures n
        then (some OtpVerificationStatus.too_many_attempts, s)
        else elim (get (otp_active_challenge_key q.phone) s) [
          | none ↦ (some OtpVerificationStatus.no_active_challenge, s)
          | some active ↦
              if not (is_string active q.challenge_id)
              then (some OtpVerificationStatus.superseded, s)
              else elim (get (otp_challenge_key q.phone q.challenge_id) s) [
                | none ↦ (some OtpVerificationStatus.challenge_missing, s)
                | some value ↦ elim (as_otp_challenge value) [
                  | none ↦ (none, s)
                  | some challenge ↦
                      if not (challenge.phone == q.phone && challenge.device_id == q.device_id)
                      then (some OtpVerificationStatus.invalid_challenge, s)
                      else if not (challenge.code == q.otp)
                      then record_failure limits q.phone n s
                      else accept q s
                ]
              ]
        ]
  ]
