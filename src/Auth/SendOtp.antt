-- ===== src/Auth/SendOtp.antt =====
-- `sendOtp` of backend/src/modules/auth/services/otp.service.ts. The challenge id and the code are
-- arguments; the flags of `SendAnswers` say which calls Redis answers.
pub mod Laws
use kori.Common.{Bool, true, false, Option, none, some, ℕ, not, ◌&&◌, if◌then◌else◌, leb, is_some}
use kori.Common.Result.{Result, ok, err, Exception, too_many_requests, service_unavailable}
use kori.Common.Text.{Text, text}
use kori.Domain.PhoneNumber.{PhoneParser, PhoneNumber}
use kori.Domain.PhoneNumber
use kori.Auth.Redis.{Redis, Value, counter}
use kori.Auth.RedisService.{set_ex, set_nx, del}
use kori.Auth.Otp.{
  OtpLimits, otp_challenge_key, otp_active_challenge_key, otp_resend_key, otp_failure_key,
}

pub record SendOtpDto : Type 0 where
  pub phone : Text
  pub device_id : Text

pub record SendOtpResponse : Type 0 where
  pub message : Text
  pub expires_in : ℕ
  pub challenge_id : Text

pub record SendAnswers : Type 0 where
  pub get_failures : Bool
  pub set_resend : Bool
  pub get_resend : Bool
  pub set_challenge : Bool
  pub del_resend : Bool
  pub set_active : Bool
  pub del_challenge : Bool

-- The configuration: OTP_TTL, OTP_RESEND_COOLDOWN_SECONDS, and the limits.
pub record OtpConfig : Type 0 where
  pub otp_ttl : ℕ
  pub otp_resend_cooldown : ℕ
  pub limits : OtpLimits

abbrev unavailable : Exception
unavailable = service_unavailable (text "Authentication service temporarily unavailable.")

abbrev pub please_wait : Exception
please_wait = too_many_requests (text "Please wait before requesting another OTP.")

abbrev pub locked_out : Exception
locked_out = too_many_requests (text "Too many invalid OTP attempts. Try again later.")

-- `failureCount >= OTP_MAX_FAILURES`; only numbers are stored at the key.
abbrev at_limit : ℕ → Option ℕ → Bool
at_limit max none = false
at_limit max (some n) = leb max n

module _ (R : Redis) where
  open R use {State, get}

  -- The refusal when the cooldown was not acquired.
  abbrev resend_refusal : SendAnswers → Text → State → Exception
  resend_refusal a phone s =
      if not a.get_resend
      then service_unavailable (text "Authentication service temporary unavailable")
      else if is_some (get (otp_resend_key phone) s)
      then please_wait
      else unavailable

  -- Storing the challenge, then marking it active; a failure takes back what was stored.
  unfoldable pub store_challenge :
      SendAnswers → OtpConfig → Text → Text → Text → Text → State → Result SendOtpResponse × State
  store_challenge a config phone device_id challenge_id code s =
      let (stored, s₁) =
        set_ex R a.set_challenge (otp_challenge_key phone challenge_id)
          (Value.otp_challenge (record { phone = phone; device_id = device_id; code = code }))
          config.otp_ttl s in
      if not stored
      then (err unavailable, del R a.del_resend (otp_resend_key phone) s₁)
      else (let (marked, s₂) =
            set_ex R a.set_active (otp_active_challenge_key phone) (Value.string challenge_id)
              config.otp_ttl s₁ in
          if not marked
          then (
            err unavailable,
            del R a.del_resend (otp_resend_key phone)
                (del R a.del_challenge (otp_challenge_key phone challenge_id) s₂),
          )
          else (
            ok (record {
              message = text "OTP sent successfully. It will expire in 3 minutes.";
              expires_in = config.otp_ttl;
              challenge_id = challenge_id;
            }),
            s₂,
          ))

  unfoldable pub send_to_phone :
      SendAnswers → OtpConfig → Text → Text → Text → Text → State → Result SendOtpResponse × State
  unfolding store_challenge
  send_to_phone a config phone device_id challenge_id code s =
      if not a.get_failures
      then (err (service_unavailable (text "Authentication service temporary unavailable")), s)
      else if at_limit config.limits.max_failures (counter (get (otp_failure_key phone) s))
      then (err locked_out, s)
      else (let (acquired, s₁) =
            set_nx R a.set_resend (otp_resend_key phone) Value.flag config.otp_resend_cooldown s in
          if not acquired
          then (err (resend_refusal a phone s₁), s₁)
          else store_challenge a config phone device_id challenge_id code s₁)

  unfoldable pub send_otp :
      SendAnswers
      → OtpConfig
      → PhoneParser
      → Text
      → Text
      → SendOtpDto
      → State
      → Result SendOtpResponse × State
  unfolding send_to_phone
  send_otp a config parse challenge_id code dto s = elim (PhoneNumber.from parse dto.phone) [
    | err e ↦ (err e, s)
    | ok number ↦ send_to_phone a config number.phone dto.device_id challenge_id code s
  ]
