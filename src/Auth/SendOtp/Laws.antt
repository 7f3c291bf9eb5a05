-- ===== src/Auth/SendOtp/Laws.antt =====
-- What a code that was sent allows, and what it ends.
use kori.Common.{
  ◌≡◌, ◌≢◌, refl, sym, ◌∙◌, ap, subst, true, Option, some, arith, ℕ, ◌<◌, ◌++◌, ℕ_discrete,
}
use kori.Common.Result.{ok, err}
use kori.Common.Text.{Text, text, apart, Text-discrete}
use kori.Auth.Redis.{Redis, Value, counter, is_string}
use kori.Auth.Otp.{
  OtpVerificationStatus, OtpRequest, OtpLimits, otp_challenge_key, otp_active_challenge_key,
  otp_prefix, otp_resend_key, otp_failure_key, verify_otp_script,
}
use kori.Auth.Otp.Laws.{
  IsOpen, asking, verify_otp_script_accepts, failure≢active, failure≢challenge, active≢challenge,
  ++-cancel,
}
use kori.Auth.SendOtp.{
  SendOtpResponse, SendAnswers, OtpConfig, store_challenge, send_to_phone, please_wait,
}

resend≢active : (phone : Text) → otp_resend_key phone ≢ otp_active_challenge_key phone
unfolding text Text-discrete ℕ_discrete
resend≢active phone h =
    apart (text "resend") (text "active") refl (++-cancel (otp_prefix phone) _ _ h)

resend≢challenge : (phone id : Text) → otp_resend_key phone ≢ otp_challenge_key phone id
unfolding text
resend≢challenge phone id h = clash (++-cancel (otp_prefix phone) _ _ h)
  where
    clash : text "resend" ≢ text "challenge:" ++ id
    clash e = cc

resend≢failure : (phone : Text) → otp_resend_key phone ≢ otp_failure_key phone
unfolding text
resend≢failure phone h = clash (++-cancel (otp_prefix phone) _ _ h)
  where
    clash : text "resend" ≢ text "failures"
    clash e = cc

module _ (R : Redis) where
  open R use {State, get, set}

  abbrev stored_challenge : Text → Text → Text → Value
  stored_challenge phone device_id code =
      Value.otp_challenge (record { phone = phone; device_id = device_id; code = code })

  -- What a successful call has stored, one key after the other.
  abbrev sent : OtpConfig → Text → Text → Text → Text → State → State
  sent config phone device_id id code s =
      set (otp_active_challenge_key phone) (Value.string id) config.otp_ttl (
        set (otp_challenge_key phone id) (stored_challenge phone device_id code) config.otp_ttl
          (set (otp_resend_key phone) Value.flag config.otp_resend_cooldown s))

  send_ok :
      (a : SendAnswers) (config : OtpConfig) (phone device_id id code : Text) (s : State)
      (r : SendOtpResponse) (s' : State)
      → send_to_phone R a config phone device_id id code s ≡ (ok r, s')
      → s' ≡ sent config phone device_id id code s
  unfolding send_to_phone store_challenge
  send_ok a config phone device_id id code s r s' h = ground arith

  sent-failures :
      (config : OtpConfig) (phone device_id id code : Text) (s : State)
      → get (otp_failure_key phone) (sent config phone device_id id code s)
        ≡ get (otp_failure_key phone) s
  sent-failures config phone device_id id code s =
      R.get-set-other _ _ _ _ _ (λ e. failure≢active phone (sym e))
      ∙ R.get-set-other _ _ _ _ _ (λ e. failure≢challenge phone id (sym e))
      ∙ R.get-set-other _ _ _ _ _ (resend≢failure phone)

  sent-active :
      (config : OtpConfig) (phone device_id id code : Text) (s : State)
      → 0 < config.otp_ttl
      → get (otp_active_challenge_key phone) (sent config phone device_id id code s)
        ≡ some (Value.string id)
  sent-active config phone device_id id code s alive = R.get-set _ _ _ _ alive

  same_id : (id : Text) → is_string (Value.string id) id ≡ true
  same_id id = ground arith

  sent-IsOpen :
      (config : OtpConfig) (phone device_id id code : Text) (s : State)
      → 0 < config.otp_ttl
      → IsOpen R phone device_id id code (sent config phone device_id id code s)
  sent-IsOpen config phone device_id id code s alive = record {
    active = Value.string id;
    found_active = sent-active config phone device_id id code s alive;
    is_active = same_id id;
    found = R.get-set-other _ _ _ _ _ (active≢challenge phone id) ∙ R.get-set _ _ _ _ alive;
  }

  superseded_script :
      (limits : OtpLimits) (q : OtpRequest) (id : Text) (n : ℕ) (s : State)
      → counter (get (otp_failure_key q.phone) s) ≡ some n
      → n < limits.max_failures
      → get (otp_active_challenge_key q.phone) s ≡ some (Value.string id)
      → id ≢ q.challenge_id
      → verify_otp_script R limits q s ≡ (some OtpVerificationStatus.superseded, s)
  unfolding verify_otp_script
  superseded_script limits q id n s counted low found other =
      ground (arith, counted, low, found, other)

  -- A code that has been sent verifies on the device that asked for it, as long as the count of
  -- failures is below the limit; and a request for any other challenge of the phone number is
  -- refused as superseded.
  pub send_to_phone_opens :
      (a : SendAnswers) (config : OtpConfig) (phone device_id id code : Text) (s : State)
      (r : SendOtpResponse) (s' : State) (n : ℕ) (other_device other_id otp : Text)
      → 0 < config.otp_ttl
      → send_to_phone R a config phone device_id id code s ≡ (ok r, s')
      → counter (get (otp_failure_key phone) s) ≡ some n
      → n < config.limits.max_failures
      → id ≢ other_id
      → ((verify_otp_script R config.limits (asking phone device_id id code) s').0
          ≡ some OtpVerificationStatus.verified)
        × (verify_otp_script R config.limits (asking phone other_device other_id otp) s'
            ≡ (some OtpVerificationStatus.superseded, s'))
  send_to_phone_opens a config phone device_id id code s r s' n other_device other_id otp alive h
        counted low other =
      subst
        (λ (x : State).
          ((verify_otp_script R config.limits (asking phone device_id id code) x).0
            ≡ some OtpVerificationStatus.verified)
          × (verify_otp_script R config.limits (asking phone other_device other_id otp) x
              ≡ (some OtpVerificationStatus.superseded, x)))
        (sym (send_ok a config phone device_id id code s r s' h))
        (
          ap (λ (p : Option OtpVerificationStatus × State). p.0)
              (verify_otp_script_accepts R config.limits phone device_id id code n _ counted_after
                low (sent-IsOpen config phone device_id id code s alive)),
          superseded_script config.limits (asking phone other_device other_id otp) id n _
              counted_after low (sent-active config phone device_id id code s alive) other,
        )
    where
      counted_after :
          counter (get (otp_failure_key phone) (sent config phone device_id id code s)) ≡ some n
      counted_after = ap counter (sent-failures config phone device_id id code s) ∙ counted

  sent-resend :
      (config : OtpConfig) (phone device_id id code : Text) (s : State)
      → 0 < config.otp_resend_cooldown
      → get (otp_resend_key phone) (sent config phone device_id id code s) ≡ some Value.flag
  sent-resend config phone device_id id code s cooling =
      R.get-set-other _ _ _ _ _ (λ e. resend≢active phone (sym e))
      ∙ R.get-set-other _ _ _ _ _ (λ e. resend≢challenge phone id (sym e))
      ∙ R.get-set _ _ _ _ cooling

  cooling_script :
      (b : SendAnswers) (config : OtpConfig) (phone device_id id code : Text) (n : ℕ) (s : State)
      → counter (get (otp_failure_key phone) s) ≡ some n
      → n < config.limits.max_failures
      → get (otp_resend_key phone) s ≡ some Value.flag
      → b.get_failures ≡ true
      → b.get_resend ≡ true
      → send_to_phone R b config phone device_id id code s ≡ (err please_wait, s)
  unfolding send_to_phone
  cooling_script b config phone device_id id code n s counted low cooling first second =
      ground (arith, counted, low, cooling, first, second)

  -- While the cooldown of a code that was sent has not passed, a further request for the phone
  -- number is asked to wait, and changes nothing, if Redis answers the two lookups.
  pub send_to_phone_cools_down :
      (a b : SendAnswers) (config : OtpConfig) (phone device_id id code : Text) (s : State)
      (r : SendOtpResponse) (s' : State) (n : ℕ) (other_device other_id other_code : Text)
      → 0 < config.otp_resend_cooldown
      → send_to_phone R a config phone device_id id code s ≡ (ok r, s')
      → counter (get (otp_failure_key phone) s) ≡ some n
      → n < config.limits.max_failures
      → b.get_failures ≡ true
      → b.get_resend ≡ true
      → send_to_phone R b config phone other_device other_id other_code s' ≡ (err please_wait, s')
  send_to_phone_cools_down a b config phone device_id id code s r s' n other_device other_id
        other_code alive h counted low first second =
      subst
        (λ (x : State).
          send_to_phone R b config phone other_device other_id other_code x ≡ (err please_wait, x))
        (sym (send_ok a config phone device_id id code s r s' h))
        (cooling_script b config phone other_device other_id other_code n _
          (ap counter (sent-failures config phone device_id id code s) ∙ counted) low
          (sent-resend config phone device_id id code s alive) first second)
