-- ===== src/Tests/Authorizations.antt =====
-- The theorems on authorizations and on the verification of a code, at the small Redis.
use kori.Common.{◌≡◌, refl, true, Option, none, some, ℕ, arith, ℕ_discrete, ◌<◌}
use kori.Common.Result.{ok}
use kori.Common.Text.{Text, text, Text-discrete}
use kori.Auth.Redis.{Value, counter}
use kori.Auth.Otp.Laws.{IsOpen, asking}
use kori.Auth.Proof.{
  AuthorizationConsumeStatus, registration_authorization_key, device_enrollment_authorization_key,
  issue_registration_authorization, consume_registration_authorization,
  issue_device_enrollment_authorization, consume_device_enrollment_authorization,
  consume_authorization, consume_registration_script, consume_device_enrollment_script,
}
use kori.Auth.Proof.Laws.{
  consume_registration_authorization_sound, consume_registration_authorization_once,
  consume_device_enrollment_authorization_sound, consume_device_enrollment_authorization_once,
}
use kori.Auth.SendOtp.{store_challenge, send_to_phone}
use kori.Auth.VerifyOtp.{
  VerifyOtpDto, VerifyOtpResponse, VerifyAnswers, VerifyFresh, verify_otp_atomically, enroll_device,
  verify_otp,
}
use kori.Auth.VerifyOtp.Laws.{Outcome, verify_otp_sound}
use kori.Domain.PhoneNumber.{PhoneNumber}
use kori.Domain.PhoneNumber
use kori.Schema.{Db}
use kori.Tests.Data.{opened, bank, any_number, alice}
use kori.Auth.Otp.{otp_failure_key, verify_otp_script}
use kori.Tests.Server.{table, config, phone, empty, sent, hash}

abbrev registered : Text → Option Value
registered =
    (issue_registration_authorization table hash true 900 (text "tok") phone (text "dev") empty).1

registration_consumed :
    (consume_registration_authorization table hash true phone
      (text "dev")
      (text "tok")
      registered).0
    ≡ ok AuthorizationConsumeStatus.consumed
unfolding issue_registration_authorization consume_registration_authorization consume_authorization
    consume_registration_script text Text-discrete ℕ_discrete
registration_consumed = refl

consume_registration_authorization_sound_example :
    (registered (registration_authorization_key phone)
      ≡ some (
          Value.registration
            (record { token_hash = hash (text "tok"); phone = phone; device_id = text "dev" })))
    × ((consume_registration_authorization table hash true phone
          (text "dev")
          (text "tok")
          registered).1
        ≡ table.del (registration_authorization_key phone) registered)
consume_registration_authorization_sound_example =
    consume_registration_authorization_sound table hash true phone (text "dev") (text "tok")
      registered registration_consumed

consume_registration_authorization_once_example :
    (consume_registration_authorization table hash true phone (text "dev") (text "tok") registered
      ≡ (
        ok AuthorizationConsumeStatus.consumed,
        table.del (registration_authorization_key phone) registered,
      ))
    × (consume_registration_authorization table hash true phone
          (text "dev")
          (text "tok")
          (table.del (registration_authorization_key phone) registered)
        ≡ (
          ok AuthorizationConsumeStatus.missing,
          table.del (registration_authorization_key phone) registered,
        ))
consume_registration_authorization_once_example =
    consume_registration_authorization_once table hash 900 5 phone (text "dev") (text "tok")
      (text "dev") (text "tok") empty (omega arith)

abbrev enrolled : Text → Option Value
enrolled =
    (issue_device_enrollment_authorization table hash true 900 (text "tok") (text "u1") phone
      (text "dev") empty).1

enrollment_consumed :
    (consume_device_enrollment_authorization table hash true
      (text "u1")
      phone
      (text "dev")
      (text "tok")
      enrolled).0
    ≡ ok AuthorizationConsumeStatus.consumed
unfolding issue_device_enrollment_authorization consume_device_enrollment_authorization
    consume_authorization consume_device_enrollment_script text Text-discrete ℕ_discrete
enrollment_consumed = refl

consume_device_enrollment_authorization_sound_example :
    (enrolled (device_enrollment_authorization_key phone)
      ≡ some (
          Value.enrollment (record {
            token_hash = hash (text "tok");
            user_id = text "u1";
            phone = phone;
            device_id = text "dev";
          })))
    × ((consume_device_enrollment_authorization table hash true
          (text "u1")
          phone
          (text "dev")
          (text "tok")
          enrolled).1
        ≡ table.del (device_enrollment_authorization_key phone) enrolled)
consume_device_enrollment_authorization_sound_example =
    consume_device_enrollment_authorization_sound table hash true (text "u1") phone (text "dev")
      (text "tok") enrolled enrollment_consumed

consume_device_enrollment_authorization_once_example :
    (consume_device_enrollment_authorization table hash true
        (text "u1")
        phone
        (text "dev")
        (text "tok")
        enrolled
      ≡ (
        ok AuthorizationConsumeStatus.consumed,
        table.del (device_enrollment_authorization_key phone) enrolled,
      ))
    × (consume_device_enrollment_authorization table hash true
          (text "u2")
          phone
          (text "dev")
          (text "tok")
          (table.del (device_enrollment_authorization_key phone) enrolled)
        ≡ (
          ok AuthorizationConsumeStatus.missing,
          table.del (device_enrollment_authorization_key phone) enrolled,
        ))
consume_device_enrollment_authorization_once_example =
    consume_device_enrollment_authorization_once table hash 900 5 (text "u1") phone (text "dev")
      (text "tok") (text "u2") (text "dev") (text "tok") empty (omega arith)

-- Alice's login has given her device an enrollment authorization, and she types her code.
abbrev token : Text
token = text "token"

abbrev ready : Text → Option Value
ready =
    (issue_device_enrollment_authorization table hash true 900 token alice phone (text "dev")
      sent).1

abbrev verification : VerifyOtpDto
verification = record {
  phone = phone;
  device_id = text "dev";
  otp = text "123456";
  challenge_id = text "c1";
  device_enrollment_token = some token;
}

abbrev all_answer : VerifyAnswers
all_answer = record { script = true; consume = true; issue = true }

abbrev fresh : VerifyFresh
fresh = record { token = text "new"; id = text "d1"; now = 9; ttl = 900 }

abbrev device_verified : VerifyOtpResponse
device_verified = record {
  message = text "Device verified. Please login again.";
  is_registered = true;
  registration_authorization = none;
}

abbrev later : Db
later = (verify_otp table hash all_answer fresh config.limits any_number verification bank ready).1

abbrev after : Text → Option Value
after = (verify_otp table hash all_answer fresh config.limits any_number verification bank ready).2

verified_alice :
    verify_otp table hash all_answer fresh config.limits any_number verification bank ready
    ≡ (ok device_verified, later, after)
unfolding opened send_to_phone store_challenge verify_otp_script
    issue_device_enrollment_authorization consume_device_enrollment_authorization
    consume_authorization consume_device_enrollment_script verify_otp_atomically enroll_device
    verify_otp
verified_alice = refl

verify_otp_sound_example :
    (number : PhoneNumber) × (PhoneNumber.from any_number phone ≡ ok number)
    × ((n : ℕ) × (counter (ready (otp_failure_key number.phone)) ≡ some n) × (n < 2))
    × IsOpen table number.phone (text "dev") (text "c1") (text "123456") ready
    × Outcome table hash fresh number.phone verification bank
        (verify_otp_script table config.limits
          (asking number.phone (text "dev") (text "c1") (text "123456"))
          ready).1
        device_verified
        later
        after
verify_otp_sound_example =
    verify_otp_sound table hash all_answer fresh config.limits any_number verification bank ready
      device_verified later after (omega arith) verified_alice
