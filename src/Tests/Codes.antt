-- ===== src/Tests/Codes.antt =====
-- The theorems on one-time codes, at the small Redis.
use kori.Common.{◌≡◌, ◌≢◌, refl, some, List, [], ◌∷◌, ℕ, arith, ℕ_discrete, ◌<◌}
use kori.Common.Result.{ok, err}
use kori.Common.Text.{Text, text, apart, Text-discrete}
use kori.Auth.Redis.{counter}
use kori.Auth.Otp.Laws.{
  IsOpen, asking, verify_otp_script_sound, verify_otp_script_accepts, verify_otp_script_once,
}
use kori.Auth.Otp.Lockout.{attempts, attempts_lock_out}
use kori.Auth.SendOtp.{SendOtpResponse, store_challenge, send_to_phone, please_wait}
use kori.Auth.SendOtp.Laws.{send_to_phone_opens, send_to_phone_cools_down}
use kori.Auth.Otp.{
  OtpVerificationStatus, OtpRequest, otp_failure_key, otp_active_challenge_key, otp_challenge_key,
  verify_otp_script,
}
use kori.Tests.Server.{table, answering, config, phone, empty, sent}

abbrev sent_response : SendOtpResponse
sent_response = record {
  message = text "OTP sent successfully. It will expire in 3 minutes.";
  expires_in = 180;
  challenge_id = text "c1";
}

code_sent :
    send_to_phone table answering config phone (text "dev") (text "c1") (text "123456") empty
    ≡ (ok sent_response, sent)
unfolding send_to_phone store_challenge text Text-discrete ℕ_discrete
code_sent = refl

other_challenge : text "c1" ≢ text "c2"
unfolding text Text-discrete ℕ_discrete
other_challenge = apart (text "c1") (text "c2") refl

send_to_phone_opens_example :
    ((verify_otp_script table config.limits
        (asking phone (text "dev") (text "c1") (text "123456"))
        sent).0
      ≡ some OtpVerificationStatus.verified)
    × (verify_otp_script table config.limits
          (asking phone (text "dev") (text "c2") (text "123456"))
          sent
        ≡ (some OtpVerificationStatus.superseded, sent))
send_to_phone_opens_example =
    send_to_phone_opens table answering config phone (text "dev") (text "c1") (text "123456") empty
      sent_response sent 0 (text "dev") (text "c2") (text "123456") (omega arith) code_sent refl
      (omega arith) other_challenge

send_to_phone_cools_down_example :
    send_to_phone table answering config phone (text "dev") (text "c2") (text "654321") sent
    ≡ (err please_wait, sent)
send_to_phone_cools_down_example =
    send_to_phone_cools_down table answering answering config phone (text "dev") (text "c1")
      (text "123456") empty sent_response sent 0 (text "dev") (text "c2") (text "654321")
      (omega arith) code_sent refl (omega arith) refl refl

abbrev right : OtpRequest
right = asking phone (text "dev") (text "c1") (text "123456")

right_verified :
    (verify_otp_script table config.limits right sent).0 ≡ some OtpVerificationStatus.verified
unfolding send_to_phone store_challenge verify_otp_script text Text-discrete ℕ_discrete
right_verified = refl

verify_otp_script_sound_example :
    ((n : ℕ) × (counter (sent (otp_failure_key phone)) ≡ some n) × (n < 2))
    × IsOpen table phone (text "dev") (text "c1") (text "123456") sent
verify_otp_script_sound_example =
    verify_otp_script_sound table config.limits right sent right_verified

verify_otp_script_once_example :
    verify_otp_script table config.limits right (verify_otp_script table config.limits right sent).1
    ≡ (
      some OtpVerificationStatus.no_active_challenge,
      (verify_otp_script table config.limits right sent).1,
    )
verify_otp_script_once_example =
    verify_otp_script_once table config.limits right right 7 sent (omega arith) right_verified refl

challenge-IsOpen : IsOpen table phone (text "dev") (text "c1") (text "123456") sent
challenge-IsOpen = verify_otp_script_sound_example.1

no_failures : counter (sent (otp_failure_key phone)) ≡ some 0
unfolding send_to_phone store_challenge text Text-discrete ℕ_discrete
no_failures = refl

verify_otp_script_accepts_example : verify_otp_script table config.limits right sent ≡ (
  some OtpVerificationStatus.verified,
  table.del (otp_failure_key phone) (
      table.del
        (otp_active_challenge_key phone)
        (table.del (otp_challenge_key phone (text "c1")) sent)),
)
verify_otp_script_accepts_example =
    verify_otp_script_accepts table config.limits phone (text "dev") (text "c1") (text "123456") 0
      sent no_failures (omega arith) challenge-IsOpen

abbrev guesses : List Text
guesses = text "000000" ∷ text "000001" ∷ []

wrong_guesses : (text "123456" ≢ text "000000") × ((text "123456" ≢ text "000001") × Unit {0})
unfolding text Text-discrete ℕ_discrete
wrong_guesses =
    (apart (text "123456") (text "000000") refl, (apart (text "123456") (text "000001") refl, tt))

attempts_lock_out_example :
    verify_otp_script table config.limits right
      (attempts table config.limits phone (text "dev") (text "c1") guesses sent)
    ≡ (
      some OtpVerificationStatus.too_many_attempts,
      attempts table config.limits phone (text "dev") (text "c1") guesses sent,
    )
attempts_lock_out_example =
    attempts_lock_out table config.limits phone (text "dev") (text "c1") (text "123456") guesses 0
      sent right (omega arith) challenge-IsOpen no_failures refl wrong_guesses refl
