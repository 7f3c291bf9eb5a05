-- ===== src/Auth/Otp/Lockout.antt =====
-- Wrong codes lock a phone number out.
use kori.Common.{◌≡◌, ◌≢◌, sym, ◌∙◌, ap, subst, some, List, [], ◌∷◌, arith, ℕ, ◌<◌, ◌+◌, All}
use kori.Common.Text.{Text, length}
use kori.Auth.Redis.{Redis, counter}
use kori.Auth.Otp.{
  OtpVerificationStatus, OtpRequest, OtpLimits, otp_challenge_key, otp_active_challenge_key,
  otp_failure_key, verify_otp_script,
}
use kori.Auth.Otp.Laws.{
  IsOpen, asking, locked_script, wrong_script, failure≢active, failure≢challenge,
}

module _ (R : Redis) where
  open R use {State, get, incr, expire}

  -- Attempts at an open challenge, one after the other.
  unfoldable pub attempts : OtpLimits → Text → Text → Text → List Text → State → State
  attempts limits phone device_id id [] s = s
  attempts limits phone device_id id (otp ∷ otps) s =
      attempts limits phone device_id id otps
        (verify_otp_script R limits (asking phone device_id id otp) s).1

  failed : OtpLimits → Text → State → State
  failed limits phone s =
      expire (otp_failure_key phone) limits.failure_window (incr (otp_failure_key phone) s)

  failed-IsOpen :
      (limits : OtpLimits) (phone device_id id code : Text) (s : State)
      → 0 < limits.failure_window
      → IsOpen R phone device_id id code s
      → IsOpen R phone device_id id code (failed limits phone s)
  unfolding failed
  failed-IsOpen limits phone device_id id code s window o = record {
    active = o.active;
    found_active = kept (otp_active_challenge_key phone) (failure≢active phone) ∙ o.found_active;
    is_active = o.is_active;
    found = kept (otp_challenge_key phone id) (failure≢challenge phone id) ∙ o.found;
  }
    where
      kept :
          (k : Text)
          → otp_failure_key phone ≢ k
          → get k (
              expire (otp_failure_key phone) limits.failure_window (incr (otp_failure_key phone) s))
            ≡ get k s
      kept k other =
          R.get-expire (otp_failure_key phone) k limits.failure_window _ window
          ∙ R.get-incr-other (otp_failure_key phone) k s other

  failed-counter :
      (limits : OtpLimits) (phone : Text) (n : ℕ) (s : State)
      → 0 < limits.failure_window
      → counter (get (otp_failure_key phone) s) ≡ some n
      → counter (get (otp_failure_key phone) (failed limits phone s)) ≡ some (n + 1)
  unfolding failed
  failed-counter limits phone n s window h = ap counter (
      R.get-expire (otp_failure_key phone) (otp_failure_key phone) limits.failure_window _ window
      ∙ R.get-incr (otp_failure_key phone) n s h)

  -- Wrong codes for an open challenge, as many as the limit leaves, lock the phone number out:
  -- every request that follows, one with the right code as well, is refused and changes nothing.
  pub attempts_lock_out :
      (limits : OtpLimits) (phone device_id id code : Text) (otps : List Text) (n : ℕ) (s : State)
      (q : OtpRequest)
      → 0 < limits.failure_window
      → IsOpen R phone device_id id code s
      → counter (get (otp_failure_key phone) s) ≡ some n
      → n + length otps ≡ limits.max_failures
      → All (λ otp. code ≢ otp) otps
      → q.phone ≡ phone
      → verify_otp_script R limits q (attempts limits phone device_id id otps s)
        ≡ (some OtpVerificationStatus.too_many_attempts, attempts limits phone device_id id otps s)
  unfolding attempts failed
  attempts_lock_out limits phone device_id id code [] n s q window o counted limit wrong same =
      locked_script R limits q n s
        (subst (λ (x : Text). counter (get (otp_failure_key x) s) ≡ some n) (sym same) counted)
        (omega arith)
  attempts_lock_out limits phone device_id id code (otp ∷ otps) n s q window o counted limit wrong
        same =
      subst
        (λ (x : State). verify_otp_script R limits q (attempts limits phone device_id id otps x) ≡ (
          some OtpVerificationStatus.too_many_attempts,
          attempts limits phone device_id id otps x,
        ))
        (sym
          (wrong_script R limits phone device_id id code otp n s counted (omega arith) o wrong.0))
        (attempts_lock_out limits phone device_id id code otps (n + 1) (failed limits phone s) q
          window (failed-IsOpen limits phone device_id id code s window o)
          (failed-counter limits phone n s window counted) (omega arith) wrong.1 same)
