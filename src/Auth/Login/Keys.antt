-- ===== src/Auth/Login/Keys.antt =====
-- The two keys of a phone number in Redis are different.
use kori.Common.{◌≢◌, ap, ℕ, [], ◌∷◌, ◌++◌, arith}
use kori.Common.Text.{Text, text}
use kori.Auth.Otp.Laws.{++-cancel}
use kori.Auth.Login.{login_prefix, login_failure_key, login_throttle_key}

apart : (phone : Text) → text "failures:" ++ phone ≢ text "throttle:" ++ phone
unfolding text
apart phone h = clash (ap first h)
  where
    first : Text → ℕ
    first [] = 0
    first (c ∷ t) = c

    clash : first (text "f") ≢ first (text "t")
    clash e = omega arith

pub failures≢throttle : (phone : Text) → login_failure_key phone ≢ login_throttle_key phone
failures≢throttle phone h = apart phone (++-cancel login_prefix _ _ h)
