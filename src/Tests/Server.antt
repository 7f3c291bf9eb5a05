-- ===== src/Tests/Server.antt =====
-- A Redis whose state is a function, a code that was sent to a phone, and a hash of tokens.
use kori.Common.{◌≡◌, ◌≢◌, refl, true, Option, none, some, ℕ, ◌+◌, arith, if◌then◌else◌, inl, ◌∙◌}
use mathlib.Core.List.{reverse}
use kori.Common.Text.{Text, text, ◌==◌}
use kori.Auth.Redis.{Redis, Value, counter}
use kori.Auth.SendOtp.{SendAnswers, OtpConfig, send_to_phone}

abbrev pub set_at : Text → Option Value → (Text → Option Value) → Text → Option Value
set_at k v s l = if k == l then v else s l

abbrev pub next : Option Value → Option Value
next v = elim (counter v) [ none ↦ none | some n ↦ some (Value.number (n + 1)) ]

pub set_at-same : (k : Text) (v : Option Value) (s : Text → Option Value) → set_at k v s k ≡ v
set_at-same k v s = ground arith

pub set_at-other :
    (k l : Text) (v : Option Value) (s : Text → Option Value) → k ≢ l → set_at k v s l ≡ s l
set_at-other k l v s h = ground arith

pub next_count :
    (v : Option Value) (n : ℕ) → counter v ≡ some n → next v ≡ some (Value.number (n + 1))
next_count v n h = ground arith

abbrev pub table : Redis
table = record {
  State = Text → Option Value;
  get = λ k s. s k;
  set = λ k v ttl s. set_at k (some v) s;
  del = λ k s. set_at k none s;
  incr = λ k s. set_at k (next (s k)) s;
  expire = λ k ttl s. s;
  elapse = λ n s. s;
  get-set = λ k v ttl s alive. set_at-same k (some v) s;
  get-set-other = λ k l v ttl s other. set_at-other k l (some v) s other;
  get-del = λ k s. set_at-same k none s;
  get-del-other = λ k l s other. set_at-other k l none s other;
  get-incr = λ k n s h. set_at-same k (next (s k)) s ∙ next_count (s k) n h;
  get-incr-other = λ k l s other. set_at-other k l (next (s k)) s other;
  get-expire = λ k l ttl s alive. refl;
  get-elapse = λ k n s. inl refl;
}

abbrev pub answering : SendAnswers
answering = record {
  get_failures = true;
  set_resend = true;
  get_resend = true;
  set_challenge = true;
  del_resend = true;
  set_active = true;
  del_challenge = true;
}

abbrev pub config : OtpConfig
config = record {
  otp_ttl = 180;
  otp_resend_cooldown = 60;
  limits = record { max_failures = 2; failure_window = 300 };
}

abbrev pub phone : Text
phone = text "+8801"

abbrev pub empty : Text → Option Value
empty k = none

-- A code is sent to a phone, as challenge c1.
abbrev pub sent : Text → Option Value
sent = (send_to_phone table answering config phone (text "dev") (text "c1") (text "123456") empty).1

-- The token's hash is the token reversed here.
abbrev pub hash : Text → Text
hash t = reverse t
