-- ===== src/Auth/Redis.antt =====
-- The Redis server, as the scripts and services of backend/src/modules/auth use it: its commands
-- on an abstract state, and the documented behaviour that the code relies on. Values are the JSON
-- values that the services store.
use kori.Common.{◌≡◌, ◌≢◌, ◌⊎◌, Option, none, some, ℕ, ◌+◌, ◌<◌, Bool, false}
use kori.Common.Text.{Text, ◌==◌}

pub record OtpChallenge : Type 0 where
  pub phone : Text
  pub device_id : Text
  pub code : Text

pub record RegistrationAuthorizationState : Type 0 where
  pub token_hash : Text
  pub phone : Text
  pub device_id : Text

pub record DeviceEnrollmentAuthorizationState : Type 0 where
  pub token_hash : Text
  pub user_id : Text
  pub phone : Text
  pub device_id : Text

pub data Value : Type 0 where
  flag : Value
  number : ℕ → Value
  string : Text → Value
  otp_challenge : OtpChallenge → Value
  registration : RegistrationAuthorizationState → Value
  enrollment : DeviceEnrollmentAuthorizationState → Value
  -- The JSON text of a response.
  response : Text → Value

-- The count at a key, where an absent key counts as 0; none for a value that is no number.
abbrev pub counter : Option Value → Option ℕ
counter none = some 0
counter (some (number n)) = some n
counter (some flag) = none
counter (some (string _)) = none
counter (some (otp_challenge _)) = none
counter (some (registration _)) = none
counter (some (enrollment _)) = none
counter (some (response _)) = none

abbrev pub is_string : Value → Text → Bool
is_string (string t) id = t == id
is_string flag id = false
is_string (number _) id = false
is_string (otp_challenge _) id = false
is_string (registration _) id = false
is_string (enrollment _) id = false
is_string (response _) id = false

abbrev pub as_otp_challenge : Value → Option OtpChallenge
as_otp_challenge (otp_challenge c) = some c
as_otp_challenge flag = none
as_otp_challenge (number _) = none
as_otp_challenge (string _) = none
as_otp_challenge (registration _) = none
as_otp_challenge (enrollment _) = none
as_otp_challenge (response _) = none

abbrev pub as_registration : Value → Option RegistrationAuthorizationState
as_registration (registration r) = some r
as_registration flag = none
as_registration (number _) = none
as_registration (string _) = none
as_registration (otp_challenge _) = none
as_registration (enrollment _) = none
as_registration (response _) = none

abbrev pub as_enrollment : Value → Option DeviceEnrollmentAuthorizationState
as_enrollment (enrollment e) = some e
as_enrollment flag = none
as_enrollment (number _) = none
as_enrollment (string _) = none
as_enrollment (otp_challenge _) = none
as_enrollment (registration _) = none
as_enrollment (response _) = none

-- GET, SET with EX, DEL, INCR, EXPIRE, and the passing of time, which may end a key.
pub record Redis : Type 1 where
  pub State : Type 0
  pub get : Text → State → Option Value
  pub set : Text → Value → ℕ → State → State
  pub del : Text → State → State
  pub incr : Text → State → State
  pub expire : Text → ℕ → State → State
  pub elapse : ℕ → State → State
  pub get-set :
      (k : Text) (v : Value) (ttl : ℕ) (s : State) → 0 < ttl → get k (set k v ttl s) ≡ some v
  pub get-set-other :
      (k l : Text) (v : Value) (ttl : ℕ) (s : State) → k ≢ l → get l (set k v ttl s) ≡ get l s
  pub get-del : (k : Text) (s : State) → get k (del k s) ≡ none
  pub get-del-other : (k l : Text) (s : State) → k ≢ l → get l (del k s) ≡ get l s
  pub get-incr :
      (k : Text) (n : ℕ) (s : State)
      → counter (get k s) ≡ some n
      → get k (incr k s) ≡ some (number (n + 1))
  pub get-incr-other : (k l : Text) (s : State) → k ≢ l → get l (incr k s) ≡ get l s
  pub get-expire : (k l : Text) (ttl : ℕ) (s : State) → 0 < ttl → get l (expire k ttl s) ≡ get l s
  pub get-elapse :
      (k : Text) (n : ℕ) (s : State) → (get k (elapse n s) ≡ get k s) ⊎ (get k (elapse n s) ≡ none)
