-- ===== src/Tests/Sessions.antt =====
-- The theorems on logins and sessions, at the small database with a device of the first customer.
use kori.Common.{
  ◌≡◌, ◌≢◌, refl, true, false, Option, none, some, ◌≤◌, ◌+◌, [], ◌∷◌, arith, ℕ_discrete,
  if◌then◌else◌, Bool,
}
use kori.Common.Result.{Result, ok, err}
use kori.Common.Table.{some_inj, count}
use kori.Common.Text.{Text, text, Text-discrete, apart}
use kori.Schema.{Db, TrustDevice, User}
use kori.Schema.Enums.{PrismaRole, PrismaAccountStatus}
use kori.Store.{find_user, find_user_by_phone}
use kori.Auth.Redis.{Value}
use kori.Auth.Devices.{is_device_of, IsUniqueDevice}
use kori.Auth.Session.{
  Signer, Pauses, TokensResponse, RefreshTokenPayload, get_tokens, refresh_tokens, session_invalid,
  session_user, rotate, find_device, end_replayed, refuse_refresh, logout_current_session,
}
use kori.Auth.Session.Laws.{Refreshed, IsEnded, refresh_tokens_sound}
use kori.Auth.Session.Replay.{refresh_tokens_replay}
use kori.Auth.Login.{
  AuthCredentialsDto, LoginConfig, LoginAnswers, LoginFresh, login_failure_key, login_throttle_key,
  login_phone, too_many_logins, clear_login_failure_state, establish_session, find_trusted,
  start_session, assert_login_not_throttled, login_user,
}
use kori.Auth.Login.Laws.{Started, login_sound}
use kori.Auth.Login.Throttle.{is_right, logins, logins_lock_out}
use kori.System.{Step, Run}
use kori.System.Sessions.{ended_for_good}
use kori.Tests.Data.{opened, bank, alice, user}
use kori.Tests.Server.{table, hash, phone, empty}

abbrev pub device : TrustDevice
device = record {
  id = text "d1";
  device_id = text "dev";
  user_id = alice;
  is_authorized = true;
  refresh_session_id = some (text "s1");
  current_refresh_jti = some (text "j1");
  last_used_at = 0;
  created_at = 0;
}

abbrev pub with_device : Db
with_device = record bank { trust_devices = device ∷ [] }

abbrev pub signer : Signer
signer = record { sign_access = λ c. c.sub; sign_refresh = λ c. c.jti }

abbrev alice_row : User
alice_row = user alice phone PrismaRole.customer PrismaAccountStatus.active

pub one_row : (u d : Text) → IsUniqueDevice u d with_device
unfolding count
one_row u d = alone (is_device_of u d device)
  where
    alone : (b : Bool) → (if b then 1 else 0) + 0 ≤ 1
    alone b = ground arith

abbrev pub login_config : LoginConfig
login_config = record {
  max_failures = 2;
  failure_window = 300;
  throttle_seconds = 600;
  enrollment_ttl = 60;
}

abbrev pub all_answer : LoginAnswers
all_answer = record {
  get_throttle = true;
  increment = true;
  set_throttle = true;
  del_failures = true;
  del_throttle = true;
  issue = true;
}

-- The PIN is the stored text itself here.
abbrev pub is_pin : Text → Text → Bool
is_pin pin stored = elim (Text-discrete pin stored) [ yes _ ↦ true | no _ ↦ false ]

abbrev login_fresh : LoginFresh
login_fresh = record {
  sid = text "s2";
  jti = text "j2";
  token = text "tok";
  now = 9;
  between = λ d. d;
}

abbrev pub right_pin : AuthCredentialsDto
right_pin = record { phone = phone; pin = text "hash"; device_id = text "dev" }

abbrev wrong_pin : AuthCredentialsDto
wrong_pin = record right_pin { pin = text "1234" }

abbrev logged_in : Result TokensResponse × Db × (Text → Option Value)
logged_in =
    login_phone table hash login_config all_answer signer is_pin login_fresh phone right_pin
      with_device empty

abbrev tokens : TokensResponse
tokens = get_tokens signer alice_row (text "dev") (text "s2") (text "j2")

logs_in : logged_in ≡ (ok tokens, logged_in.1, logged_in.2)
unfolding opened login_phone assert_login_not_throttled login_user find_trusted start_session
    establish_session clear_login_failure_state
logs_in = refl

login_sound_example :
    (empty (login_throttle_key phone) ≡ none)
    × ((u : User) × (find_user_by_phone phone with_device ≡ some u)
        × (is_pin (text "hash") u.pin ≡ true)
        × (u.status ≡ PrismaAccountStatus.active)
        × Started signer login_fresh u (text "dev") with_device tokens logged_in.1)
    × (logged_in.2 (login_failure_key phone) ≡ none)
    × (logged_in.2 (login_throttle_key phone) ≡ none)
login_sound_example =
    login_sound table hash login_config all_answer signer is_pin login_fresh phone right_pin
      with_device empty tokens logged_in.1 logged_in.2 one_row refl refl logs_in

wrong : is_pin (text "1234") (text "hash") ≡ false
unfolding text Text-discrete ℕ_discrete
wrong = refl

is_wrong : is_right is_pin phone with_device (text "1234") ≡ false
unfolding opened
is_wrong = refl

-- Two wrong logins, and a right one.
logins_lock_out_example :
    login_phone table hash login_config all_answer signer is_pin login_fresh phone right_pin
      with_device
      (logins table hash login_config all_answer signer is_pin login_fresh phone
        (wrong_pin ∷ wrong_pin ∷ [])
        with_device
        empty)
    ≡ (
      err too_many_logins,
      with_device,
      logins table hash login_config all_answer signer is_pin login_fresh phone
          (wrong_pin ∷ wrong_pin ∷ [])
          with_device
          empty,
    )
logins_lock_out_example =
    logins_lock_out table hash login_config all_answer signer is_pin login_fresh login_fresh phone
      wrong_pin (wrong_pin ∷ []) with_device with_device 0 empty right_pin
      (record { get_throttle = refl; increment = refl; set_throttle = refl }) (omega arith)
      (omega arith) refl refl refl (is_wrong, (is_wrong, tt))

abbrev pub token : RefreshTokenPayload
token = record { sub = alice; device_id = text "dev"; sid = text "s1"; jti = text "j1" }

-- No other request runs.
abbrev pub alone : Pauses
alone = record { after_user = λ d. d; after_rotation = λ d. d; after_lookup = λ d. d }

abbrev refreshed : Result TokensResponse × Db
refreshed = refresh_tokens signer alone (text "j2") 9 token with_device

abbrev new_tokens : TokensResponse
new_tokens = get_tokens signer alice_row (text "dev") (text "s1") (text "j2")

refreshes : refreshed ≡ (ok new_tokens, refreshed.1)
unfolding opened refresh_tokens session_user rotate refuse_refresh find_device end_replayed
refreshes = refl

refresh_tokens_sound_example :
    Refreshed signer (text "j2") token with_device with_device new_tokens refreshed.1
refresh_tokens_sound_example =
    refresh_tokens_sound signer alone (text "j2") 9 token with_device new_tokens refreshed.1
      (one_row alice (text "dev")) refreshes

still_there : find_user alice refreshed.1 ≡ some alice_row
unfolding opened refresh_tokens session_user rotate refuse_refresh find_device end_replayed
still_there = refl

differs : text "j2" ≢ text "j1"
unfolding opened
differs = apart _ _ refl

refresh_tokens_replay_example :
    ((refresh_tokens signer alone (text "j3") 10 token refreshed.1).0 ≡ err session_invalid)
    × IsEnded token (refresh_tokens signer alone (text "j3") 10 token refreshed.1).1
refresh_tokens_replay_example =
    refresh_tokens_replay signer alone alone (text "j2") (text "j3") 9 10 token with_device
      refreshed.1 refreshed.1 new_tokens alice_row (one_row alice (text "dev")) refreshes differs
      (record { rotation = λ d. refl; lookup = λ d. refl }) refl still_there refl

abbrev logged_out : Db
logged_out = (logout_current_session true token with_device).1

is_ended : IsEnded token logged_out
unfolding opened logout_current_session
is_ended = refl

new_session : some (text "s2") ≢ some (text "s1")
unfolding opened
new_session h = apart (text "s2") (text "s1") refl (some_inj h)

-- After a logout and a login with another session, the old token is refused.
ended_for_good_example :
    (refresh_tokens signer alone
      (text "j3")
      10
      token
      (establish_session alice (text "dev") (text "s2") (text "j2") 9 logged_out).1).0
    ≡ err session_invalid
ended_for_good_example =
    ended_for_good {sids = some (text "s2") ∷ []} {more = []} token signer alone (text "j3") 10
      is_ended (new_session, tt) tt
      (Run.next (Run.idle logged_out)
        (Step.login alice (text "dev") (text "s2") (text "j2") 9 logged_out))
      (Run.idle _)
