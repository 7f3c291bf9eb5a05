-- ===== src/Auth/Login/Laws.antt =====
-- What a login that succeeds has shown and done.
use kori.Common.{
  ◌≡◌, refl, sym, ◌∙◌, ap, Bool, true, none, some, arith, Option-cases, inl, inr, ◌&&◌,
}
use kori.Common.Result.{ok}
use kori.Common.Table.{find, update_many, count}
use kori.Common.Text.{Text}
use kori.Domain.Enums.{AccountStatus}
use kori.Mappers.Account.{to_domain_status, to_domain_role}
use kori.Schema.{Db, User, TrustDevice}
use kori.Schema.Enums.{PrismaAccountStatus}
use kori.Store.{find_user_by_phone}
use kori.Auth.Redis.{Redis}
use kori.Auth.Devices.{is_device_of, IsUniqueDevice, update_unique}
use kori.Auth.Session.{Signer, TokensResponse, get_tokens, find_device}
use kori.Auth.Session.Laws.{active_row}
use kori.Auth.RedisService.{del}
use kori.Auth.Login.Keys.{failures≢throttle}
use kori.Auth.Login.{
  AuthCredentialsDto, LoginConfig, LoginAnswers, LoginFresh, login_failure_key, login_throttle_key,
  may_start, with_session, establish_session, find_trusted, start_session,
  assert_login_not_throttled, clear_login_failure_state, login_user, login_phone,
}

-- A session has started on the device of the user, which is authorized; the tokens are those of the
-- user and of the session.
pub record Started (jwt : Signer) (fresh : LoginFresh) (user : User) (device_id : Text) (db : Db)
    (r : TokensResponse) (db' : Db) : Type 0 where
  pub device : TrustDevice
  pub trusted : find_device user.id device_id db ≡ some device
  pub is_authorized : device.is_authorized ≡ true
  pub access :
      r.access_token ≡ jwt.sign_access (record { sub = user.id; role = to_domain_role user.role })
  pub refresh :
      r.refresh_token
      ≡ jwt.sign_refresh
          (record { sub = user.id; device_id = device_id; sid = fresh.sid; jti = fresh.jti })
  pub row : TrustDevice
  pub session : find_device user.id device_id db' ≡ some row
  pub sid : row.refresh_session_id ≡ some fresh.sid
  pub jti : row.current_refresh_jti ≡ some fresh.jti
  pub row_is_authorized : row.is_authorized ≡ true
  pub wallets : db'.wallets ≡ db.wallets
  pub users : db'.users ≡ db.users

abbrev started_db : LoginFresh → User → Text → Db → Db
started_db fresh user device_id db = record db {
  trust_devices =
      update_many (λ d. is_device_of user.id device_id d && may_start db d)
        (with_session fresh.sid fresh.jti fresh.now) db.trust_devices;
}

start_session_ok :
    (jwt : Signer) (fresh : LoginFresh) (user : User) (device_id : Text) (db : Db)
    (r : TokensResponse) (db' : Db)
    → start_session jwt fresh user device_id db ≡ (ok r, db')
    → (count (λ d. is_device_of user.id device_id d && may_start db d) db.trust_devices ≡ 1)
      × (r ≡ get_tokens jwt user device_id fresh.sid fresh.jti)
      × (db' ≡ started_db fresh user device_id db)
unfolding start_session establish_session
start_session_ok jwt fresh user device_id db r db' h = ground arith

authorized_start : (db : Db) (d : TrustDevice) → may_start db d ≡ true → d.is_authorized ≡ true
authorized_start db d h = ground arith

start_session-Started :
    (jwt : Signer) (fresh : LoginFresh) (user : User) (device_id : Text) (db : Db)
    (r : TokensResponse) (db' : Db)
    → IsUniqueDevice user.id device_id db
    → start_session jwt fresh user device_id db ≡ (ok r, db')
    → Started jwt fresh user device_id db r db'
unfolding find_device
start_session-Started jwt fresh user device_id db r db' unique h =
    let (one, tokens, after) = start_session_ok jwt fresh user device_id db r db' h in
    let (d, found, may, kept) =
      update_unique (is_device_of user.id device_id) (may_start db)
        (with_session fresh.sid fresh.jti fresh.now) (λ x. refl) db.trust_devices unique
        (omega arith) in
    record {
      device = d;
      trusted = found;
      is_authorized = authorized_start db d may;
      access = ap (λ (x : TokensResponse). x.access_token) tokens;
      refresh = ap (λ (x : TokensResponse). x.refresh_token) tokens;
      row = with_session fresh.sid fresh.jti fresh.now d;
      sid = refl;
      jti = refl;
      row_is_authorized = authorized_start db d may;
      session = ap (λ (e : Db). find (is_device_of user.id device_id) e.trust_devices) after ∙ kept;
      wallets = ap (λ (e : Db). e.wallets) after;
      users = ap (λ (e : Db). e.users) after;
    }

module _ (R : Redis) (hash_token : Text → Text) where
  open R use {State, get}

  user_ok :
      (config : LoginConfig) (a : LoginAnswers) (jwt : Signer) (fresh : LoginFresh)
      (phone device_id : Text) (user : User) (db : Db) (s : State) (r : TokensResponse) (db' : Db)
      (s' : State)
      → login_user R hash_token config a jwt fresh phone device_id user db s ≡ (ok r, db', s')
      → (to_domain_status user.status ≡ AccountStatus.active)
        × (start_session jwt fresh user device_id (fresh.between db) ≡ (ok r, db'))
        × (s' ≡ clear_login_failure_state R hash_token a phone s)
  unfolding login_user
  user_ok config a jwt fresh phone device_id user db s r db' s' h =
      elim (Option-cases (find_trusted user.id device_id db)) [
        | inl unknown ↦ absurd (ground arith)
        | inr (d, found) ↦ (ground arith, ground arith, ground arith)
      ]

  phone_ok :
      (config : LoginConfig) (a : LoginAnswers) (jwt : Signer) (verify : Text → Text → Bool)
      (fresh : LoginFresh) (phone : Text) (dto : AuthCredentialsDto) (db : Db) (s : State)
      (r : TokensResponse) (db' : Db) (s' : State)
      → login_phone R hash_token config a jwt verify fresh phone dto db s ≡ (ok r, db', s')
      → (get (login_throttle_key phone) s ≡ none)
        × ((user : User) × (find_user_by_phone phone db ≡ some user)
            × (verify dto.pin user.pin ≡ true)
            × (login_user R hash_token config a jwt fresh phone dto.device_id user db s
                ≡ (ok r, db', s')))
  unfolding login_phone assert_login_not_throttled
  phone_ok config a jwt verify fresh phone dto db s r db' s' h =
      elim (Option-cases (find_user_by_phone phone db)) [
        | inl unknown ↦ absurd (ground arith)
        | inr (u, found) ↦ (ground arith, (u, found, ground arith, ground arith))
      ]

  -- What a login that succeeds has found, whichever calls Redis answers at its end.
  pub login_session :
      (config : LoginConfig) (a : LoginAnswers) (jwt : Signer) (verify : Text → Text → Bool)
      (fresh : LoginFresh) (phone : Text) (dto : AuthCredentialsDto) (db : Db) (s : State)
      (r : TokensResponse) (db' : Db) (s' : State)
      → ((u d : Text) → IsUniqueDevice u d (fresh.between db))
      → login_phone R hash_token config a jwt verify fresh phone dto db s ≡ (ok r, db', s')
      → (get (login_throttle_key phone) s ≡ none)
        × ((user : User) × (find_user_by_phone phone db ≡ some user)
            × (verify dto.pin user.pin ≡ true)
            × (to_domain_status user.status ≡ AccountStatus.active)
            × Started jwt fresh user dto.device_id (fresh.between db) r db')
        × (s' ≡ clear_login_failure_state R hash_token a phone s)
  login_session config a jwt verify fresh phone dto db s r db' s' unique h =
      let (free, (user, found, right, rest)) =
        phone_ok config a jwt verify fresh phone dto db s r db' s' h in
      let (active, started, after) =
        user_ok config a jwt fresh phone dto.device_id user db s r db' s' rest in
      (
        free,
        (
          user,
          found,
          right,
          active,
          start_session-Started jwt fresh user dto.device_id (fresh.between db) r db'
              (unique user.id dto.device_id) started,
        ),
        after,
      )

  cleared :
      (a : LoginAnswers) (phone : Text) (s : State)
      → a.del_failures ≡ true
      → a.del_throttle ≡ true
      → (get (login_failure_key phone) (clear_login_failure_state R hash_token a phone s) ≡ none)
        × (get (login_throttle_key phone) (clear_login_failure_state R hash_token a phone s) ≡ none)
  unfolding clear_login_failure_state
  cleared a phone s failures throttle = (
    ap (get (login_failure_key phone)) both
        ∙ (R.get-del-other (login_throttle_key phone) (login_failure_key phone)
              (R.del (login_failure_key phone) s) (λ e. failures≢throttle phone (sym e))
            ∙ R.get-del (login_failure_key phone) s),
    ap (get (login_throttle_key phone)) both
        ∙ R.get-del (login_throttle_key phone) (R.del (login_failure_key phone) s),
  )
    where
      both :
          del R a.del_throttle
            (login_throttle_key phone)
            (del R a.del_failures (login_failure_key phone) s)
          ≡ R.del (login_throttle_key phone) (R.del (login_failure_key phone) s)
      both = ground (arith, failures, throttle)

  -- Where a user and a device id have one row at most, and Redis answers the two deletions of a
  -- login: a login that succeeds was not throttled; the phone number has an active account that
  -- takes the PIN, and the device is one of its authorized devices when the session starts. The
  -- device then has the new session and its token, the tokens of the result are signed for that
  -- user and session, users and wallets are as the other requests have left them, and neither
  -- failures nor a throttle are left for the phone number.
  pub login_sound :
      (config : LoginConfig) (a : LoginAnswers) (jwt : Signer) (verify : Text → Text → Bool)
      (fresh : LoginFresh) (phone : Text) (dto : AuthCredentialsDto) (db : Db) (s : State)
      (r : TokensResponse) (db' : Db) (s' : State)
      → ((u d : Text) → IsUniqueDevice u d (fresh.between db))
      → a.del_failures ≡ true
      → a.del_throttle ≡ true
      → login_phone R hash_token config a jwt verify fresh phone dto db s ≡ (ok r, db', s')
      → (get (login_throttle_key phone) s ≡ none)
        × ((user : User) × (find_user_by_phone phone db ≡ some user)
            × (verify dto.pin user.pin ≡ true)
            × (user.status ≡ PrismaAccountStatus.active)
            × Started jwt fresh user dto.device_id (fresh.between db) r db')
        × (get (login_failure_key phone) s' ≡ none)
        × (get (login_throttle_key phone) s' ≡ none)
  login_sound config a jwt verify fresh phone dto db s r db' s' unique failures throttle h =
      let (free, (user, found, right, active, started), after) =
        login_session config a jwt verify fresh phone dto db s r db' s' unique h in
      let (no_failures, no_throttle) = cleared a phone s failures throttle in
      (
        free,
        (user, found, right, active_row user active, started),
        ap (get (login_failure_key phone)) after ∙ no_failures,
        ap (get (login_throttle_key phone)) after ∙ no_throttle,
      )
