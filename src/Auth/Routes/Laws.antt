-- ===== src/Auth/Routes/Laws.antt =====
-- A login and the logout with its cookie.
use kori.Common.{
  ◌≡◌, refl, sym, ap, subst, ◌∙◌, Bool, true, Option, none, some, List, [], ◌∷◌, arith, ◌&&◌, ℕ,
}
use kori.Common.Result.{Result, ok}
use kori.Common.Table.{find, update_many, some_inj}
use kori.Common.Text.{Text}
use kori.Schema.{Db, User, TrustDevice}
use kori.Store.{find_user_by_phone}
use kori.Http.Value.{Unknown, Fields, object}
use kori.Auth.Devices.{is_device_of, IsUniqueDevice}
use kori.Auth.Claims.{refresh_claims}
use kori.Auth.Claims.Laws.{IsClaims, parse_signed}
use kori.Auth.Session.{
  Signer, TokensResponse, RefreshTokenPayload, Verified, claims, logout_using_refresh_cookie,
  logout_current_session, has_session_id, without_session,
}
use kori.Auth.Session.Laws.{IsEnded}
use kori.Auth.Redis.{Redis}
use kori.Auth.Login.{LoginConfig, LoginAnswers, LoginFresh, AuthCredentialsDto, login_phone}
use kori.Auth.Login.Laws.{login_session}
use kori.Auth.Routes.{with_cookie, logout}

-- The claims of the refresh token that a login signs.
abbrev pub login_claims : LoginFresh → User → Text → RefreshTokenPayload
login_claims fresh user device_id = record {
  sub = user.id;
  device_id = device_id;
  sid = fresh.sid;
  jti = fresh.jti;
}

ended_rows :
    (p : RefreshTokenPayload) (ds : List TrustDevice)
    → find
        (λ d. is_device_of p.sub p.device_id d && has_session_id p d)
        (update_many
          (λ d. is_device_of p.sub p.device_id d && has_session_id p d)
          without_session
          ds)
      ≡ none
unfolding find update_many
ended_rows p [] = refl
ended_rows p (d ∷ ds) = ground (arith, ended_rows p ds)

logout-IsEnded :
    (p : RefreshTokenPayload) (db : Db) → IsEnded p (logout_current_session true p db).1
unfolding logout_current_session
logout-IsEnded p db = ended_rows p db.trust_devices

-- The logout with a cookie whose token verifies to the claims.
logout_with :
    (verify : Text → Verified Unknown) (p : RefreshTokenPayload) (added : Fields) (c : ℕ) (t : Text)
    (db : Db)
    → verify (c ∷ t) ≡ claims (object (refresh_claims p added))
    → IsClaims p
    → logout verify true true (some (c ∷ t)) db
      ≡ (ok tt, none, (logout_current_session true p db).1)
unfolding logout logout_using_refresh_cookie logout_current_session
logout_with verify p added c t db verified valid =
    ground (arith, verified, parse_signed p added valid)

module _ (R : Redis) (hash_token : Text → Text) where
  open R use {State}

  -- A login sets a cookie with its refresh token, and a logout with that cookie ends the session of
  -- the login and clears the cookie, if a user and a device id have one row at most, the token is not
  -- empty, the response takes the cookies, the database answers, the claims are valid, and the token
  -- still verifies then, to its claims and the fields that the JWT library has added when it was
  -- signed.
  pub login_then_logout :
      (config : LoginConfig) (a : LoginAnswers) (jwt : Signer) (verify_pin : Text → Text → Bool)
      (fresh : LoginFresh) (phone : Text) (dto : AuthCredentialsDto) (user : User) (db : Db)
      (s : State) (r : TokensResponse) (db' : Db) (s' : State) (verify : Text → Verified Unknown)
      (added : Fields) (c : ℕ) (t : Text) (cookie : Option Text)
      → ((u d : Text) → IsUniqueDevice u d (fresh.between db))
      → login_phone R hash_token config a jwt verify_pin fresh phone dto db s ≡ (ok r, db', s')
      → find_user_by_phone phone db ≡ some user
      → r.refresh_token ≡ c ∷ t
      → verify (jwt.sign_refresh (login_claims fresh user dto.device_id))
        ≡ claims (object (refresh_claims (login_claims fresh user dto.device_id) added))
      → IsClaims (login_claims fresh user dto.device_id)
      → (with_cookie true cookie (ok r)
          ≡ (ok (record { access_token = r.access_token }), some (c ∷ t)))
        × ((logout verify true true (some (c ∷ t)) db').0 ≡ ok tt)
        × ((logout verify true true (some (c ∷ t)) db').1 ≡ none)
        × IsEnded
            (login_claims fresh user dto.device_id)
            (logout verify true true (some (c ∷ t)) db').2
  unfolding with_cookie
  login_then_logout config a jwt verify_pin fresh phone dto user db s r db' s' verify added c t
        cookie unique h known token verified valid =
      let (free, (u, found, right, active, started), cleared) =
        login_session R hash_token config a jwt verify_pin fresh phone dto db s r db' s' unique h in
      let p = login_claims fresh user dto.device_id in
      let same_user = some_inj (sym found ∙ known) in
      let signed =
        started.refresh
        ∙ ap (λ (x : User). jwt.sign_refresh (login_claims fresh x dto.device_id)) same_user in
      let done =
        logout_with verify p added c t db' (ap verify (sym token ∙ signed) ∙ verified) valid in
      (
        ap (λ (x : Text). with_cookie true cookie (ok (record r { refresh_token = x }))) token,
        ap (λ (o : Result (Unit {0}) × Option Text × Db). o.0) done,
        ap (λ (o : Result (Unit {0}) × Option Text × Db). o.1) done,
        subst (λ (o : Result (Unit {0}) × Option Text × Db). IsEnded p o.2) (sym done)
            (logout-IsEnded p db'),
      )
