-- ===== src/Auth/Login/Throttle.antt =====
-- The throttle of logins: wrong credentials, as many as the limit, lock a phone number out.
use kori.Common.{
  ◌≡◌, sym, ◌∙◌, ap, subst, Bool, true, false, none, some, ℕ, ◌<◌, ◌≤◌, ◌+◌, List, [], ◌∷◌, arith,
  if◌then◌else◌, Option-cases, inl, inr, leb, All,
}
use kori.Common.Result.{Result, err}
use kori.Common.Text.{Text, length}
use kori.Schema.{Db}
use kori.Store.{find_user_by_phone}
use kori.Auth.Redis.{Redis, Value, counter}
use kori.Auth.Session.{Signer, TokensResponse}
use kori.Auth.Login.Keys.{failures≢throttle}
use kori.Auth.Login.{
  AuthCredentialsDto, LoginConfig, LoginAnswers, LoginFresh, login_failure_key, login_throttle_key,
  too_many_logins, invalid_credentials, assert_login_not_throttled, record_login_failure,
  login_phone,
}

-- Whether the phone number has an account that takes the PIN.
abbrev pub is_right : (Text → Text → Bool) → Text → Db → Text → Bool
is_right verify phone db pin = elim (find_user_by_phone phone db) [
  | none ↦ false
  | some u ↦ verify pin u.pin
]

-- Redis answers every call of a login.
pub record AllAnswer (a : LoginAnswers) : Type 0 where
  pub get_throttle : a.get_throttle ≡ true
  pub increment : a.increment ≡ true
  pub set_throttle : a.set_throttle ≡ true

module _ (R : Redis) (hash_token : Text → Text) where
  open R use {State, get, set, incr, expire}

  abbrev counted : LoginConfig → Text → State → State
  counted config phone s =
      expire (login_failure_key phone) config.failure_window (incr (login_failure_key phone) s)

  throttled_login :
      (config : LoginConfig) (a : LoginAnswers) (jwt : Signer) (verify : Text → Text → Bool)
      (fresh : LoginFresh) (phone : Text) (dto : AuthCredentialsDto) (db : Db) (s : State)
      → AllAnswer a
      → get (login_throttle_key phone) s ≡ some Value.flag
      → login_phone R hash_token config a jwt verify fresh phone dto db s
        ≡ (err too_many_logins, db, s)
  unfolding login_phone assert_login_not_throttled
  throttled_login config a jwt verify fresh phone dto db s answers set_flag =
      ground (arith, answers.get_throttle, set_flag)

  -- A login with wrong credentials counts a failure, and sets the throttle at the limit.
  wrong_login :
      (config : LoginConfig) (a : LoginAnswers) (jwt : Signer) (verify : Text → Text → Bool)
      (fresh : LoginFresh) (phone : Text) (dto : AuthCredentialsDto) (db : Db) (n : ℕ) (s : State)
      → AllAnswer a
      → get (login_throttle_key phone) s ≡ none
      → counter (get (login_failure_key phone) s) ≡ some n
      → is_right verify phone db dto.pin ≡ false
      → login_phone R hash_token config a jwt verify fresh phone dto db s ≡ (
          if leb config.max_failures (n + 1)
          then (
            err too_many_logins,
            db,
            set
                (login_throttle_key phone)
                Value.flag
                config.throttle_seconds
                (counted config phone s),
          )
          else (err invalid_credentials, db, counted config phone s))
  unfolding login_phone assert_login_not_throttled record_login_failure
  wrong_login config a jwt verify fresh phone dto db n s answers free count wrong =
      elim (Option-cases (find_user_by_phone phone db)) [
        | inl unknown ↦ ground (
          arith, answers.get_throttle, answers.increment, answers.set_throttle, free, count,
          unknown,
        )
        | inr (u, found) ↦ ground (
          arith, answers.get_throttle, answers.increment, answers.set_throttle, free, count, found,
          wrong,
        )
      ]

  counted-counter :
      (config : LoginConfig) (phone : Text) (n : ℕ) (s : State)
      → 0 < config.failure_window
      → counter (get (login_failure_key phone) s) ≡ some n
      → counter (get (login_failure_key phone) (counted config phone s)) ≡ some (n + 1)
  counted-counter config phone n s window h = ap counter (
      R.get-expire (login_failure_key phone) (login_failure_key phone) config.failure_window _
        window
      ∙ R.get-incr (login_failure_key phone) n s h)

  counted-throttle :
      (config : LoginConfig) (phone : Text) (s : State)
      → 0 < config.failure_window
      → get (login_throttle_key phone) (counted config phone s) ≡ get (login_throttle_key phone) s
  counted-throttle config phone s window =
      R.get-expire (login_failure_key phone) (login_throttle_key phone) config.failure_window _
        window
      ∙ R.get-incr-other (login_failure_key phone) (login_throttle_key phone) s
          (failures≢throttle phone)

  -- Logins for one phone number, one after the other, from different devices.
  unfoldable pub logins :
      LoginConfig
      → LoginAnswers
      → Signer
      → (Text → Text → Bool)
      → LoginFresh
      → Text
      → List AuthCredentialsDto
      → Db
      → State
      → State
  logins config a jwt verify fresh phone [] db s = s
  logins config a jwt verify fresh phone (dto ∷ dtos) db s =
      let r = login_phone R hash_token config a jwt verify fresh phone dto db s in
      logins config a jwt verify fresh phone dtos r.1 r.2

  -- Wrong credentials for a phone number, as many in a row as the limit leaves, lock it out: the next
  -- login, with any PIN and whatever the accounts are then, is refused and changes nothing.
  pub logins_lock_out :
      (config : LoginConfig) (a : LoginAnswers) (jwt : Signer) (verify : Text → Text → Bool)
      (fresh next : LoginFresh) (phone : Text) (dto : AuthCredentialsDto)
      (dtos : List AuthCredentialsDto) (db later : Db) (n : ℕ) (s : State)
      (last : AuthCredentialsDto)
      → AllAnswer a
      → 0 < config.failure_window
      → 0 < config.throttle_seconds
      → get (login_throttle_key phone) s ≡ none
      → counter (get (login_failure_key phone) s) ≡ some n
      → n + length (dto ∷ dtos) ≡ config.max_failures
      → All (λ (d : AuthCredentialsDto). is_right verify phone db d.pin ≡ false) (dto ∷ dtos)
      → login_phone R hash_token config a jwt verify next phone last later
          (logins config a jwt verify fresh phone (dto ∷ dtos) db s)
        ≡ (err too_many_logins, later, logins config a jwt verify fresh phone (dto ∷ dtos) db s)
  unfolding logins
  logins_lock_out config a jwt verify fresh next phone dto [] db later n s last answers window
        seconds free count limit wrong =
      throttled_login config a jwt verify next phone last later _ answers (
        ap (λ (r : Result TokensResponse × Db × State). get (login_throttle_key phone) r.2)
          (wrong_login config a jwt verify fresh phone dto db n s answers free count wrong.0
            ∙ at_limit _ _ (omega arith))
        ∙ R.get-set _ _ _ _ seconds)
    where
      at_limit : {A : Type 0} {m : ℕ} (x y : A) → m ≤ n + 1 → (if leb m (n + 1) then x else y) ≡ x
      at_limit x y h = ground arith
  logins_lock_out config a jwt verify fresh next phone dto (d ∷ ds) db later n s last answers window
        seconds free count limit wrong =
      subst
        (λ (r : Result TokensResponse × Db × State).
          login_phone R hash_token config a jwt verify next phone last later
            (logins config a jwt verify fresh phone (d ∷ ds) r.1 r.2)
          ≡ (err too_many_logins, later, logins config a jwt verify fresh phone (d ∷ ds) r.1 r.2))
        (sym (
          wrong_login config a jwt verify fresh phone dto db n s answers free count wrong.0
          ∙ below _ _ (omega arith)))
        (logins_lock_out config a jwt verify fresh next phone d ds db later (n + 1)
          (counted config phone s) last answers window seconds
          (counted-throttle config phone s window ∙ free)
          (counted-counter config phone n s window count) (omega arith) wrong.1)
    where
      below : {A : Type 0} {m : ℕ} (x y : A) → n + 1 < m → (if leb m (n + 1) then x else y) ≡ y
      below x y h = ground arith
