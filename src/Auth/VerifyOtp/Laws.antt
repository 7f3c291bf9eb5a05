-- ===== src/Auth/VerifyOtp/Laws.antt =====
-- What a verification that succeeds has shown and done.
use kori.Common.{
  ◌≡◌, ◌≢◌, List, [], ◌∷◌, Option, refl, sym, ◌∙◌, ap, subst, Bool, true, false, none, some, ℕ, ◌<◌,
  arith, inl, inr, ◌⊎◌, Option-cases, same, Bool-cases,
}
use kori.Common.Result.{Result, ok, err, Exception}
use kori.Common.Table.{any, find, update, some_inj}
use kori.Common.Text.{Text}
use kori.Domain.Enums.{AccountStatus, AccountStatus-discrete}
use kori.Domain.PhoneNumber.{PhoneParser, PhoneNumber}
use kori.Domain.PhoneNumber
use kori.Mappers.Account.{to_domain_status}
use kori.Schema.{Db, User, TrustDevice}
use kori.Schema.Enums.{PrismaAccountStatus}
use kori.Store.{find_user_by_phone}
use kori.Auth.Redis.{Redis, Value, counter}
use kori.Auth.Otp.{OtpVerificationStatus, OtpRequest, OtpLimits, otp_failure_key, verify_otp_script}
use kori.Auth.Otp.Laws.{IsOpen, asking, verify_otp_script_sound}
use kori.Auth.Proof.{
  AuthorizationConsumeStatus, consume_device_enrollment_authorization,
  issue_registration_authorization, registration_authorization_key,
  device_enrollment_authorization_key,
}
use kori.Auth.Proof.Laws.{consume_device_enrollment_authorization_sound}
use kori.Auth.Devices.{is_device_of}
use kori.Auth.Session.{find_device}
use kori.Auth.VerifyOtp.{
  VerifyOtpDto, VerifyOtpResponse, VerifyAnswers, VerifyFresh, given_token, upsert_trust_device,
  after_consume, after_issue, after_status, enroll_device, verify_otp_atomically, verify_otp,
  status_refusal, authorized, new_device,
}

Result-cases {ℓ} :
    {A : Type ℓ} (r : Result A) → ((e : Exception) × (r ≡ err e)) ⊎ ((a : A) × (r ≡ ok a))
Result-cases (ok a) = inr (a, refl)
Result-cases (err e) = inl (e, refl)

real_token :
    (o : Option Text) (token : Text) → given_token o ≡ some token → (o ≡ some token) × (token ≢ [])
real_token none token h = absurd (cc)
real_token (some []) token h = absurd (cc)
real_token (some (c ∷ t)) token h = (h, λ e. full t (some_inj h ∙ e))
  where
    full : (t : Text) → c ∷ t ≢ []
    full t e = cc

updated :
    {A : Type 0} (p : A → Bool) (f : A → A)
    → ((x : A) → p (f x) ≡ p x)
    → (xs : List A) → any p xs ≡ true
    → (x : A) × (find p (update p f xs) ≡ some (f x))
unfolding any find update
updated p f keep [] h = absurd (cc)
updated p f keep (x ∷ xs) h = elim (Bool-cases (p x)) [
  | inl met ↦ (x, ground (arith, keep x))
  | inr other ↦ let (y, found) = updated p f keep xs (ground arith) in (y, ground arith)
]

-- After the upsert the device is authorized and has no session.
upserted :
    (fresh : VerifyFresh) (user_id device_id : Text) (db : Db)
    → (row : TrustDevice) × (find_device user_id device_id
          (upsert_trust_device fresh user_id device_id db)
        ≡ some row)
      × (row.is_authorized ≡ true)
      × (row.refresh_session_id ≡ none)
      × (row.current_refresh_jti ≡ none)
      × ((upsert_trust_device fresh user_id device_id db).users ≡ db.users)
      × ((upsert_trust_device fresh user_id device_id db).wallets ≡ db.wallets)
unfolding find_device upsert_trust_device find
upserted fresh user_id device_id db =
    elim (Bool-cases (any (is_device_of user_id device_id) db.trust_devices)) [
      | inl there ↦
          let (d, found) =
            updated (is_device_of user_id device_id) (authorized fresh.now) (λ x. refl)
              db.trust_devices there in
          (authorized fresh.now d, ground arith, refl, refl, refl, ground arith, ground arith)
      | inr missing ↦ (
        new_device fresh user_id device_id,
        ground arith,
        refl,
        refl,
        refl,
        ground arith,
        ground arith,
      )
    ]

module _ (R : Redis) (hash_token : Text → Text) where
  open R use {State, get}

  -- The phone number has an active account; the enrollment authorization of the given token was
  -- stored for the account and the device, and is gone; the device is authorized, with no session.
  pub record Enrolled (phone : Text) (dto : VerifyOtpDto) (db : Db) (s : State)
      (r : VerifyOtpResponse) (db' : Db) (s' : State) : Type 0 where
    pub user : User
    pub token : Text
    pub row : TrustDevice
    pub found : find_user_by_phone phone db ≡ some user
    pub is_active : user.status ≡ PrismaAccountStatus.active
    pub given : dto.device_enrollment_token ≡ some token
    pub is_token : token ≢ []
    pub held :
        get (device_enrollment_authorization_key phone) s
        ≡ some (
            Value.enrollment (record {
              token_hash = hash_token token;
              user_id = user.id;
              phone = phone;
              device_id = dto.device_id;
            }))
    pub used : get (device_enrollment_authorization_key phone) s' ≡ none
    pub device : find_device user.id dto.device_id db' ≡ some row
    pub is_authorized : row.is_authorized ≡ true
    pub no_session : row.refresh_session_id ≡ none
    pub no_token : row.current_refresh_jti ≡ none
    pub users : db'.users ≡ db.users
    pub wallets : db'.wallets ≡ db.wallets
    pub shown : r.is_registered ≡ true

  -- The phone number has no account, nothing changes in the database, and a registration
  -- authorization is answered and stored for the phone number and the device.
  pub record Invited (fresh : VerifyFresh) (phone : Text) (dto : VerifyOtpDto) (db : Db)
      (r : VerifyOtpResponse) (db' : Db) (s' : State) : Type 0 where
    pub absent : find_user_by_phone phone db ≡ none
    pub after : db' ≡ db
    pub shown : r.is_registered ≡ false
    pub carried :
        r.registration_authorization ≡ some (record { token = fresh.token; expires_in = fresh.ttl })
    pub stored :
        get (registration_authorization_key phone) s'
        ≡ some (
            Value.registration (record {
              token_hash = hash_token fresh.token;
              phone = phone;
              device_id = dto.device_id;
            }))

  abbrev pub Outcome :
      VerifyFresh → Text → VerifyOtpDto → Db → State → VerifyOtpResponse → Db → State → Type 0
  Outcome fresh phone dto db s r db' s' =
      Enrolled phone dto db s r db' s' ⊎ Invited fresh phone dto db r db' s'

  active_status :
      (u : User)
      → same AccountStatus-discrete (to_domain_status u.status) AccountStatus.active ≡ true
      → u.status ≡ PrismaAccountStatus.active
  active_status u h = ground arith

  consumed_ok :
      (fresh : VerifyFresh) (user : User) (device_id : Text) (db : Db)
      (p : Result AuthorizationConsumeStatus × State) (r : VerifyOtpResponse) (db' : Db)
      (s' : State)
      → after_consume R hash_token fresh user device_id db p ≡ (ok r, db', s')
      → (p.0 ≡ ok AuthorizationConsumeStatus.consumed)
        × (db' ≡ upsert_trust_device fresh user.id device_id db)
        × (r.is_registered ≡ true)
        × (s' ≡ p.1)
  consumed_ok fresh user device_id db (err e, s) r db' s' h = absurd (cc)
  consumed_ok fresh user device_id db (ok AuthorizationConsumeStatus.missing, s) r db' s' h =
      absurd (cc)
  consumed_ok fresh user device_id db (ok AuthorizationConsumeStatus.invalid, s) r db' s' h =
      absurd (cc)
  consumed_ok fresh user device_id db (ok AuthorizationConsumeStatus.consumed, s) r db' s' h =
      (refl, ground arith, ground arith, ground arith)

  enroll_step :
      (a : VerifyAnswers) (fresh : VerifyFresh) (phone : Text) (dto : VerifyOtpDto) (user : User)
      (token : Text) (db : Db) (s : State)
      → given_token dto.device_enrollment_token ≡ some token
      → same AccountStatus-discrete (to_domain_status user.status) AccountStatus.active ≡ true
      → enroll_device R hash_token a fresh phone dto user db s
        ≡ after_consume R hash_token fresh user dto.device_id db (
            consume_device_enrollment_authorization R hash_token a.consume user.id phone
              dto.device_id token s)
  unfolding enroll_device
  enroll_step a fresh phone dto user token db s given active = ground arith

  enroll_ok :
      (a : VerifyAnswers) (fresh : VerifyFresh) (phone : Text) (dto : VerifyOtpDto) (user : User)
      (db : Db) (s : State) (r : VerifyOtpResponse) (db' : Db) (s' : State)
      → find_user_by_phone phone db ≡ some user
      → enroll_device R hash_token a fresh phone dto user db s ≡ (ok r, db', s')
      → Enrolled phone dto db s r db' s'
  unfolding enroll_device
  enroll_ok a fresh phone dto user db s r db' s' found h =
      elim (Option-cases (given_token dto.device_enrollment_token)) [
        | inl missing ↦ absurd (ground arith)
        | inr (token, given) ↦
            elim (Bool-cases
              (same AccountStatus-discrete (to_domain_status user.status) AccountStatus.active)) [
                | inr restricted ↦ absurd (ground arith)
                | inl active ↦
                    let (consumed, after, shown, left) =
                      consumed_ok fresh user dto.device_id db
                        (consume_device_enrollment_authorization R hash_token a.consume user.id
                          phone dto.device_id token s)
                        r db' s'
                        (sym (enroll_step a fresh phone dto user token db s given active) ∙ h) in
                    let (held, gone) =
                      consume_device_enrollment_authorization_sound R hash_token a.consume user.id
                        phone dto.device_id token s consumed in
                    let (row, device, authorized, no_session, no_token, users, wallets) =
                      upserted fresh user.id dto.device_id db in
                    let (same_token, full) = real_token dto.device_enrollment_token token given in
                    record {
                      user = user;
                      token = token;
                      row = row;
                      found = found;
                      is_active = active_status user active;
                      given = same_token;
                      is_token = full;
                      held = held;
                      used =
                          ap (get (device_enrollment_authorization_key phone)) (left ∙ gone)
                          ∙ R.get-del (device_enrollment_authorization_key phone) s;
                      device = ap (find_device user.id dto.device_id) after ∙ device;
                      is_authorized = authorized;
                      no_session = no_session;
                      no_token = no_token;
                      users = ap (λ (e : Db). e.users) after ∙ users;
                      wallets = ap (λ (e : Db). e.wallets) after ∙ wallets;
                      shown = shown;
                    }
              ]
      ]

  issued_ok :
      (a : VerifyAnswers) (fresh : VerifyFresh) (phone : Text) (dto : VerifyOtpDto) (db : Db)
      (s : State) (r : VerifyOtpResponse) (db' : Db) (s' : State)
      → 0 < fresh.ttl
      → find_user_by_phone phone db ≡ none
      → after_issue R hash_token db (
          issue_registration_authorization R hash_token a.issue fresh.ttl fresh.token phone
            dto.device_id s)
        ≡ (ok r, db', s')
      → Invited fresh phone dto db r db' s'
  unfolding issue_registration_authorization
  issued_ok a fresh phone dto db s r db' s' alive absent h = record {
    absent = absent;
    after = ground arith;
    shown = ground arith;
    carried = ground arith;
    stored =
        ap (get (registration_authorization_key phone)) state
        ∙ R.get-set (registration_authorization_key phone) kept fresh.ttl s alive;
  }
    where
      kept : Value
      kept =
          Value.registration (record {
            token_hash = hash_token fresh.token;
            phone = phone;
            device_id = dto.device_id;
          })

      state : s' ≡ R.set (registration_authorization_key phone) kept fresh.ttl s
      state = ground arith

  absent_step :
      (a : VerifyAnswers) (fresh : VerifyFresh) (phone : Text) (dto : VerifyOtpDto)
      (status : OtpVerificationStatus) (db : Db) (s : State)
      → status_refusal status ≡ none
      → find_user_by_phone phone db ≡ none
      → after_status R hash_token a fresh phone dto db (ok status, s)
        ≡ after_issue R hash_token db (
            issue_registration_authorization R hash_token a.issue fresh.ttl fresh.token phone
              dto.device_id s)
  absent_step a fresh phone dto status db s accepted absent = ground arith

  found_step :
      (a : VerifyAnswers) (fresh : VerifyFresh) (phone : Text) (dto : VerifyOtpDto)
      (status : OtpVerificationStatus) (user : User) (db : Db) (s : State)
      → status_refusal status ≡ none
      → find_user_by_phone phone db ≡ some user
      → after_status R hash_token a fresh phone dto db (ok status, s)
        ≡ enroll_device R hash_token a fresh phone dto user db s
  found_step a fresh phone dto status user db s accepted found = ground arith

  -- What the rest of the call finds once the status is known.
  status_ok :
      (a : VerifyAnswers) (fresh : VerifyFresh) (phone : Text) (dto : VerifyOtpDto) (db : Db)
      (p : Result OtpVerificationStatus × State) (r : VerifyOtpResponse) (db' : Db) (s' : State)
      → 0 < fresh.ttl
      → after_status R hash_token a fresh phone dto db p ≡ (ok r, db', s')
      → (p.0 ≡ ok OtpVerificationStatus.verified) × Outcome fresh phone dto db p.1 r db' s'
  status_ok a fresh phone dto db (err e, s) r db' s' alive h = absurd (cc)
  status_ok a fresh phone dto db (ok status, s) r db' s' alive h =
      elim (Option-cases (status_refusal status)) [
        | inr (e, refused) ↦ absurd (ground arith)
        | inl accepted ↦ elim (Option-cases (find_user_by_phone phone db)) [
          | inl absent ↦ (
            ap ok (only_verified status accepted),
            inr (
                issued_ok a fresh phone dto db s r db' s' alive absent
                  (sym (absent_step a fresh phone dto status db s accepted absent) ∙ h)),
          )
          | inr (user, found) ↦ (
            ap ok (only_verified status accepted),
            inl (
                enroll_ok a fresh phone dto user db s r db' s' found
                  (sym (found_step a fresh phone dto status user db s accepted found) ∙ h)),
          )
        ]
      ]
    where
      only_verified :
          (v : OtpVerificationStatus) → status_refusal v ≡ none → v ≡ OtpVerificationStatus.verified
      only_verified v e = ground arith

  script_verified :
      (answers : Bool) (limits : OtpLimits) (q : OtpRequest) (s : State)
      → (verify_otp_atomically R hash_token answers limits q s).0
        ≡ ok OtpVerificationStatus.verified
      → (verify_otp_script R limits q s).0 ≡ some OtpVerificationStatus.verified
  unfolding verify_otp_atomically
  script_verified answers limits q s h = ground arith

  script_state :
      (answers : Bool) (limits : OtpLimits) (q : OtpRequest) (s : State)
      → (verify_otp_atomically R hash_token answers limits q s).0
        ≡ ok OtpVerificationStatus.verified
      → (verify_otp_atomically R hash_token answers limits q s).1
        ≡ (verify_otp_script R limits q s).1
  unfolding verify_otp_atomically
  script_state answers limits q s h = ground arith

  -- A verification that succeeds has met the active challenge of the parsed phone number on its
  -- device with its code, below the limit of failures. Then either the phone number has an active
  -- account, the enrollment authorization with the hash of the given token was stored for the
  -- account and the device and is gone, and the device is authorized with no session; or it has no
  -- account, the database is as before, and a registration authorization, whose lifetime is
  -- positive, is answered and stored for the phone number and the device.
  pub verify_otp_sound :
      (a : VerifyAnswers) (fresh : VerifyFresh) (limits : OtpLimits) (parse : PhoneParser)
      (dto : VerifyOtpDto) (db : Db) (s : State) (r : VerifyOtpResponse) (db' : Db) (s' : State)
      → 0 < fresh.ttl
      → verify_otp R hash_token a fresh limits parse dto db s ≡ (ok r, db', s')
      → (number : PhoneNumber) × (PhoneNumber.from parse dto.phone ≡ ok number)
        × ((n : ℕ) × (counter (get (otp_failure_key number.phone) s) ≡ some n)
            × (n < limits.max_failures))
        × IsOpen R number.phone dto.device_id dto.challenge_id dto.otp s
        × Outcome fresh number.phone dto db
            (verify_otp_script R limits
              (asking number.phone dto.device_id dto.challenge_id dto.otp)
              s).1
            r
            db'
            s'
  unfolding verify_otp
  verify_otp_sound a fresh limits parse dto db s r db' s' alive h =
      elim (Result-cases (PhoneNumber.from parse dto.phone)) [
        | inl (e, refused) ↦ absurd (ground arith)
        | inr (number, parsed) ↦
            let q = asking number.phone dto.device_id dto.challenge_id dto.otp in
            let p = verify_otp_atomically R hash_token a.script limits q s in
            let (v, outcome) =
              status_ok a fresh number.phone dto db p r db' s' alive
                (rw (parsed, verify_otp) at h) in
            let (below, open_challenge) =
              verify_otp_script_sound R limits q s (script_verified a.script limits q s v) in
            (
              number,
              parsed,
              below,
              open_challenge,
              subst (λ (x : State). Outcome fresh number.phone dto db x r db' s')
                  (script_state a.script limits q s v) outcome,
            )
      ]
