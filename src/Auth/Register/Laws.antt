-- ===== src/Auth/Register/Laws.antt =====
-- What a registration has shown and done.
use kori.Common.{
  ◌≡◌, refl, ◌∙◌, ap, Bool, true, false, Option, none, some, ℕ, arith, is_some, if◌then◌else◌, ◌∷◌,
  inl, inr, ◌||◌, ◌⊎◌,
}
use kori.Common.Result.{Result, ok, err, Exception}
use kori.Common.Table.{any}
use kori.Common.Text.{Text, ◌==◌}
use kori.Common.Int.{pos}
use kori.Domain.Enums.{WalletType, Role}
use kori.Schema.{Db, User, TrustDevice}
use kori.Schema.Enums.{PrismaRole, PrismaAccountStatus, PrismaWalletType, PrismaCurrency}
use kori.Store.{Action, ◌>>◌, pure, transaction, find_user_by_phone, is_text}
use kori.Store.Laws.{>>=-step}
use kori.Wallets.{new_wallet, create_wallet, create_personal_wallet}
use kori.Auth.Devices.{is_device_of}
use kori.Auth.Redis.{Redis, Value}
use kori.Auth.Proof.{
  AuthorizationConsumeStatus, consume_registration_authorization, registration_authorization_key,
  consume_registration_script, consume_authorization,
}
use kori.Auth.Proof.Laws.{consume_registration_authorization_sound}
use kori.Auth.Session.{Signer, TokensResponse, get_tokens}
use kori.Auth.Register.{
  RegisterDto, RegisterFresh, create_user, create_device, new_user, new_device, provision_account,
  open_account, register_phone, after_proof, phone_taken, registration_invalid, secured,
}

-- The tables with a new account of a role, with its wallet and its device.
abbrev pub with_account :
    RegisterFresh → (Text → Text) → PrismaRole → WalletType → Text → RegisterDto → Db → Db
with_account fresh hash_pin role type phone dto db = record db {
  users = new_user fresh hash_pin role phone dto ∷ db.users;
  wallets = new_wallet fresh.wallet_id fresh.now fresh.user_id type ∷ db.wallets;
  trust_devices = new_device fresh dto ∷ db.trust_devices;
}

-- No row has an identifier of the new account, its phone number or its device.
pub record IsFresh (fresh : RegisterFresh) (phone : Text) (dto : RegisterDto) (db : Db)
    : Type 0 where
  pub users : any (λ u. u.id == fresh.user_id || u.phone == phone) db.users ≡ false
  pub wallets :
      any (λ w. w.id == fresh.wallet_id || is_text w.user_id fresh.user_id) db.wallets ≡ false
  pub devices :
      any
        (λ d. d.id == fresh.device_row || is_device_of fresh.user_id dto.device_id d)
        db.trust_devices
      ≡ false

pub provision_account_ok :
    (jwt : Signer) (hash_pin : Text → Text) (fresh : RegisterFresh) (phone : Text)
    (dto : RegisterDto) (db : Db) (r : TokensResponse) (db' : Db)
    → provision_account jwt hash_pin fresh phone dto db ≡ (ok r, db')
    → IsFresh fresh phone dto db
      × (r
          ≡ get_tokens jwt
              (new_user fresh hash_pin PrismaRole.customer phone dto)
              dto.device_id
              fresh.sid
              fresh.jti)
      × (db' ≡ with_account fresh hash_pin PrismaRole.customer WalletType.personal phone dto db)
unfolding provision_account create_user create_device create_personal_wallet create_wallet
provision_account_ok jwt hash_pin fresh phone dto db r db' h = (
  record { users = ground arith; wallets = ground arith; devices = ground arith },
  ground arith,
  ground arith,
)

pub create_user-fresh :
    (user : User) (db : Db)
    → any (λ u. u.id == user.id || u.phone == user.phone) db.users ≡ false
    → create_user user db ≡ (ok user, record db { users = user ∷ db.users })
unfolding create_user
create_user-fresh user db h = ground arith

pub create_wallet-fresh :
    (new_id : Text) (now : ℕ) (user_id : Text) (type : WalletType) (db : Db)
    → any (λ w. w.id == new_id || is_text w.user_id user_id) db.wallets ≡ false
    → create_wallet new_id now user_id type db
      ≡ (ok tt, record db { wallets = new_wallet new_id now user_id type ∷ db.wallets })
unfolding create_wallet
create_wallet-fresh new_id now user_id type db h = ground arith

pub create_device-fresh :
    (device : TrustDevice) (db : Db)
    → any
        (λ d. d.id == device.id || is_device_of device.user_id device.device_id d)
        db.trust_devices
      ≡ false
    → create_device device db ≡ (ok tt, record db { trust_devices = device ∷ db.trust_devices })
unfolding create_device
create_device-fresh device db h = ground arith

provision_account-step :
    (jwt : Signer) (hash_pin : Text → Text) (fresh : RegisterFresh) (phone : Text)
    (dto : RegisterDto) (db : Db)
    → IsFresh fresh phone dto db
    → provision_account jwt hash_pin fresh phone dto db ≡ (
      ok (
          get_tokens jwt
            (new_user fresh hash_pin PrismaRole.customer phone dto)
            dto.device_id
            fresh.sid
            fresh.jti),
      with_account fresh hash_pin PrismaRole.customer WalletType.personal phone dto db,
    )
unfolding provision_account create_personal_wallet
provision_account-step jwt hash_pin fresh phone dto db free =
    >>=-step (create_user user)
      (λ u.
        create_personal_wallet fresh.wallet_id fresh.now u.id
        >> (create_device device >> pure (get_tokens jwt u dto.device_id fresh.sid fresh.jti)))
      db opened user (create_user-fresh user db free.users)
    ∙ (>>=-step (create_wallet fresh.wallet_id fresh.now fresh.user_id WalletType.personal)
          (λ _.
            create_device device >> pure (get_tokens jwt user dto.device_id fresh.sid fresh.jti))
          opened provided tt
          (create_wallet-fresh fresh.wallet_id fresh.now fresh.user_id WalletType.personal opened
            free.wallets)
        ∙ >>=-step (create_device device)
            (λ _. pure (get_tokens jwt user dto.device_id fresh.sid fresh.jti)) provided
            (with_account fresh hash_pin PrismaRole.customer WalletType.personal phone dto db) tt
            (create_device-fresh device provided free.devices))
  where
    user : User
    user = new_user fresh hash_pin PrismaRole.customer phone dto

    device : TrustDevice
    device = new_device fresh dto

    opened : Db
    opened = record db { users = user ∷ db.users }

    provided : Db
    provided = record opened {
      wallets = new_wallet fresh.wallet_id fresh.now fresh.user_id WalletType.personal ∷ db.wallets;
    }

-- A transaction under a guard, whose failure is reported.
guarded_ok :
    {A : Type 0} (m : Exception → Text) (e : Exception) (taken : Bool) (body : Action A)
    (db mid : Db) (a : A) (db' : Db)
    → (if taken then (err e, db) else secured m (transaction body) mid) ≡ (ok a, db')
    → (taken ≡ false) × (body mid ≡ (ok a, db'))
guarded_ok m e true body db mid a db' h = absurd (cc)
guarded_ok {A} m e false body db mid a db' h = (refl, go (body mid) h)
  where
    go :
        (o : Result A × Db)
        → Path (Result A × Db) (secured m (transaction (λ _. o)) mid) (ok a, db')
        → o ≡ (ok a, db')
    go (ok x, d) q = ground arith
    go (err x, d) q = absurd (cc)

guarded_err :
    {A : Type 0} (m : Exception → Text) (e : Exception) (taken : Bool) (body : Action A)
    (db mid : Db) (x : Exception)
    → Path (Result A) (if taken then (err e, db) else secured m (transaction body) mid).0 (err x)
    → ((if taken then (err e, db) else secured m (transaction body) mid).1 ≡ db)
      ⊎ ((if taken then (err e, db) else secured m (transaction body) mid).1 ≡ mid)
guarded_err m e true body db mid x h = inl refl
guarded_err {A} m e false body db mid x h = inr (go (body mid) h)
  where
    go :
        (o : Result A × Db)
        → Path (Result A) (secured m (transaction (λ _. o)) mid).0 (err x)
        → Path Db (secured m (transaction (λ _. o)) mid).1 mid
    go (ok y, d) q = absurd (cc)
    go (err y, d) q = refl

guarded_done :
    {A : Type 0} (m : Exception → Text) (e : Exception) (o : Option User) (body : Action A)
    (db mid : Db) (a : A) (db' : Db)
    → o ≡ none
    → body mid ≡ (ok a, db')
    → (if is_some o then (err e, db) else secured m (transaction body) mid) ≡ (ok a, db')
guarded_done m e none body db mid a db' h done = ap (λ o. secured m (transaction (λ _. o)) mid) done
guarded_done m e (some u) body db mid a db' h done = absurd (cc)

no_user : {o : Option User} → is_some o ≡ false → o ≡ none
no_user {o = none} h = refl
no_user {o = some u} h = absurd (cc)

-- A registration that fails leaves the tables as it has found them.
pub open_account_atomic :
    (jwt : Signer) (hash_pin : Text → Text) (message_of : Exception → Text) (between : Db → Db)
    (fresh : RegisterFresh) (phone : Text) (dto : RegisterDto) (db : Db) (e : Exception)
    → (open_account jwt hash_pin message_of between fresh phone dto db).0 ≡ err e
    → ((open_account jwt hash_pin message_of between fresh phone dto db).1 ≡ db)
      ⊎ ((open_account jwt hash_pin message_of between fresh phone dto db).1 ≡ between db)
unfolding open_account
open_account_atomic jwt hash_pin message_of between fresh phone dto db e h =
    guarded_err message_of phone_taken (is_some (find_user_by_phone phone db))
      (provision_account jwt hash_pin fresh phone dto) db (between db) e h

-- A new customer with a wallet and a device, and the tokens of its session.
pub record Registered (jwt : Signer) (hash_pin : Text → Text) (fresh : RegisterFresh) (phone : Text)
    (dto : RegisterDto) (db : Db) (r : TokensResponse) (db' : Db) : Type 0 where
  pub access :
      r.access_token ≡ jwt.sign_access (record { sub = fresh.user_id; role = Role.customer })
  pub refresh :
      r.refresh_token
      ≡ jwt.sign_refresh (record {
        sub = fresh.user_id;
        device_id = dto.device_id;
        sid = fresh.sid;
        jti = fresh.jti;
      })
  pub after : db' ≡ record db {
    users =
        record {
          id = fresh.user_id;
          phone = phone;
          pin = hash_pin dto.pin;
          role = PrismaRole.customer;
          status = PrismaAccountStatus.active;
        }
        ∷ db.users;
    wallets =
        record {
          id = fresh.wallet_id;
          user_id = some fresh.user_id;
          type = PrismaWalletType.personal;
          is_active = true;
          balance = pos 0;
          currency = PrismaCurrency.bdt;
          created_at = fresh.now;
        }
        ∷ db.wallets;
    trust_devices =
        record {
          id = fresh.device_row;
          device_id = dto.device_id;
          user_id = fresh.user_id;
          is_authorized = true;
          refresh_session_id = some fresh.sid;
          current_refresh_jti = some fresh.jti;
          last_used_at = fresh.now;
          created_at = fresh.now;
        }
        ∷ db.trust_devices;
  }

module _ (R : Redis) (hash_token : Text → Text) where
  open R use {State, get, del}

  -- The authorization that the request presents.
  abbrev pub proof_of : Text → RegisterDto → Value
  proof_of phone dto = Value.registration (record {
    token_hash = hash_token dto.registration_token;
    phone = phone;
    device_id = dto.device_id;
  })

  pub register_phone_cases :
      (answers : Bool) (refusal : Exception) (call : Text → RegisterDto → Action TokensResponse)
      (phone : Text) (dto : RegisterDto) (db : Db) (s : State) (r : TokensResponse) (db' : Db)
      (s' : State)
      → register_phone R hash_token answers refusal call phone dto db s ≡ (ok r, db', s')
      → (get (registration_authorization_key phone) s ≡ some (proof_of phone dto))
        × (s' ≡ del (registration_authorization_key phone) s)
        × (call phone dto db ≡ (ok r, db'))
  unfolding register_phone
  register_phone_cases answers refusal call phone dto db s r db' s' h =
      let (consumed, called, after) = steps _ h in
      let (held, gone) =
        consume_registration_authorization_sound R hash_token answers phone dto.device_id
          dto.registration_token s consumed in
      (held, after ∙ gone, called)
    where
      steps :
          (o : Result AuthorizationConsumeStatus × State)
          → after_proof R hash_token refusal (call phone dto) db o ≡ (ok r, db', s')
          → (o.0 ≡ ok AuthorizationConsumeStatus.consumed)
            × (call phone dto db ≡ (ok r, db'))
            × (s' ≡ o.1)
      steps (err e, t) q = absurd (cc)
      steps (ok AuthorizationConsumeStatus.missing, t) q = absurd (cc)
      steps (ok AuthorizationConsumeStatus.invalid, t) q = absurd (cc)
      steps (ok AuthorizationConsumeStatus.consumed, t) q = (refl, ground arith, ground arith)

  -- A registration that succeeds has used up the authorization of the phone number and the device
  -- with the token of the request. The phone number had no account, and none of the new rows was
  -- there when the transaction ran; the tables then have an active customer with that phone number
  -- and hashed PIN, an active personal wallet of balance 0 in BDT, and the authorized device with the
  -- new session, whose tokens are the result; every other row is as it was.
  pub register_sound :
      (answers : Bool) (jwt : Signer) (hash_pin : Text → Text) (message_of : Exception → Text)
      (between : Db → Db) (fresh : RegisterFresh) (phone : Text) (dto : RegisterDto) (db : Db)
      (s : State) (r : TokensResponse) (db' : Db) (s' : State)
      → register_phone R hash_token answers registration_invalid
          (open_account jwt hash_pin message_of between fresh)
          phone
          dto
          db
          s
        ≡ (ok r, db', s')
      → (get (registration_authorization_key phone) s ≡ some (proof_of phone dto))
        × (get (registration_authorization_key phone) s' ≡ none)
        × (find_user_by_phone phone db ≡ none)
        × IsFresh fresh phone dto (between db)
        × Registered jwt hash_pin fresh phone dto (between db) r db'
  unfolding open_account
  register_sound answers jwt hash_pin message_of between fresh phone dto db s r db' s' h =
      let (held, used, called) =
        register_phone_cases answers registration_invalid
          (open_account jwt hash_pin message_of between fresh) phone dto db s r db' s' h in
      let (free, opened) =
        guarded_ok message_of phone_taken (is_some (find_user_by_phone phone db))
          (provision_account jwt hash_pin fresh phone dto) db (between db) r db' called in
      let (new, tokens, after) =
        provision_account_ok jwt hash_pin fresh phone dto (between db) r db' opened in
      (
        held,
        ap (get (registration_authorization_key phone)) used
            ∙ R.get-del (registration_authorization_key phone) s,
        no_user free,
        new,
        record {
          access = ap (λ (x : TokensResponse). x.access_token) tokens;
          refresh = ap (λ (x : TokensResponse). x.refresh_token) tokens;
          after = after;
        },
      )

  consume_held :
      (phone : Text) (dto : RegisterDto) (s : State)
      → get (registration_authorization_key phone) s ≡ some (proof_of phone dto)
      → consume_registration_authorization R hash_token true phone dto.device_id
          dto.registration_token s
        ≡ (ok AuthorizationConsumeStatus.consumed, del (registration_authorization_key phone) s)
  unfolding consume_registration_authorization consume_authorization consume_registration_script
  consume_held phone dto s held = ground (arith, held)

  -- A registration whose authorization is held, for a phone number without an account and with new
  -- identifiers, succeeds, and opens the account.
  pub register_succeeds :
      (jwt : Signer) (hash_pin : Text → Text) (message_of : Exception → Text) (between : Db → Db)
      (fresh : RegisterFresh) (phone : Text) (dto : RegisterDto) (db : Db) (s : State)
      → get (registration_authorization_key phone) s ≡ some (proof_of phone dto)
      → find_user_by_phone phone db ≡ none
      → IsFresh fresh phone dto (between db)
      → register_phone R hash_token true registration_invalid
          (open_account jwt hash_pin message_of between fresh)
          phone
          dto
          db
          s
        ≡ (
          ok (
              get_tokens jwt
                (new_user fresh hash_pin PrismaRole.customer phone dto)
                dto.device_id
                fresh.sid
                fresh.jti),
          with_account fresh hash_pin PrismaRole.customer WalletType.personal phone dto
              (between db),
          del (registration_authorization_key phone) s,
        )
  unfolding register_phone open_account
  register_succeeds jwt hash_pin message_of between fresh phone dto db s held free new =
      ap
        (after_proof R hash_token registration_invalid
          (open_account jwt hash_pin message_of between fresh phone dto) db)
        (consume_held phone dto s held)
      ∙ ap
          (λ (o : Result TokensResponse × Db).
            (o.0, o.1, del (registration_authorization_key phone) s))
          (guarded_done message_of phone_taken (find_user_by_phone phone db)
            (provision_account jwt hash_pin fresh phone dto) db (between db) _ _ free
            (provision_account-step jwt hash_pin fresh phone dto (between db) new))
