-- ===== src/Auth/Register.antt =====
-- `register` of backend/src/modules/auth/auth.service.ts. The hash of a PIN is a parameter;
-- identifiers and times are arguments, and so is what other requests do to the tables between the
-- lookup of the phone number and the transaction.
pub mod Laws
use kori.Common.{
  Bool, true, false, Option, none, some, ℕ, ◌+◌, ◌∷◌, not, same, eqb, leb, ltb, is_some, is_none,
  ◌&&◌, ◌||◌, if◌then◌else◌,
}
use kori.Common.Result.{
  Result, ok, err, Exception, http, prisma, error, device_verification_required, conflict,
  bad_request,
}
use kori.Common.Table.{find, update_many, count, any}
use kori.Common.Text.{Text, text, ◌==◌}
use kori.Domain.Enums.{Role, Role-discrete}
use kori.Domain.PhoneNumber.{PhoneParser, PhoneNumber}
use kori.Domain.PhoneNumber
use kori.Domain.UserId.{UserId}
use kori.Mappers.Account.{to_domain_role, to_prisma_role}
use kori.Schema.{Db, User, TrustDevice, BusinessApproval}
use kori.Schema.Enums.{PrismaRole, PrismaRole-discrete, PrismaAccountStatus}
use kori.Store.{
  Action, ◌>>=◌, ◌>>◌, pure, throw, gets, transaction, find_user_by_phone, unique_violation,
}
use kori.Wallets.{create_personal_wallet, create_business_wallet}
use kori.Auth.Devices.{is_device_of}
use kori.Auth.Redis.{Redis}
use kori.Auth.Proof.{AuthorizationConsumeStatus, consume_registration_authorization}
use kori.Auth.Session.{Signer, TokensResponse, get_tokens, pause}

pub record RegisterDto : Type 0 where
  pub phone : Text
  pub pin : Text
  pub device_id : Text
  pub registration_token : Text

-- The identifiers of the new rows, the new session and its token, and the time.
pub record RegisterFresh : Type 0 where
  pub user_id : Text
  pub wallet_id : Text
  pub device_row : Text
  pub sid : Text
  pub jti : Text
  pub now : ℕ

-- `user.create`, with the unique columns `id` and `phone`; a new account is active.
unfoldable pub create_user : User → Action User
create_user user db =
    if any (λ u. u.id == user.id || u.phone == user.phone) db.users
    then (err unique_violation, db)
    else (ok user, record db { users = user ∷ db.users })

-- `trustDevice.create`, with the unique column `id` and the unique pair of user and device.
unfoldable pub create_device : TrustDevice → Action (Unit {0})
create_device device db =
    if any (λ d. d.id == device.id || is_device_of device.user_id device.device_id d)
      db.trust_devices
    then (err unique_violation, db)
    else (ok tt, record db { trust_devices = device ∷ db.trust_devices })

abbrev pub new_user : RegisterFresh → (Text → Text) → PrismaRole → Text → RegisterDto → User
new_user fresh hash_pin role phone dto = record {
  id = fresh.user_id;
  phone = phone;
  pin = hash_pin dto.pin;
  role = role;
  status = PrismaAccountStatus.active;
}

abbrev pub new_device : RegisterFresh → RegisterDto → TrustDevice
new_device fresh dto = record {
  id = fresh.device_row;
  device_id = dto.device_id;
  user_id = fresh.user_id;
  is_authorized = true;
  refresh_session_id = some fresh.sid;
  current_refresh_jti = some fresh.jti;
  last_used_at = fresh.now;
  created_at = fresh.now;
}

-- The transaction of `register`.
unfoldable pub provision_account :
    Signer → (Text → Text) → RegisterFresh → Text → RegisterDto → Action TokensResponse
unfolding create_user create_device
provision_account jwt hash_pin fresh phone dto = do
  user ← create_user (new_user fresh hash_pin PrismaRole.customer phone dto)
  create_personal_wallet fresh.wallet_id fresh.now user.id
  create_device (new_device fresh dto)
  pure (get_tokens jwt user dto.device_id fresh.sid fresh.jti)

abbrev pub phone_taken : Exception
phone_taken = conflict (text "Phone number is already registered.")

-- `error.code`, which only an error of the database has.
abbrev pub code_of : Exception → Option Text
code_of (prisma code) = some code
code_of (http _ _ _) = none
code_of (error _) = none
code_of (device_verification_required _ _) = none

-- `new InternalServerErrorException(error, …)`, whose body is the error, so that the filter answers
-- its code and its message.
abbrev pub secured : {A : Type 0} → (Exception → Text) → Action A → Action A
secured message_of call db =
    let (r, db') = call db in
    elim r [ err e ↦ (err (http 500 (code_of e) (message_of e)), db') | ok a ↦ (ok a, db') ]

-- `register` once the authorization is consumed.
unfoldable pub open_account :
    Signer
    → (Text → Text)
    → (Exception → Text)
    → (Db → Db)
    → RegisterFresh
    → Text
    → RegisterDto
    → Action TokensResponse
unfolding provision_account
open_account jwt hash_pin message_of between fresh phone dto db =
    if is_some (find_user_by_phone phone db)
    then (err phone_taken, db)
    else secured message_of (transaction (provision_account jwt hash_pin fresh phone dto))
        (between db)

abbrev pub registration_invalid : Exception
registration_invalid =
    http 401 (some (text "REGISTRATION_AUTHORIZATION_INVALID"))
      (text "Registration authorization is invalid or expired. Verify your phone again.")

module _ (R : Redis) (hash_token : Text → Text) where
  open R use {State}

  -- The consumption of the authorization, and what follows it.
  abbrev pub after_proof :
      Exception
      → Action TokensResponse
      → Db
      → Result AuthorizationConsumeStatus × State
      → Result TokensResponse × Db × State
  after_proof refusal call db (err e, s) = (err e, db, s)
  after_proof refusal call db (ok AuthorizationConsumeStatus.missing, s) = (err refusal, db, s)
  after_proof refusal call db (ok AuthorizationConsumeStatus.invalid, s) = (err refusal, db, s)
  after_proof refusal call db (ok AuthorizationConsumeStatus.consumed, s) =
      let (r, db') = call db in (r, db', s)

  unfoldable pub register_phone :
      Bool
      → Exception
      → (Text → RegisterDto → Action TokensResponse)
      → Text
      → RegisterDto
      → Db
      → State
      → Result TokensResponse × Db × State
  register_phone answers refusal call phone dto db s = after_proof refusal (call phone dto) db (
      consume_registration_authorization R hash_token answers phone dto.device_id
        dto.registration_token s)

  unfoldable pub register :
      Bool
      → Signer
      → (Text → Text)
      → (Exception → Text)
      → (Db → Db)
      → RegisterFresh
      → PhoneParser
      → RegisterDto
      → Db
      → State
      → Result TokensResponse × Db × State
  unfolding register_phone open_account
  register answers jwt hash_pin message_of between fresh parse dto db s =
      elim (PhoneNumber.from parse dto.phone) [
        | err e ↦ (err e, db, s)
        | ok number ↦
            register_phone answers registration_invalid
              (open_account jwt hash_pin message_of between fresh) number.phone dto db s
      ]
