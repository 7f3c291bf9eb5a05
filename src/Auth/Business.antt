-- ===== src/Auth/Business.antt =====
-- `approveBusinessAccount` and `registerBusiness` of backend/src/modules/auth/auth.service.ts. What
-- other requests do to the tables between the queries of an approval is a parameter.
pub mod Laws
use kori.Common.{
  Bool, true, false, Option, none, some, ℕ, ◌+◌, ◌∷◌, not, same, eqb, leb, ltb, is_some, is_none,
  ◌&&◌, ◌||◌, if◌then◌else◌,
}
use kori.Common.Result.{
  Result, ok, err, Exception, http, conflict, bad_request, internal_server_error,
}
use kori.Common.Table.{find, update_many, count, any}
use kori.Common.Text.{Text, text, ◌==◌}
use kori.Domain.Enums.{Role, Role-discrete}
use kori.Domain.PhoneNumber.{PhoneParser, PhoneNumber}
use kori.Domain.PhoneNumber
use kori.Domain.UserId.{UserId}
use kori.Mappers.Account.{to_domain_role, to_prisma_role}
use kori.Schema.{Db, User, TrustDevice, BusinessApproval}
use kori.Schema.Enums.{PrismaRole, PrismaRole-discrete, PrismaAccountStatus}
use kori.Store.{
  Action, ◌>>=◌, ◌>>◌, pure, throw, gets, transaction, find_user_by_phone, unique_violation,
}
use kori.Wallets.{create_personal_wallet, create_business_wallet}
use kori.Auth.Devices.{is_device_of}
use kori.Auth.Redis.{Redis}
use kori.Auth.Proof.{AuthorizationConsumeStatus, consume_registration_authorization}
use kori.Auth.Session.{Signer, TokensResponse, get_tokens, pause}
use kori.Auth.Register.{
  RegisterDto, RegisterFresh, create_user, create_device, new_user, new_device, register_phone,
}

abbrev pub business_registration_invalid : Exception
business_registration_invalid =
    http 401 (some (text "REGISTRATION_AUTHORIZATION_INVALID"))
      (text "Registration authorization is invalid or expired.")

-- The approvals. A time is a number of milliseconds.
abbrev pub approval_lifetime : ℕ
approval_lifetime = 3_600_000

pub record ApproveBusinessDto : Type 0 where
  pub phone : Text
  pub role : Role

pub record ApproveBusinessAccountResponse : Type 0 where
  pub id : Text
  pub phone : Text
  pub role : Role
  pub expires_at : ℕ

abbrev pub is_business : Role → Bool
is_business role = same Role-discrete role Role.agent || same Role-discrete role Role.merchant

unfoldable pub find_approval : Text → Db → Option BusinessApproval
find_approval phone db = find (λ a. a.phone == phone) db.business_approvals

unfoldable pub find_approval_by_id : Text → Db → Option BusinessApproval
find_approval_by_id id db = find (λ a. a.id == id) db.business_approvals

abbrev to_approval_response : BusinessApproval → ApproveBusinessAccountResponse
to_approval_response a = record {
  id = a.id;
  phone = a.phone;
  role = to_domain_role a.role;
  expires_at = a.expires_at;
}

abbrev pub phone_in_use : Exception
phone_in_use =
    http 409 (some (text "ACCOUNT_PHONE_IN_USE")) (text "This phone already belongs to an account.")

abbrev pub approval_exists : Exception
approval_exists =
    http 409 (some (text "BUSINESS_APPROVAL_EXISTS")) (text "An approval already exists.")

abbrev pub approval_changed : Exception
approval_changed = conflict (text "Approval Changed. Please retry.")

-- The approval is unused, and has expired.
abbrev pub is_renewable : Text → ℕ → BusinessApproval → Bool
is_renewable id now a = a.id == id && (is_none a.activated_at && leb a.expires_at now)

abbrev pub renewed : PrismaRole → Text → ℕ → BusinessApproval → BusinessApproval
renewed role admin expires_at a = record a {
  role = role;
  approved_by_id = admin;
  expires_at = expires_at;
}

unfoldable pub renew_approval : Text → PrismaRole → Text → ℕ → Action ℕ
renew_approval id role admin now db = (
  ok (count (is_renewable id now) db.business_approvals),
  record db {
    business_approvals =
        update_many (is_renewable id now) (renewed role admin (now + approval_lifetime))
          db.business_approvals;
  },
)

-- `businessApproval.create`, with the unique columns `id` and `phone`, whose violation is reported.
unfoldable pub create_approval : BusinessApproval → Action ApproveBusinessAccountResponse
create_approval approval db =
    if any (λ a. a.id == approval.id || a.phone == approval.phone) db.business_approvals
    then (err (conflict (text "Approval already exist")), db)
    else (
      ok (to_approval_response approval),
      record db { business_approvals = approval ∷ db.business_approvals },
    )

-- What other requests do between the queries of an approval.
pub record ApprovalPauses : Type 0 where
  pub after_user : Db → Db
  pub after_previous : Db → Db
  pub after_update : Db → Db

unfoldable pub read_renewed : Text → Action ApproveBusinessAccountResponse
unfolding find_approval_by_id
read_renewed id = do
  found ← gets (find_approval_by_id id)
  elim found [ none ↦ throw approval_changed | some a ↦ pure (to_approval_response a) ]

unfoldable pub renew_previous :
    ApprovalPauses → UserId → ℕ → Role → BusinessApproval → Action ApproveBusinessAccountResponse
unfolding renew_approval read_renewed
renew_previous z admin now role previous =
    if is_some previous.activated_at || ltb now previous.expires_at
    then throw approval_exists
    else (renew_approval previous.id (to_prisma_role role) admin.id now >>= λ n.
        if eqb n 1
        then pause z.after_update >> read_renewed previous.id
        else throw approval_changed)

abbrev new_approval : Text → ℕ → UserId → Text → Role → BusinessApproval
new_approval new_id now admin phone role = record {
  id = new_id;
  phone = phone;
  role = to_prisma_role role;
  approved_by_id = admin.id;
  expires_at = now + approval_lifetime;
  activated_at = none;
}

-- `approveBusinessAccount` once the phone number is parsed.
unfoldable pub approve_phone :
    ApprovalPauses → Text → ℕ → UserId → Text → Role → Action ApproveBusinessAccountResponse
unfolding find_approval renew_previous create_approval
approve_phone z new_id now admin phone role =
    if not (is_business role) then throw (bad_request (text "Invalid business role.")) else (do
      user ← gets (find_user_by_phone phone)
      (if is_some user then throw phone_in_use else pure tt)
      pause z.after_user
      previous ← gets (find_approval phone)
      pause z.after_previous
      elim previous [
        | none ↦ create_approval (new_approval new_id now admin phone role)
        | some a ↦ renew_previous z admin now role a
      ])

unfoldable pub approve_business_account :
    ApprovalPauses
    → Text
    → ℕ
    → PhoneParser
    → UserId
    → ApproveBusinessDto
    → Action ApproveBusinessAccountResponse
unfolding approve_phone
approve_business_account z new_id now parse admin dto db = elim (PhoneNumber.from parse dto.phone) [
  | err e ↦ (err e, db)
  | ok number ↦ approve_phone z new_id now admin number.phone dto.role db
]

abbrev pub approval_required : Exception
approval_required =
    http 403 (some (text "BUSINESS_APPROVAL_REQUIRED"))
      (text "No valid business approval exists for this phone.")

abbrev pub approval_invalid : Exception
approval_invalid =
    http 403 (some (text "BUSINESS_APPROVAL_INVALID")) (text "Invalid approved account type.")

abbrev pub approval_used : Exception
approval_used =
    http 409 (some (text "BUSINESS_APPROVAL_ALREADY_USED"))
      (text "Business approval is no longer available.")

abbrev pub registration_conflict : Exception
registration_conflict =
    http 409 (some (text "BUSINESS_REGISTRATION_CONFLICT"))
      (text "This account or approval conflicts with existing data.")

-- The claim of an approval, with the time of its query.
abbrev pub is_claimable : BusinessApproval → ℕ → BusinessApproval → Bool
is_claimable approval at a =
    a.id == approval.id
    && (same PrismaRole-discrete a.role approval.role
        && (is_none a.activated_at && ltb at a.expires_at))

abbrev pub claimed : ℕ → BusinessApproval → BusinessApproval
claimed at a = record a { activated_at = some at }

unfoldable pub claim_approval : BusinessApproval → ℕ → Action ℕ
claim_approval approval at db = (
  ok (count (is_claimable approval at) db.business_approvals),
  record db {
    business_approvals = update_many (is_claimable approval at) (claimed at) db.business_approvals;
  },
)

-- The transaction of `registerBusiness` with the approval that it has read.
unfoldable pub provision_business :
    Signer
    → (Text → Text)
    → RegisterFresh
    → ℕ
    → Text
    → RegisterDto
    → BusinessApproval
    → Action TokensResponse
unfolding create_user create_device claim_approval
provision_business jwt hash_pin fresh at phone dto approval = do
  n ← claim_approval approval at
  (if eqb n 1 then pure tt else throw approval_used)
  user ← create_user (new_user fresh hash_pin approval.role phone dto)
  create_business_wallet fresh.wallet_id fresh.now user.id (to_domain_role approval.role)
  create_device (new_device fresh dto)
  pure (get_tokens jwt user dto.device_id fresh.sid fresh.jti)

unfoldable pub business_transaction :
    Signer → (Text → Text) → RegisterFresh → ℕ → Text → RegisterDto → Action TokensResponse
unfolding find_approval provision_business
business_transaction jwt hash_pin fresh at phone dto db = elim (find_approval phone db) [
  | none ↦ (err approval_required, db)
  | some a ↦
      if is_some a.activated_at || leb a.expires_at fresh.now
      then (err approval_required, db)
      else (if not (is_business (to_domain_role a.role))
          then (err approval_invalid, db)
          else provision_business jwt hash_pin fresh at phone dto a db)
]

-- A violation of a unique column is a conflict; other exceptions pass through.
abbrev pub reported : Exception → Exception
reported (Exception.prisma code) =
    if code == text "P2002" then registration_conflict else Exception.prisma code
reported (http status code message) = http status code message
reported (Exception.error message) = Exception.error message
reported (Exception.device_verification_required token n) =
    Exception.device_verification_required token n

abbrev pub with_report : {A : Type 0} → Action A → Action A
with_report call db =
    let (r, db') = call db in elim r [ err e ↦ (err (reported e), db') | ok a ↦ (ok a, db') ]

unfoldable pub open_business :
    Signer → (Text → Text) → RegisterFresh → ℕ → Text → RegisterDto → Action TokensResponse
unfolding business_transaction
open_business jwt hash_pin fresh at phone dto =
    with_report (transaction (business_transaction jwt hash_pin fresh at phone dto))

module _ (R : Redis) (hash_token : Text → Text) where
  open R use {State}

  unfoldable pub register_business :
      Bool
      → Signer
      → (Text → Text)
      → RegisterFresh
      → ℕ
      → PhoneParser
      → RegisterDto
      → Db
      → State
      → Result TokensResponse × Db × State
  unfolding register_phone open_business
  register_business answers jwt hash_pin fresh at parse dto db s =
      elim (PhoneNumber.from parse dto.phone) [
        | err e ↦ (err e, db, s)
        | ok number ↦
            register_phone R hash_token answers business_registration_invalid
              (open_business jwt hash_pin fresh at) number.phone dto db s
      ]
