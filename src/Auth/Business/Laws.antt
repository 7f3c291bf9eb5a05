-- ===== src/Auth/Business/Laws.antt =====
-- What the registration of a business has shown and done, and what becomes of its approval.
use mathlib.Core.Option
use kori.Common.{
  ◌≡◌, refl, ap, Bool, true, false, Option, none, some, ℕ, ◌<◌, arith, if◌then◌else◌, ◌||◌, List,
  map, is_some, same, leb, not,
}
use kori.Common.Result.{Result, ok, err, Exception}
use kori.Common.Table.{update_many, count}
use kori.Common.Text.{Text}
use kori.Domain.Enums.{Role, Role-discrete, WalletType}
use kori.Mappers.Account.{to_domain_role}
use kori.Schema.{Db, BusinessApproval}
use kori.Store.{Action, transaction}
use kori.Wallets.{create_wallet, create_business_wallet}
use kori.Auth.Redis.{Redis}
use kori.Auth.Session.{Signer, TokensResponse, get_tokens}
use kori.Auth.Register.{RegisterDto, RegisterFresh, create_user, create_device, new_user}
use kori.Auth.Register.Laws.{IsFresh, with_account}
use kori.Auth.Business.{
  find_approval, is_claimable, claimed, claim_approval, provision_business, business_transaction,
  open_business, with_report, approval_required, approval_invalid, is_business,
}

abbrev pub business_wallet : Role → WalletType
business_wallet role =
    if same Role-discrete role Role.agent then WalletType.agent else WalletType.merchant

-- The tables once the approval is claimed.
abbrev pub claimed_db : BusinessApproval → ℕ → Db → Db
claimed_db a at db = record db {
  business_approvals = update_many (is_claimable a at) (claimed at) db.business_approvals;
}

abbrev pub claimable : BusinessApproval → ℕ → Db → ℕ
claimable a at db = count (is_claimable a at) db.business_approvals

pub provision_business_ok :
    (jwt : Signer) (hash_pin : Text → Text) (fresh : RegisterFresh) (at : ℕ) (phone : Text)
    (dto : RegisterDto) (a : BusinessApproval) (db : Db) (r : TokensResponse) (db' : Db)
    → provision_business jwt hash_pin fresh at phone dto a db ≡ (ok r, db')
    → (claimable a at db ≡ 1)
      × IsFresh fresh phone dto db
      × (r
          ≡ get_tokens jwt
              (new_user fresh hash_pin a.role phone dto)
              dto.device_id
              fresh.sid
              fresh.jti)
      × (db'
          ≡ with_account fresh hash_pin a.role
              (business_wallet (to_domain_role a.role))
              phone
              dto
              (claimed_db a at db))
unfolding provision_business claim_approval create_user create_device create_business_wallet
    create_wallet
provision_business_ok jwt hash_pin fresh at phone dto a db r db' h = (
  ground arith,
  record { users = ground arith; wallets = ground arith; devices = ground arith },
  ground arith,
  ground arith,
)

-- An approval that a registration may use: unused, unexpired and for a business.
pub record IsOpen (a : BusinessApproval) (now : ℕ) : Type 0 where
  pub unused : a.activated_at ≡ none
  pub unexpired : now < a.expires_at
  pub business : is_business (to_domain_role a.role) ≡ true

unused_none : {o : Option ℕ} → is_some o ≡ false → o ≡ none
unused_none {o = none} h = refl
unused_none {o = some t} h = absurd (cc)

pub transaction_ok :
    {A : Type 0} (body : Action A) (db : Db) (a : A) (db' : Db)
    → with_report (transaction body) db ≡ (ok a, db')
    → body db ≡ (ok a, db')
transaction_ok {A} body db a db' h = go (body db) h
  where
    go :
        (o : Result A × Db)
        → Path (Result A × Db) (with_report (transaction (λ _. o)) db) (ok a, db')
        → o ≡ (ok a, db')
    go (ok x, d) q = ground arith
    go (err x, d) q = absurd (cc)

-- The guards of the transaction, for any continuation.
guards_ok :
    {A : Type 0} (e f : Exception) (used late wrong : Bool) (db : Db) (next : Result A × Db) (a : A)
    (db' : Db)
    → (if used || late then (err e, db) else (if not wrong then (err f, db) else next))
      ≡ (ok a, db')
    → (used ≡ false) × (late ≡ false) × (wrong ≡ true) × (next ≡ (ok a, db'))
guards_ok e f true late wrong db next a db' h = absurd (cc)
guards_ok e f false true wrong db next a db' h = absurd (cc)
guards_ok e f false false false db next a db' h = absurd (cc)
guards_ok e f false false true db next a db' h = (refl, refl, refl, h)

before_end : {m n : ℕ} → leb m n ≡ false → n < m
before_end h = ground arith

pub business_transaction_ok :
    (jwt : Signer) (hash_pin : Text → Text) (fresh : RegisterFresh) (at : ℕ) (phone : Text)
    (dto : RegisterDto) (db : Db) (r : TokensResponse) (db' : Db)
    → business_transaction jwt hash_pin fresh at phone dto db ≡ (ok r, db')
    → (a : BusinessApproval) × (find_approval phone db ≡ some a)
      × IsOpen a fresh.now
      × (provision_business jwt hash_pin fresh at phone dto a db ≡ (ok r, db'))
unfolding business_transaction
business_transaction_ok jwt hash_pin fresh at phone dto db r db' h =
    go (find_approval phone db) refl
  where
    go :
        (o : Option BusinessApproval)
        → find_approval phone db ≡ o
        → (a : BusinessApproval) × (o ≡ some a)
          × IsOpen a fresh.now
          × (provision_business jwt hash_pin fresh at phone dto a db ≡ (ok r, db'))
    go none e = absurd (refused (rw (e, business_transaction) at h))
      where
        refused :
            {x : Exception} {d d' : Db} {t : TokensResponse}
            → Path (Result TokensResponse × Db) (err x, d) (ok t, d')
            → ⊥
        refused q = cc
    go (some a) e =
        let (unused, late, business, next) =
          guards_ok approval_required approval_invalid (is_some a.activated_at)
            (leb a.expires_at fresh.now) (is_business (to_domain_role a.role)) db
            (provision_business jwt hash_pin fresh at phone dto a db) r db'
            (rw (e, business_transaction) at h) in
        (
          a,
          refl,
          record { unused = unused_none unused; unexpired = before_end late; business = business },
          next,
        )

-- The ids of the approvals.
abbrev pub approval_ids : Db → List Text
approval_ids db = map (λ (a : BusinessApproval). a.id) db.business_approvals

refused_inside :
    (jwt : Signer) (hash_pin : Text → Text) (fresh : RegisterFresh) (at : ℕ) (phone : Text)
    (dto : RegisterDto) (db : Db) (a : BusinessApproval) (t : ℕ)
    → find_approval phone db ≡ some (claimed t a)
    → business_transaction jwt hash_pin fresh at phone dto db ≡ (err approval_required, db)
unfolding business_transaction
refused_inside jwt hash_pin fresh at phone dto db a t found = ground (arith, found)

-- An approval that is used admits no registration, at any time.
pub used_refused :
    (jwt : Signer) (hash_pin : Text → Text) (fresh : RegisterFresh) (at : ℕ) (phone : Text)
    (dto : RegisterDto) (db : Db) (a : BusinessApproval) (t : ℕ)
    → find_approval phone db ≡ some (claimed t a)
    → open_business jwt hash_pin fresh at phone dto db ≡ (err approval_required, db)
unfolding open_business
used_refused jwt hash_pin fresh at phone dto db a t found =
    ap (λ (o : Result TokensResponse × Db). with_report (transaction (λ _. o)) db)
      (refused_inside jwt hash_pin fresh at phone dto db a t found)
