-- ===== src/System/Openings.antt =====
-- The effects of the writes that read before they write: restrictions of accounts and wallets, and
-- the opening of accounts.
use kori.Common.{
  ◌≡◌, refl, sym, ap, subst, Bool, true, false, none, some, ℕ, List, [], ◌∷◌, arith, inl, inr, ◌⊎◌,
  ◌||◌,
}
use kori.Common.Result.{Result, ok, err}
use kori.Common.Table.{any}
use kori.Common.Table.Each.{Each-update_many}
use kori.Common.Text.{Text}
use kori.Domain.Enums.{WalletType}
use kori.Domain.UserId.{UserId}
use kori.Domain.WalletId.{WalletId}
use kori.Mappers.Account.{to_domain_role}
use kori.Schema.{Db}
use kori.Schema.Enums.{PrismaRole}
use kori.Store.{Action, transaction}
use kori.Wallets.{new_wallet}
use kori.Wallets.Freezing.{with_activity, deactive_after, active_after}
use kori.Wallets.Manage.{deactive_wallet, active_wallet}
use kori.Accounts.{AccountRestrictionResponse, suspend, suspend_in_transaction}
use kori.Accounts.Laws.{Suspended, suspend_ok}
use kori.Auth.Session.{Signer}
use kori.Auth.Register.{RegisterDto, RegisterFresh, new_device, provision_account}
use kori.Auth.Register.Laws.{IsFresh, with_account, provision_account_ok}
use kori.Auth.Business.{business_transaction, open_business, with_report}
use kori.Auth.Business.Laws.{
  claimed_db, business_wallet, business_transaction_ok, provision_business_ok,
}
use kori.System.Effect.{SameMoney, Carries, Kept, Kept-refl, Opened, Effect, same_money, carried}

pub with_activity-Kept :
    (id : Text) (active : Bool) (db : Db) → Kept none db (with_activity id active db)
with_activity-Kept id active db = record {
  wallets = Each-update_many SameMoney _ _ same_money (λ w. (refl, refl)) db.wallets;
  transactions = refl;
  devices = (Kept-refl none db).devices;
}

pub either_Kept :
    (id : Text) (active : Bool) (db db' : Db)
    → (db' ≡ db) ⊎ (db' ≡ with_activity id active db)
    → Kept none db db'
either_Kept id active db db' (inl same) = subst (Kept none db) (sym same) (Kept-refl none db)
either_Kept id active db db' (inr set) =
    subst (Kept none db) (sym set) (with_activity-Kept id active db)

pub deactive_wallet-Kept :
    (reachable : Bool) (id : WalletId) (db : Db) → Kept none db (deactive_wallet reachable id db).1
deactive_wallet-Kept reachable id db = either_Kept id.id false db _ (deactive_after reachable id db)

pub active_wallet-Kept :
    (reachable : Bool) (id : WalletId) (db : Db) → Kept none db (active_wallet reachable id db).1
active_wallet-Kept reachable id db = either_Kept id.id true db _ (active_after reachable id db)

-- A transaction whose success has an effect.
by_outcome :
    {A : Type 0} (P : Db → Type 0) (body : Action A) (db : Db)
    → P db
    → ((a : A) (db' : Db) → body db ≡ (ok a, db') → P db')
    → P (transaction body db).1
by_outcome {A} P body db same done = go (body db) refl
  where
    go : (o : Result A × Db) → body db ≡ o → P (transaction (λ _. o) db).1
    go (ok a, db') h = done a db' h
    go (err e, db') h = same

restricted-Kept :
    (target : UserId) (db : Db) (r : AccountRestrictionResponse) (db' : Db)
    → Suspended target db r db'
    → Kept none db db'
restricted-Kept target db r db' s = subst (Kept none db) (sym s.after) (record {
  wallets = Each-update_many SameMoney _ _ same_money (λ w. (refl, refl)) db.wallets;
  transactions = refl;
  devices =
      Each-update_many (Carries none) _ _ (carried none) (λ d. (refl, refl, inr (inl refl)))
        db.trust_devices;
})

pub suspend-Kept : (target : UserId) (db : Db) → Kept none db (suspend target db).1
unfolding suspend
suspend-Kept target db =
    by_outcome (Kept none db) (suspend_in_transaction target) db (Kept-refl none db) (λ a db' h.
      restricted-Kept target db a db' (
        suspend_ok target db a db'
          (ap (λ (o : Result AccountRestrictionResponse × Db). transaction (λ _. o) db) h)))

module _ {A : Type 0} where
  left_false : (p q : A → Bool) (xs : List A) → any (λ x. p x || q x) xs ≡ false → any p xs ≡ false
  unfolding any
  left_false p q [] h = refl
  left_false p q (x ∷ xs) h = ground (arith, left_false p q xs)

  right_false : (p q : A → Bool) (xs : List A) → any (λ x. p x || q x) xs ≡ false → any q xs ≡ false
  unfolding any
  right_false p q [] h = refl
  right_false p q (x ∷ xs) h = ground (arith, right_false p q xs)

with_account-Opened :
    (hash_pin : Text → Text) (fresh : RegisterFresh) (role : PrismaRole) (type : WalletType)
    (phone : Text) (dto : RegisterDto) (db mid : Db)
    → IsFresh fresh phone dto db
    → mid.wallets ≡ db.wallets
    → mid.transactions ≡ db.transactions
    → mid.trust_devices ≡ db.trust_devices
    → Opened (some fresh.sid) db (with_account fresh hash_pin role type phone dto mid)
with_account-Opened hash_pin fresh role type phone dto db mid free w t d = record {
  wallet = new_wallet fresh.wallet_id fresh.now fresh.user_id type;
  device = new_device fresh dto;
  new_wallet = left_false _ _ db.wallets free.wallets;
  empty = refl;
  wallets = ap (λ ws. new_wallet fresh.wallet_id fresh.now fresh.user_id type ∷ ws) w;
  transactions = t;
  new_device = right_false _ _ db.trust_devices free.devices;
  session = refl;
  devices = ap (λ ds. new_device fresh dto ∷ ds) d;
}

pub provision_account-Effect :
    (jwt : Signer) (hash_pin : Text → Text) (fresh : RegisterFresh) (phone : Text)
    (dto : RegisterDto) (db : Db)
    → Effect (some fresh.sid) db (transaction (provision_account jwt hash_pin fresh phone dto) db).1
provision_account-Effect jwt hash_pin fresh phone dto db =
    by_outcome (Effect (some fresh.sid) db) (provision_account jwt hash_pin fresh phone dto) db
      (Effect.kept (Kept-refl (some fresh.sid) db))
      (λ r db' h.
        let (free, _, after) = provision_account_ok jwt hash_pin fresh phone dto db r db' h in
        subst (Effect (some fresh.sid) db) (sym after) (
          Effect.opened (
            with_account-Opened hash_pin fresh PrismaRole.customer WalletType.personal phone dto db
              db free refl refl refl)))

report_keeps : {A : Type 0} (call : Action A) (db : Db) → (with_report call db).1 ≡ (call db).1
report_keeps {A} call db = go (call db)
  where
    go : (o : Result A × Db) → (with_report (λ _. o) db).1 ≡ o.1
    go (ok a, d) = refl
    go (err e, d) = refl

pub open_business-Effect :
    (jwt : Signer) (hash_pin : Text → Text) (fresh : RegisterFresh) (at : ℕ) (phone : Text)
    (dto : RegisterDto) (db : Db)
    → Effect (some fresh.sid) db (open_business jwt hash_pin fresh at phone dto db).1
unfolding open_business
open_business-Effect jwt hash_pin fresh at phone dto db =
    subst (Effect (some fresh.sid) db)
      (sym (report_keeps (transaction (business_transaction jwt hash_pin fresh at phone dto)) db))
      (by_outcome (Effect (some fresh.sid) db)
        (business_transaction jwt hash_pin fresh at phone dto) db
        (Effect.kept (Kept-refl (some fresh.sid) db))
        (λ r db' h.
          let (a, found, open_a, done) =
            business_transaction_ok jwt hash_pin fresh at phone dto db r db' h in
          let (one, free, _, after) =
            provision_business_ok jwt hash_pin fresh at phone dto a db r db' done in
          subst (Effect (some fresh.sid) db) (sym after) (
            Effect.opened (
              with_account-Opened hash_pin fresh a.role (business_wallet (to_domain_role a.role))
                phone dto db (claimed_db a at db) free refl refl refl))))
