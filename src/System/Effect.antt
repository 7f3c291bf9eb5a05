-- ===== src/System/Effect.antt =====
-- What a write of the backend makes of wallets, transactions and devices: it changes no balance, or
-- opens a wallet and a device, or is a transfer.
use kori.Common.{
  ◌≡◌, refl, sym, subst, Bool, true, false, Option, none, some, ℕ, List, ◌∷◌, arith, inl, inr, ◌⊎◌,
}
use kori.Common.Int.{pos}
use kori.Common.Table.{update_many, any}
use kori.Common.Table.Each.{Each, Each-refl, Each-update_many, Each-update}
use kori.Common.Text.{Text, ◌==◌}
use kori.Domain.UserId.{UserId}
use kori.Schema.{Db, Wallet, TrustDevice, BusinessApproval}
use kori.Schema.Enums.{PrismaRole}
use kori.Accounts.{reactivate, reactivate_user}
use kori.Auth.Devices.{is_device_of}
use kori.Auth.Session.{
  RefreshTokenPayload, rotate, end_replayed, logout_current_session, revoke_trusted_device,
  is_row_of, revoked,
}
use kori.Auth.Login.{establish_session}
use kori.Auth.VerifyOtp.{VerifyFresh, authorized, new_device, upsert_trust_device}
use kori.Auth.Business.{renew_approval, create_approval}
use kori.Transactions.Service.{Rule, Setting, TransferDto, perform}

abbrev pub SameMoney : Wallet → Wallet → Type 0
SameMoney before after = (after.id ≡ before.id) × (after.balance ≡ before.balance)

-- The device is the same, and its session is as before, or none, or the new one.
abbrev pub Carries : Option Text → TrustDevice → TrustDevice → Type 0
Carries sid before after =
    (after.user_id ≡ before.user_id)
    × (after.device_id ≡ before.device_id)
    × ((after.refresh_session_id ≡ before.refresh_session_id)
        ⊎ ((after.refresh_session_id ≡ none) ⊎ (after.refresh_session_id ≡ sid)))

pub record Kept (sid : Option Text) (db db' : Db) : Type 0 where
  pub wallets : Each SameMoney db.wallets db'.wallets
  pub transactions : db'.transactions ≡ db.transactions
  pub devices : Each (Carries sid) db.trust_devices db'.trust_devices

pub record Opened (sid : Option Text) (db db' : Db) : Type 0 where
  pub wallet : Wallet
  pub device : TrustDevice
  pub new_wallet : any (λ w. w.id == wallet.id) db.wallets ≡ false
  pub empty : wallet.balance ≡ pos 0
  pub wallets : db'.wallets ≡ wallet ∷ db.wallets
  pub transactions : db'.transactions ≡ db.transactions
  pub new_device : any (is_device_of device.user_id device.device_id) db.trust_devices ≡ false
  pub session : device.refresh_session_id ≡ sid
  pub devices : db'.trust_devices ≡ device ∷ db.trust_devices

-- A device of a user that had no such device.
pub record Enrolled (sid : Option Text) (db db' : Db) : Type 0 where
  pub device : TrustDevice
  pub wallets : db'.wallets ≡ db.wallets
  pub transactions : db'.transactions ≡ db.transactions
  pub new_device : any (is_device_of device.user_id device.device_id) db.trust_devices ≡ false
  pub session : device.refresh_session_id ≡ sid
  pub devices : db'.trust_devices ≡ device ∷ db.trust_devices

pub data Effect : Option Text → Db → Db → Type 0 where
  kept : {sid : Option Text} {db db' : Db} → Kept sid db db' → Effect sid db db'
  enrolled : {sid : Option Text} {db db' : Db} → Enrolled sid db db' → Effect sid db db'
  opened : {sid : Option Text} {db db' : Db} → Opened sid db db' → Effect sid db db'
  moved :
      (rule : Rule) (s : Setting) (actor : UserId) (dto : TransferDto) (key : Text)
      (reference : Option Text) (db : Db)
      → Effect none db (perform rule s actor dto key reference db).1

pub same_money : (w : Wallet) → SameMoney w w
same_money w = (refl, refl)

pub carried : (sid : Option Text) (d : TrustDevice) → Carries sid d d
carried sid d = (refl, refl, inl refl)

pub wallets_kept : (ws : List Wallet) → Each SameMoney ws ws
wallets_kept ws = Each-refl SameMoney same_money ws

pub Kept-refl : (sid : Option Text) (db : Db) → Kept sid db db
Kept-refl sid db = record {
  wallets = wallets_kept db.wallets;
  transactions = refl;
  devices = Each-refl (Carries sid) (carried sid) db.trust_devices;
}

-- A write to the devices alone.
devices_changed :
    (sid : Option Text) (p : TrustDevice → Bool) (f : TrustDevice → TrustDevice)
    → ((d : TrustDevice) → Carries sid d (f d))
    → (db : Db) → Kept sid db (record db { trust_devices = update_many p f db.trust_devices })
devices_changed sid p f changes db = record {
  wallets = wallets_kept db.wallets;
  transactions = refl;
  devices = Each-update_many (Carries sid) p f (carried sid) changes db.trust_devices;
}

pub establish_session-Kept :
    (user_id device_id sid jti : Text) (now : ℕ) (db : Db)
    → Kept (some sid) db (establish_session user_id device_id sid jti now db).1
unfolding establish_session
establish_session-Kept user_id device_id sid jti now db =
    devices_changed (some sid) _ _ (λ d. (refl, refl, inr (inr refl))) db

pub rotate-Kept :
    (p : RefreshTokenPayload) (jti : Text) (now : ℕ) (db : Db)
    → Kept none db (rotate p jti now db).1
unfolding rotate
rotate-Kept p jti now db = devices_changed none _ _ (λ d. (refl, refl, inl refl)) db

pub end_replayed-Kept : (p : RefreshTokenPayload) (db : Db) → Kept none db (end_replayed p db).1
unfolding end_replayed
end_replayed-Kept p db = devices_changed none _ _ (λ d. (refl, refl, inr (inl refl))) db

pub logout-Kept :
    (reachable : Bool) (p : RefreshTokenPayload) (db : Db)
    → Kept none db (logout_current_session reachable p db).1
unfolding logout_current_session
logout-Kept false p db = Kept-refl none db
logout-Kept true p db = devices_changed none _ _ (λ d. (refl, refl, inr (inl refl))) db

revoke-after :
    (user : UserId) (record_id : Text) (db : Db)
    → (revoke_trusted_device user record_id db).1 ≡ record db {
      trust_devices = update_many (is_row_of record_id user.id) revoked db.trust_devices;
    }
unfolding revoke_trusted_device
revoke-after user record_id db = ground arith

pub revoke-Kept :
    (user : UserId) (record_id : Text) (db : Db)
    → Kept none db (revoke_trusted_device user record_id db).1
revoke-Kept user record_id db = subst (Kept none db) (sym (revoke-after user record_id db)) (
    devices_changed none (is_row_of record_id user.id) revoked (λ d. (refl, refl, inr (inl refl)))
      db)

pub upsert-Kept :
    (fresh : VerifyFresh) (user_id device_id : Text) (db : Db)
    → any (is_device_of user_id device_id) db.trust_devices ≡ true
    → Kept none db (upsert_trust_device fresh user_id device_id db)
unfolding upsert_trust_device
upsert-Kept fresh user_id device_id db there = rw there (record {
  wallets = wallets_kept db.wallets;
  transactions = refl;
  devices =
      Each-update (Carries none) (is_device_of user_id device_id) (authorized fresh.now)
        (carried none) (λ d. (refl, refl, inr (inl refl))) db.trust_devices;
})

pub upsert-Enrolled :
    (fresh : VerifyFresh) (user_id device_id : Text) (db : Db)
    → any (is_device_of user_id device_id) db.trust_devices ≡ false
    → Enrolled none db (upsert_trust_device fresh user_id device_id db)
unfolding upsert_trust_device
upsert-Enrolled fresh user_id device_id db absent = rw absent (record {
  device = new_device fresh user_id device_id;
  wallets = refl;
  transactions = refl;
  new_device = absent;
  session = refl;
  devices = refl;
})

-- A write to the users and the approvals alone.
abbrev SameOthers : Db → Db → Type 0
SameOthers db db' =
    (db'.wallets ≡ db.wallets)
    × (db'.transactions ≡ db.transactions)
    × (db'.trust_devices ≡ db.trust_devices)

others-Kept : (db db' : Db) → SameOthers db db' → Kept none db db'
others-Kept db db' (w, t, d) = record {
  wallets = subst (Each SameMoney db.wallets) (sym w) (wallets_kept db.wallets);
  transactions = t;
  devices =
      subst (Each (Carries none) db.trust_devices) (sym d)
        (Each-refl (Carries none) (carried none) db.trust_devices);
}

reactivate-others : (target : UserId) (db : Db) → SameOthers db (reactivate target db).1
unfolding reactivate reactivate_user
reactivate-others target db = (ground arith, ground arith, ground arith)

pub reactivate-Kept : (target : UserId) (db : Db) → Kept none db (reactivate target db).1
reactivate-Kept target db = others-Kept db (reactivate target db).1 (reactivate-others target db)

pub create_approval-Kept : (a : BusinessApproval) (db : Db) → Kept none db (create_approval a db).1
unfolding create_approval
create_approval-Kept a db =
    others-Kept db (create_approval a db).1 (ground arith, ground arith, ground arith)

pub renew_approval-Kept :
    (id : Text) (role : PrismaRole) (admin : Text) (now : ℕ) (db : Db)
    → Kept none db (renew_approval id role admin now db).1
unfolding renew_approval
renew_approval-Kept id role admin now db =
    others-Kept db (renew_approval id role admin now db).1 (refl, refl, refl)
