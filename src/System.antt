-- ===== src/System.antt =====
-- The backend as a whole: every write of a service to the database is a step. The requests are made
-- of such steps, in any order: where a request writes several times outside of a transaction, each
-- write is a step of its own.
pub mod Effect
pub mod Openings
pub mod Laws
pub mod Sessions
pub mod Bank
use kori.Common.{Bool, Option, none, some, ℕ, List, [], ◌∷◌}
use kori.Common.Result.{Exception}
use kori.Common.Text.{Text}
use kori.Domain.UserId.{UserId}
use kori.Domain.WalletId.{WalletId}
use kori.Schema.{Db, BusinessApproval}
use kori.Schema.Enums.{PrismaRole}
use kori.Store.{transaction}
use kori.Wallets.Manage.{deactive_wallet, active_wallet}
use kori.Accounts.{suspend, reactivate}
use kori.Auth.Session.{
  Signer, RefreshTokenPayload, rotate, end_replayed, logout_current_session, revoke_trusted_device,
}
use kori.Auth.Login.{establish_session}
use kori.Auth.VerifyOtp.{VerifyFresh, upsert_trust_device}
use kori.Auth.Register.{RegisterDto, RegisterFresh, provision_account}
use kori.Auth.Business.{open_business, renew_approval, create_approval}
use kori.Transactions.Service.{Rule, Setting, TransferDto, perform}

-- The first index is the session that the write starts.
pub data Step : Option Text → Db → Db → Type 0 where
  transfer :
      (rule : Rule) (s : Setting) (actor : UserId) (dto : TransferDto) (key : Text)
      (reference : Option Text) (db : Db)
      → Step none db (perform rule s actor dto key reference db).1
  suspension : (target : UserId) (db : Db) → Step none db (suspend target db).1
  reactivation : (target : UserId) (db : Db) → Step none db (reactivate target db).1
  deactivation :
      (reachable : Bool) (id : WalletId) (db : Db)
      → Step none db (deactive_wallet reachable id db).1
  activation :
      (reachable : Bool) (id : WalletId) (db : Db) → Step none db (active_wallet reachable id db).1
  login :
      (user_id device_id sid jti : Text) (now : ℕ) (db : Db)
      → Step (some sid) db (establish_session user_id device_id sid jti now db).1
  rotation :
      (p : RefreshTokenPayload) (jti : Text) (now : ℕ) (db : Db)
      → Step none db (rotate p jti now db).1
  replay : (p : RefreshTokenPayload) (db : Db) → Step none db (end_replayed p db).1
  logout :
      (reachable : Bool) (p : RefreshTokenPayload) (db : Db)
      → Step none db (logout_current_session reachable p db).1
  revocation :
      (user : UserId) (record_id : Text) (db : Db)
      → Step none db (revoke_trusted_device user record_id db).1
  enrollment :
      (fresh : VerifyFresh) (user_id device_id : Text) (db : Db)
      → Step none db (upsert_trust_device fresh user_id device_id db)
  registration :
      (jwt : Signer) (hash_pin : Text → Text) (fresh : RegisterFresh) (phone : Text)
      (dto : RegisterDto) (db : Db)
      → Step (some fresh.sid) db (transaction (provision_account jwt hash_pin fresh phone dto) db).1
  business :
      (jwt : Signer) (hash_pin : Text → Text) (fresh : RegisterFresh) (at : ℕ) (phone : Text)
      (dto : RegisterDto) (db : Db)
      → Step (some fresh.sid) db (open_business jwt hash_pin fresh at phone dto db).1
  approval : (a : BusinessApproval) (db : Db) → Step none db (create_approval a db).1
  renewal :
      (id : Text) (role : PrismaRole) (admin : Text) (now : ℕ) (db : Db)
      → Step none db (renew_approval id role admin now db).1

-- A run, with the sessions that it starts, the last one first.
pub data Run : List (Option Text) → Db → Db → Type 0 where
  idle : (db : Db) → Run [] db db
  next :
      {sids : List (Option Text)} {sid : Option Text} {first mid last : Db}
      → Run sids first mid
      → Step sid mid last
      → Run (sid ∷ sids) first last
