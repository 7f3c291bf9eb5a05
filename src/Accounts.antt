-- ===== src/Accounts.antt =====
-- backend/src/modules/accounts/account-restriction.service.ts: suspending an account and making it
-- active again.
pub mod Laws
use kori.Common.{
  Bool, true, false, Option, none, some, ℕ, not, same, ◌&&◌, ◌||◌, if◌then◌else◌, is_none, eqb,
}
use kori.Common.Result.{Result, ok, err, Exception, http}
use kori.Common.Table.{find, update_many, count, any}
use kori.Common.Text.{Text, text, ◌==◌}
use kori.Domain.Enums.{AccountStatus, Role}
use kori.Domain.UserId.{UserId}
use kori.Mappers.Account.{to_prisma_role, to_prisma_status}
use kori.Schema.{Db, User, Wallet, TrustDevice}
use kori.Schema.Enums.{PrismaRole-discrete, PrismaAccountStatus-discrete}
use kori.Store.{
  Action, ◌>>=◌, ◌>>◌, pure, throw, gets, transaction, find_user, find_wallet_of_user, is_text,
}
use kori.Wallets.Manage.{is_system, or_throw, when_throw}

pub record AccountRestrictionResponse : Type 0 where
  pub user_id : Text
  pub status : AccountStatus

abbrev pub is_admin : User → Bool
is_admin u = same PrismaRole-discrete u.role (to_prisma_role Role.admin)

abbrev pub has_status : AccountStatus → User → Bool
has_status s u = same PrismaAccountStatus-discrete u.status (to_prisma_status s)

-- The filter `wallet: { type: { not: SYSTEM } }`, which asks for a wallet.
unfoldable pub has_ordinary_wallet : Text → Db → Bool
unfolding find_wallet_of_user
has_ordinary_wallet user_id db = elim (find_wallet_of_user user_id db) [
  | none ↦ false
  | some w ↦ not (is_system w)
]

unfoldable pub find_suspendable : Text → Db → Option User
unfolding has_ordinary_wallet
find_suspendable id db =
    find
      (λ u.
        u.id == id
        && (not (is_admin u)
            && (not (has_status AccountStatus.locked u) && has_ordinary_wallet u.id db)))
      db.users

-- `wallet.updateMany`, `user.updateMany` and `trustDevice.updateMany` of a suspension.
abbrev pub is_wallet_of : Text → Text → Wallet → Bool
is_wallet_of wallet_id user_id w =
    w.id == wallet_id && (is_text w.user_id user_id && not (is_system w))

abbrev pub freeze : Wallet → Wallet
freeze w = record w { is_active = false }

unfoldable pub freeze_wallet : Text → Text → Action ℕ
freeze_wallet wallet_id user_id db = (
  ok (count (is_wallet_of wallet_id user_id) db.wallets),
  record db { wallets = update_many (is_wallet_of wallet_id user_id) freeze db.wallets },
)

abbrev pub is_restrictable : Text → User → Bool
is_restrictable id u =
    u.id == id
    && (not (is_admin u)
        && (has_status AccountStatus.active u || has_status AccountStatus.suspended u))

abbrev pub with_status : AccountStatus → User → User
with_status s u = record u { status = to_prisma_status s }

unfoldable pub restrict_user : Text → Action ℕ
restrict_user id db = (
  ok (count (is_restrictable id) db.users),
  record db {
    users = update_many (is_restrictable id) (with_status AccountStatus.suspended) db.users;
  },
)

abbrev pub end_session : TrustDevice → TrustDevice
end_session d = record d { refresh_session_id = none; current_refresh_jti = none }

unfoldable pub end_sessions : Text → Action ℕ
end_sessions user_id db = (
  ok (count (λ d. d.user_id == user_id) db.trust_devices),
  record db {
    trust_devices = update_many (λ d. d.user_id == user_id) end_session db.trust_devices;
  },
)

abbrev account_not_found : Exception
account_not_found = http 404 (some (text "ACCOUNT_NOT_FOUND")) (text "Account not found.")

abbrev account_wallet_invalid : Exception
account_wallet_invalid =
    http 409 (some (text "ACCOUNT_WALLET_INVALID"))
      (text "Account does not have a valid owned wallet.")

abbrev account_wallet_changed : Exception
account_wallet_changed =
    http 409 (some (text "ACCOUNT_WALLET_CHANGED"))
      (text "Account wallet changed during suspension.")

abbrev account_state_changed : Exception
account_state_changed =
    http 409 (some (text "ACCOUNT_STATE_CHANGED")) (text "Account state changed during suspension.")

unfoldable pub suspend_in_transaction : UserId → Action AccountRestrictionResponse
unfolding find_suspendable find_wallet_of_user freeze_wallet restrict_user end_sessions
suspend_in_transaction target = do
  selected ← gets (find_suspendable target.id)
  user ← or_throw selected account_not_found
  owned ← gets (find_wallet_of_user user.id)
  wallet ← or_throw owned account_wallet_invalid
  frozen ← freeze_wallet wallet.id user.id
  when_throw (not (eqb frozen 1)) account_wallet_changed
  restricted ← restrict_user user.id
  when_throw (not (eqb restricted 1)) account_state_changed
  ended ← end_sessions user.id
  pure (record { user_id = user.id; status = AccountStatus.suspended })

unfoldable pub suspend : UserId → Action AccountRestrictionResponse
unfolding suspend_in_transaction
suspend target = transaction (suspend_in_transaction target)

abbrev pub is_reactivable : Text → User → Bool
is_reactivable id u = u.id == id && (not (is_admin u) && has_status AccountStatus.suspended u)

unfoldable pub reactivate_user : Text → Action ℕ
reactivate_user id db = (
  ok (count (is_reactivable id) db.users),
  record db { users = update_many (is_reactivable id) (with_status AccountStatus.active) db.users },
)

abbrev not_eligible : Exception
not_eligible =
    http 409 (some (text "ACCOUNT_NOT_ELIGIBLE_FOR_REACTIVATION"))
      (text "Account cannot be reactivated from its current state.")

-- The exception of a reactivation that has updated no row, from the account as it is then.
abbrev reactivation_refused : Text → Action (Unit {0})
reactivation_refused id = do
  account ← gets (find_user id)
  found ← or_throw account account_not_found
  throw not_eligible

unfoldable pub reactivate : UserId → Action AccountRestrictionResponse
unfolding reactivate_user find_user
reactivate target = do
  changed ← reactivate_user target.id
  (if eqb changed 1 then pure tt else reactivation_refused target.id)
  pure (record { user_id = target.id; status = AccountStatus.active })
