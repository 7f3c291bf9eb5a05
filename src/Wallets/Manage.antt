-- ===== src/Wallets/Manage.antt =====
-- backend/src/modules/wallets/wallets.service.ts: freezing and unfreezing a wallet.
use kori.Common.{
  Bool, true, false, Option, none, some, ℕ, not, same, ◌&&◌, if◌then◌else◌, is_some, is_none, eqb,
}
use kori.Common.Text.{Text, text, ◌==◌}
use kori.Common.Result.{Exception, http, ok}
use kori.Common.Table.{find, update_many, count}
use kori.Domain.Enums.{AccountStatus, WalletType, WalletType-discrete}
use kori.Domain.WalletId.{WalletId}
use kori.Mappers.Account.{to_prisma_status}
use kori.Mappers.Wallet.{to_domain_type, to_prisma_type}
use kori.Schema.{Db, Wallet}
use kori.Schema.Enums.{PrismaWalletType-discrete}
use kori.Store.{Action, ◌>>=◌, ◌>>◌, pure, throw, gets, transaction, find_wallet, owner_has_status}
use kori.Wallets.{WalletOwnerResponse, get_wallet_by_id}

abbrev pub when_throw : Bool → Exception → Action (Unit {0})
when_throw true e = throw e
when_throw false e = pure tt

abbrev pub or_throw : {A : Type 0} → Option A → Exception → Action A
or_throw none e = throw e
or_throw (some a) e = pure a

-- A wallet that is not the system's, by its stored type.
abbrev pub is_system : Wallet → Bool
is_system w = same PrismaWalletType-discrete w.type (to_prisma_type WalletType.system)

-- `assertManageableWallet`.
unfoldable pub assert_manageable_wallet : WalletId → Action (Unit {0})
unfolding find_wallet
assert_manageable_wallet wallet_id = do
  found ← gets (find_wallet wallet_id.id)
  wallet ← or_throw found (http 404 (some (text "WALLET_NOT_FOUND")) (text "Wallet not found."))
  when_throw (same WalletType-discrete (to_domain_type wallet.type) WalletType.system) (
      http 409 (some (text "SYSTEM_WALLET_PROTECTED"))
        (text "The SYSTEM wallet cannot be frozen or activated through this operation."))
  when_throw (is_none wallet.user_id)
      (http 409 (some (text "WALLET_OWNER_INVALID")) (text "Wallet ownership is invalid."))

-- `wallet.updateMany` on the owned wallet with an id that is not the system's and has the given
-- activity, which sets the activity; the result is the count of rows.
abbrev pub has_activity : Text → Bool → Wallet → Bool
has_activity id active w =
    w.id == id
    && ((if active then w.is_active else not w.is_active)
        && (is_some w.user_id && not (is_system w)))

unfoldable pub set_activity : Text → Bool → Action ℕ
set_activity id active db = (
  ok (count (has_activity id (not active)) db.wallets),
  record db {
    wallets =
        update_many (has_activity id (not active)) (λ w. record w { is_active = active })
          db.wallets;
  },
)

abbrev state_changed : Exception
state_changed =
    http 409 (some (text "WALLET_STATE_CHANGED"))
      (text "Wallet is already frozen or its state changed.")

abbrev active_state_changed : Exception
active_state_changed =
    http 409 (some (text "WALLET_STATE_CHANGED"))
      (text "Wallet is already active or its state changed.")

abbrev account_not_active : Exception
account_not_active =
    http 409 (some (text "ACCOUNT_NOT_ACTIVE"))
      (text "Cannot activate a wallet whose owner account is restricted.")

unfoldable pub deactive_wallet : Bool → WalletId → Action WalletOwnerResponse
unfolding assert_manageable_wallet set_activity
deactive_wallet reachable wallet_id = do
  assert_manageable_wallet wallet_id
  changed ← set_activity wallet_id.id false
  when_throw (not (eqb changed 1)) state_changed
  (λ db. (get_wallet_by_id reachable wallet_id db, db))

-- The wallet with an id whose owner's account is active.
unfoldable pub find_wallet_of_active_owner : Text → Db → Option Wallet
find_wallet_of_active_owner id db =
    find (λ w. w.id == id && owner_has_status w (to_prisma_status AccountStatus.active) db)
      db.wallets

unfoldable pub activate_in_transaction : WalletId → Action (Unit {0})
unfolding set_activity find_wallet_of_active_owner
activate_in_transaction wallet_id = do
  changed ← set_activity wallet_id.id true
  when_throw (not (eqb changed 1)) active_state_changed
  found ← gets (find_wallet_of_active_owner wallet_id.id)
  when_throw (is_none found) account_not_active

unfoldable pub active_wallet : Bool → WalletId → Action WalletOwnerResponse
unfolding assert_manageable_wallet activate_in_transaction
active_wallet reachable wallet_id = do
  assert_manageable_wallet wallet_id
  transaction (activate_in_transaction wallet_id)
  (λ db. (get_wallet_by_id reachable wallet_id db, db))
