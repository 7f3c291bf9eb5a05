-- ===== src/Tests/Restrictions.antt =====
-- The theorems on suspensions and frozen wallets, at the small database.
use kori.Common.{◌≡◌, refl, Bool, true, false, some, [], ◌∷◌, inl, map}
use kori.Common.Result.{ok, err}
use kori.Common.Table.Keys.{Distinct}
use kori.Common.Text.{text, apart}
use kori.Domain.Enums.{AccountStatus, WalletType}
use kori.Schema.{Db, User, Wallet, TrustDevice}
use kori.Schema.Enums.{PrismaAccountStatus, PrismaWalletType, PrismaCurrency}
use kori.Common.Int.{pos}
use kori.Store.{find_user, find_wallet_of_user}
use kori.Store.Balances.{ids}
use kori.Accounts.{AccountRestrictionResponse, suspend, reactivate, with_status}
use kori.Accounts.Laws.{
  IsShut, suspend-IsShut, suspend_bars_transfers, reactivate_effect, reactivate_keeps_bar,
}
use kori.Transactions.Transfer.{execute_acid_transfer, participant_restricted, find_participant}
use kori.Wallets.{WalletOwnerResponse}
use kori.Wallets.Manage.{deactive_wallet, active_wallet}
use kori.Wallets.Freezing.{
  deactive_wallet_bars_transfers, active_wallet_participates, find_system, manage_keeps_system,
}
use kori.Domain.Enums.{Role}
use kori.Http.Guards.{active_account_guard, account_restricted}
use kori.Http.Guards.Laws.{suspend_refuses_requests}
use kori.Tests.Data.{opened, bank, alice, send, fresh, wallet, id_of, actor}
use kori.Tests.Transfers.{bank-Distinct}

-- Alice is logged in on a device.
abbrev device : TrustDevice
device = record {
  id = text "d1";
  device_id = text "phone";
  user_id = alice;
  is_authorized = true;
  refresh_session_id = some (text "s1");
  current_refresh_jti = some (text "j1");
  last_used_at = 1;
  created_at = 0;
}

abbrev logged_in : Db
logged_in = record bank { trust_devices = device ∷ [] }

abbrev suspended_db : Db
suspended_db = (suspend actor logged_in).1

abbrev suspended_response : AccountRestrictionResponse
suspended_response = record { user_id = alice; status = AccountStatus.suspended }

alice_suspended : suspend actor logged_in ≡ (ok suspended_response, suspended_db)
unfolding opened
alice_suspended = refl

users-Distinct : Distinct (map (λ (u : User). u.id) bank.users)
unfolding opened
users-Distinct = ((apart _ _ refl, (apart _ _ refl, tt)), ((apart _ _ refl, tt), (tt, tt)))

suspend-IsShut_example :
    (suspended_response ≡ record { user_id = alice; status = AccountStatus.suspended })
    × IsShut alice suspended_db
suspend-IsShut_example =
    suspend-IsShut actor logged_in suspended_response suspended_db users-Distinct alice_suspended

suspend_refuses_requests_example :
    active_account_guard true (some (record { sub = alice; role = Role.admin })) suspended_db
    ≡ err account_restricted
suspend_refuses_requests_example =
    suspend_refuses_requests actor logged_in suspended_response suspended_db Role.admin
      users-Distinct alice_suspended

abbrev wallet_of_alice : Wallet
wallet_of_alice = wallet (text "wa") (some alice) PrismaWalletType.personal (pos 100000)

owned_by_alice : find_wallet_of_user alice logged_in ≡ some wallet_of_alice
unfolding opened
owned_by_alice = refl

suspend_bars_transfers_example :
    execute_acid_transfer fresh send suspended_db ≡ (err participant_restricted, suspended_db)
suspend_bars_transfers_example =
    suspend_bars_transfers actor logged_in suspended_response suspended_db wallet_of_alice fresh
      send bank-Distinct alice_suspended owned_by_alice (inl refl)

abbrev active_response : AccountRestrictionResponse
active_response = record { user_id = alice; status = AccountStatus.active }

abbrev reactivated_db : Db
reactivated_db = (reactivate actor suspended_db).1

alice_reactivated : reactivate actor suspended_db ≡ (ok active_response, reactivated_db)
unfolding opened
alice_reactivated = refl

reactivate_keeps_bar_example :
    execute_acid_transfer fresh send reactivated_db ≡ (err participant_restricted, reactivated_db)
reactivate_keeps_bar_example =
    reactivate_keeps_bar actor logged_in suspended_db reactivated_db suspended_response
      active_response wallet_of_alice fresh send bank-Distinct owned_by_alice alice_suspended
      alice_reactivated (inl refl)

suspended-Distinct : Distinct (map (λ (u : User). u.id) suspended_db.users)
unfolding opened
suspended-Distinct = users-Distinct

reactivate_effect_example :
    ((u : User) × (find_user alice suspended_db ≡ some u)
      × (u.status ≡ PrismaAccountStatus.suspended)
      × (find_user alice reactivated_db ≡ some (with_status AccountStatus.active u)))
    × (reactivated_db.wallets ≡ suspended_db.wallets)
    × (reactivated_db.trust_devices ≡ suspended_db.trust_devices)
reactivate_effect_example =
    reactivate_effect actor suspended_db active_response reactivated_db suspended-Distinct
      alice_reactivated

-- Alice's wallet is frozen, and unfrozen again.
abbrev response : Bool → WalletOwnerResponse
response active = record {
  balance_response = record {
    id = text "wa";
    balance = pos 100000;
    type = WalletType.personal;
    currency = PrismaCurrency.bdt;
    is_active = active;
  };
  user_id = some alice;
  created_at = 0;
}

abbrev frozen_db : Db
frozen_db = (deactive_wallet true (id_of (text "wa")) bank).1

wallet_frozen : deactive_wallet true (id_of (text "wa")) bank ≡ (ok (response false), frozen_db)
unfolding opened
wallet_frozen = refl

deactive_wallet_bars_transfers_example :
    execute_acid_transfer fresh send frozen_db ≡ (err participant_restricted, frozen_db)
deactive_wallet_bars_transfers_example =
    deactive_wallet_bars_transfers true (id_of (text "wa")) bank (response false) frozen_db fresh
      send bank-Distinct wallet_frozen (inl refl)

abbrev thawed_db : Db
thawed_db = (active_wallet true (id_of (text "wa")) frozen_db).1

wallet_thawed : active_wallet true (id_of (text "wa")) frozen_db ≡ (ok (response true), thawed_db)
unfolding opened
wallet_thawed = refl

frozen-Distinct : Distinct (ids frozen_db.wallets)
unfolding opened
frozen-Distinct = bank-Distinct

active_wallet_participates_example :
    (w : Wallet) × (find_participant (text "wa") thawed_db ≡ some w)
active_wallet_participates_example =
    active_wallet_participates true (id_of (text "wa")) frozen_db (response true) thawed_db
      frozen-Distinct wallet_thawed

manage_keeps_system_example :
    (find_system (text "ws") (deactive_wallet true (id_of (text "wa")) bank).1.wallets
      ≡ find_system (text "ws") bank.wallets)
    × (find_system (text "ws") (active_wallet true (id_of (text "wa")) bank).1.wallets
        ≡ find_system (text "ws") bank.wallets)
manage_keeps_system_example = manage_keeps_system true (id_of (text "wa")) (text "ws") bank
