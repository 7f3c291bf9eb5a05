-- ===== src/Wallets.antt =====
-- backend/src/modules/wallets/wallets.service.ts. `reachable` says whether the database answers the
-- query of a call; where the service catches its failure, the call throws status 500.
pub mod Manage
pub mod Freezing
use kori.Common.{
  Bool, true, false, Option, none, some, ℕ, not, same, ◌∷◌, ◌++◌, ◌&&◌, ◌||◌, if◌then◌else◌,
}
use kori.Common.Int.{ℤ, pos}
use kori.Common.Text.{Text, text, ◌==◌}
use kori.Common.Result.{
  Result, ok, err, Exception, ◌>>=◌, ◌>>◌, or_throw, throw_if, not_found, internal_server_error,
  bad_request,
}
use kori.Common.Table.{find, any}
use kori.Domain.Enums.{Role, WalletType, Currency, Role-discrete}
use kori.Domain.WalletId.{WalletId}
use kori.Domain.WalletId
use kori.Domain.UserId.{UserId}
use kori.Domain.PhoneNumber.{PhoneNumber}
use kori.Mappers.Wallet.{to_domain_type, to_prisma_type, to_domain_currency}
use kori.Schema.{Db, Wallet}
use kori.Schema.Enums.{PrismaWalletType, PrismaCurrency}
use kori.Store.{
  Action, find_wallet, find_wallet_of_user, find_user_by_phone, unique_violation, is_text, lift,
}

pub record WalletBalanceResponse : Type 0 where
  pub id : Text
  pub balance : ℤ
  pub type : WalletType
  pub currency : PrismaCurrency
  pub is_active : Bool

pub record WalletOwnerResponse : Type 0 where
  pub balance_response : WalletBalanceResponse
  pub user_id : Option Text
  pub created_at : ℕ

pub record WalletStateForTransaction : Type 0 where
  pub id : Text
  pub type : WalletType
  pub balance : ℤ
  pub currency : Currency

-- A query whose failure the service turns into an exception of its own.
abbrev pub query {ℓ} : {A : Type ℓ} → Bool → Exception → A → Result A
query true e a = ok a
query false e a = err e

abbrev to_balance_response : Wallet → WalletBalanceResponse
to_balance_response w = record {
  id = w.id;
  balance = w.balance;
  type = to_domain_type w.type;
  currency = w.currency;
  is_active = w.is_active;
}

abbrev to_owner_response : Wallet → WalletOwnerResponse
to_owner_response w = record {
  balance_response = to_balance_response w;
  user_id = w.user_id;
  created_at = w.created_at;
}

unfoldable pub get_my_balance : Bool → UserId → Db → Result WalletBalanceResponse
unfolding find_wallet_of_user
get_my_balance reachable user db = do
  found ←
      query reachable (internal_server_error (text "Failed to retrive wallet"))
        (find_wallet_of_user user.id db)
  wallet ← or_throw found (not_found (text "No wallet found for this account. Contact Support"))
  ok (to_balance_response wallet)

unfoldable pub get_wallet_by_id : Bool → WalletId → Db → Result WalletOwnerResponse
unfolding find_wallet
get_wallet_by_id reachable wallet_id db = do
  found ←
      query reachable (internal_server_error (text "Failed to retrive wallet"))
        (find_wallet wallet_id.id db)
  wallet ←
      or_throw found
        (not_found (text "Wallet with ID:" ++ (wallet_id.id ++ text " does not exist.")))
  ok (to_owner_response wallet)

-- The wallet with an id, if it is active.
unfoldable pub find_active_wallet : Text → Db → Option Wallet
find_active_wallet id db = find (λ w. w.id == id && w.is_active) db.wallets

unfoldable pub get_wallet_state_for_transaction :
    Bool → WalletId → Db → Result WalletStateForTransaction
unfolding find_active_wallet
get_wallet_state_for_transaction reachable wallet_id db = do
  found ←
      query reachable
        (internal_server_error (text "An error ocured while getting wallet state for transaction"))
        (find_active_wallet wallet_id.id db)
  wallet ←
      or_throw found
        (not_found (text "Wallet with ID:" ++ (wallet_id.id ++ text " does not exist.")))
  ok (record {
    id = wallet.id;
    type = to_domain_type wallet.type;
    balance = wallet.balance;
    currency = to_domain_currency wallet.currency;
  })

unfoldable pub get_own_wallet_id : Bool → UserId → Db → Result WalletId
unfolding find_wallet_of_user
get_own_wallet_id reachable user db = do
  found ←
      query reachable (internal_server_error (text "Failed to resolve wallet"))
        (find_wallet_of_user user.id db)
  wallet ← or_throw found (not_found (text "No wallet found for this account. Contact support."))
  WalletId.from wallet.id

-- The wallet of the user who has a phone number.
unfoldable pub find_wallet_by_phone : Text → Db → Option Wallet
unfolding find_user_by_phone find_wallet_of_user
find_wallet_by_phone phone db = elim (find_user_by_phone phone db) [
  | none ↦ none
  | some u ↦ find_wallet_of_user u.id db
]

-- Every failure but the missing account becomes status 500, that of `WalletId.from` too.
abbrev resolve_failure : Exception
resolve_failure = internal_server_error (text "Failed to resolve recipient account")

abbrev or_resolve_failure {ℓ} : {A : Type ℓ} → Result A → Result A
or_resolve_failure (ok a) = ok a
or_resolve_failure (err _) = err resolve_failure

unfoldable pub resolve_wallet_id_by_phone : Bool → PhoneNumber → Db → Result WalletId
unfolding find_wallet_by_phone
resolve_wallet_id_by_phone reachable number db = do
  found ← query reachable resolve_failure (find_wallet_by_phone number.phone db)
  wallet ← or_throw found (not_found (text "Recipient account not found."))
  or_resolve_failure (WalletId.from wallet.id)

-- `wallet.create` for a user, with the unique column `userId`. The id and the time of the new row
-- come from the database.
abbrev pub new_wallet : Text → ℕ → Text → WalletType → Wallet
new_wallet new_id now user_id type = record {
  id = new_id;
  user_id = some user_id;
  type = to_prisma_type type;
  is_active = true;
  balance = pos 0;
  currency = PrismaCurrency.bdt;
  created_at = now;
}

unfoldable pub create_wallet : Text → ℕ → Text → WalletType → Action (Unit {0})
create_wallet new_id now user_id type db =
    if any (λ w. w.id == new_id || is_text w.user_id user_id) db.wallets
    then (err unique_violation, db)
    else (ok tt, record db { wallets = new_wallet new_id now user_id type ∷ db.wallets })

unfoldable pub create_personal_wallet : Text → ℕ → Text → Action (Unit {0})
unfolding create_wallet
create_personal_wallet new_id now user_id = create_wallet new_id now user_id WalletType.personal

unfoldable pub create_business_wallet : Text → ℕ → Text → Role → Action (Unit {0})
unfolding create_wallet
create_business_wallet new_id now user_id role db =
    if not (same Role-discrete role Role.agent) && not (same Role-discrete role Role.merchant)
    then (err (bad_request (text "Only AGENT and MERCHANT wallets can be provisioned here.")), db)
    else create_wallet new_id now user_id wallet_type db
  where
    wallet_type : WalletType
    wallet_type =
        if same Role-discrete role Role.agent then WalletType.agent else WalletType.merchant
