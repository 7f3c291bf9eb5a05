-- ===== src/Transactions/Eligibility.antt =====
-- `assertTransferEligibility` and `onModuleInit` of
-- backend/src/modules/transactions/transactions.service.ts: the checks before a transfer, on the
-- database as it is then, and the system wallet that the service caches when it starts.
use kori.Common.{
  Bool, Option, some, not, same, List, [], ◌∷◌, ◌++◌, ◌||◌, eqb, is_some, is_none, if◌then◌else◌, ℕ,
}
use kori.Common.Text.{Text, text}
use kori.Common.Result.{
  Result, err, Exception, http, error, ◌>>=◌, ◌>>◌, throw_if, bad_request, internal_server_error,
}
use kori.Domain.Enums.{WalletType, WalletType-discrete, Currency, Currency-discrete}
use kori.Domain.Money.{Money, from_minor_units, is_less_than}
use kori.Domain.WalletId.{WalletId}
use kori.Domain.WalletId
use kori.Mappers.Wallet.{to_prisma_type}
use kori.Schema.{Db, Wallet}
use kori.Schema.Enums.{PrismaWalletType-discrete, PrismaCurrency, PrismaCurrency-discrete}
use kori.Transactions.Transfer.{insufficient_funds}
use kori.Wallets.{get_wallet_state_for_transaction}

-- The text of an enum member.
abbrev wallet_type_text : WalletType → Text
wallet_type_text WalletType.personal = text "PERSONAL"
wallet_type_text WalletType.agent = text "AGENT"
wallet_type_text WalletType.merchant = text "MERCHANT"
wallet_type_text WalletType.system = text "SYSTEM"

-- `findMany({ where: { type: SYSTEM }, take: 2 })`.
unfoldable pub system_wallets : List Wallet → List Wallet
system_wallets [] = []
system_wallets (w ∷ ws) =
    if same PrismaWalletType-discrete w.type (to_prisma_type WalletType.system)
    then w ∷ system_wallets ws
    else system_wallets ws

abbrev take_two : List Wallet → List Wallet
take_two [] = []
take_two (w ∷ []) = w ∷ []
take_two (w ∷ v ∷ ws) = w ∷ v ∷ []

abbrev pub invalid_system_wallet : Exception
invalid_system_wallet =
    error (text "SYSTEM wallet has invalid ownership, currency, or activity state.")

abbrev count_error : ℕ → Exception
count_error n = error (
    if eqb n 0
    then text "Expected exactly one SYSTEM wallet, found 0."
    else text "Expected exactly one SYSTEM wallet, found 2.")

-- The id that `onModuleInit` caches, or the error that stops the start.
unfoldable pub on_module_init : Db → Result WalletId
unfolding system_wallets
on_module_init db = elim (take_two (system_wallets db.wallets)) [
  | [] ↦ err (count_error 0)
  | w ∷ rest ↦ elim rest [
    | [] ↦ do
      throw_if
          (is_some w.user_id
            || not (same PrismaCurrency-discrete w.currency PrismaCurrency.bdt)
            || not w.is_active)
          invalid_system_wallet
      WalletId.from w.id
    | _ ∷ _ ↦ err (count_error 2)
  ]
]

abbrev pub own_account : Exception
own_account = bad_request (text "Can not do transaction to own account")

abbrev system_wallet_missing : Exception
system_wallet_missing =
    internal_server_error (text "Critical System Revenue Wallet is missing from the database.")

abbrev wrong_sender : WalletType → Exception
wrong_sender expected =
    bad_request (
      text "Unauthorized: Sender wallet must be of type "
      ++ (wallet_type_text expected ++ text "."))

abbrev wrong_receiver : WalletType → Exception
wrong_receiver expected = bad_request (
    text "Unauthorized: Receiver wallet must be of type "
    ++ (wallet_type_text expected ++ text "."))

abbrev currency_mismatch : Exception
currency_mismatch =
    http 400 (some (text "CURRENCY_MISMATCH"))
      (text "Transactions are currently only supported for BDT currency.")

unfoldable pub assert_transfer_eligibility :
    Bool
    → Option WalletId
    → WalletId
    → WalletId
    → WalletType
    → WalletType
    → Money
    → Db
    → Result (Unit {0})
assert_transfer_eligibility reachable cached sender_id receiver_id sender_type receiver_type total
      db =
    do
      throw_if (WalletId.equals sender_id receiver_id) own_account
      throw_if (is_none cached) system_wallet_missing
      sender ← get_wallet_state_for_transaction reachable sender_id db
      receiver ← get_wallet_state_for_transaction reachable receiver_id db
      throw_if (not (same WalletType-discrete sender.type sender_type)) (wrong_sender sender_type)
      throw_if (not (same WalletType-discrete receiver.type receiver_type))
          (wrong_receiver receiver_type)
      throw_if
          (not (same Currency-discrete sender.currency Currency.bdt)
            || not (same Currency-discrete receiver.currency Currency.bdt))
          currency_mismatch
      balance ← from_minor_units sender.balance Currency.bdt
      short ← is_less_than balance total
      throw_if short insufficient_funds
