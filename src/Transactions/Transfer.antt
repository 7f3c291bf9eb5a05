-- ===== src/Transactions/Transfer.antt =====
-- `executeACIDTransfer` of backend/src/modules/transactions/transactions.service.ts: the body of the
-- database transaction, step by step, and the handler of its errors. The row locks make the body
-- one atomic step on the tables.
pub mod Moves
pub mod Inversion
pub mod Laws
pub mod Effect
pub mod Ledger
pub mod Safety
pub mod Postings
pub mod Success
pub mod Refusals
pub mod Restrictions
use kori.Common.{ℕ, Bool, true, false, Option, none, some, not, ◌&&◌, ◌++◌, ◌+◌, if◌then◌else◌}
use kori.Common.Int.{ℤ, pos, ◌-ℤ◌}
use kori.Common.Text.{Text, text, ◌==◌}
use kori.Common.Result.{Result, ok, err, Exception, http, error, prisma, bad_request, conflict}
use kori.Common.Table.{find}
use kori.Domain.Enums.{AccountStatus, Currency, TransactionType, TransactionStatus}
use kori.Domain.Money.{Money, from_minor_units, is_less_than, is_zero}
use kori.Domain.WalletId.{WalletId}
use kori.Domain.WalletId
use kori.Mappers.Account.{to_prisma_status}
use kori.Mappers.Transaction
use kori.Schema.{Db, Wallet, Transaction}
use kori.Schema.Enums.{PrismaEntryType}
use kori.Store.{
  Action, ◌>>=◌, ◌>>◌, pure, throw, gets, lift, transaction, owner_has_status, update_balance,
  create_transaction, create_entry,
}
use kori.Transactions.Amount.Decimal.{show_big_int}
use kori.Transactions.Description.{LedgerDescription, dynamic_ledger_description}
use kori.Wallets.{find_active_wallet}

-- The arguments of the call.
pub record Transfer : Type 0 where
  pub sender_wallet_id : WalletId
  pub receiver_wallet_id : WalletId
  pub system_wallet_id : WalletId
  pub transfer_amount : Money
  pub total_required_amount : Money
  pub fee_amount : Money
  pub type : TransactionType
  pub idempotency_key : Text
  pub reference : Option Text

-- What the call takes from elsewhere: `generateTrxId()`, the id and the time of the new row.
pub record Fresh : Type 0 where
  pub trx_id : Text
  pub id : Text
  pub now : ℕ

pub record TransactionResultResponse : Type 0 where
  pub trx_id : Text
  pub type : TransactionType
  pub amount : Text
  pub fee : Text
  pub status : TransactionStatus
  pub created_at : ℕ
  pub new_balance : Text

-- 2. The participants as they are once the rows are locked.
abbrev pub is_participant : Text → Db → Wallet → Bool
is_participant id db w =
    w.id == id && (w.is_active && owner_has_status w (to_prisma_status AccountStatus.active) db)

unfoldable pub find_participant : Text → Db → Option Wallet
find_participant id db = find (is_participant id db) db.wallets

abbrev pub participant_restricted : Exception
participant_restricted =
    http 403 (some (text "TRANSACTION_PARTICIPANT_RESTRICTED"))
      (text "One or more transaction participants are restricted.")

unfoldable pub lock_participants : Transfer → Db → Result Wallet
unfolding find_participant find_active_wallet
lock_participants t db = elim (find_participant t.sender_wallet_id.id db) [
  | none ↦ err participant_restricted
  | some sender ↦ elim (find_participant t.receiver_wallet_id.id db) [
    | none ↦ err participant_restricted
    | some _ ↦ elim (find_active_wallet t.system_wallet_id.id db) [
      | none ↦ err participant_restricted
      | some _ ↦ ok sender
    ]
  ]
]

abbrev pub insufficient_funds : Exception
insufficient_funds = bad_request (text "Insufficient funds")

abbrev pub throw_when : Bool → Exception → Action (Unit {0})
throw_when true e = throw e
throw_when false e = pure tt

unfoldable pub assert_funds : Wallet → Money → Action (Unit {0})
unfolding from_minor_units is_less_than
assert_funds sender required = do
  balance ← lift (from_minor_units sender.balance Currency.bdt)
  short ← lift (is_less_than balance required)
  throw_when short insufficient_funds

-- 3. The row of the transaction.
abbrev pub transaction_row : Fresh → Transfer → Transaction
transaction_row fresh t = record {
  id = fresh.id;
  trx_id = fresh.trx_id;
  idempotency_key = t.idempotency_key;
  type = Transaction.to_prisma_type t.type;
  status = Transaction.to_prisma_status TransactionStatus.completed;
  amount = t.transfer_amount.amount_minor_units;
  fee = t.fee_amount.amount_minor_units;
  reference = t.reference;
  sender_wallet_id = t.sender_wallet_id.id;
  receiver_wallet_id = t.receiver_wallet_id.id;
  created_at = fresh.now;
}

-- 4. A wallet is debited or credited, and the entry records the balance after it.
unfoldable pub debit : Text → Text → Money → Text → Action Wallet
unfolding update_balance
debit transaction_id wallet_id amount description = do
  updated ← update_balance wallet_id (pos 0 -ℤ amount.amount_minor_units)
  create_entry (record {
    transaction_id = transaction_id;
    wallet_id = wallet_id;
    type = PrismaEntryType.debit;
    amount = amount.amount_minor_units;
    balance_after = updated.balance;
    description = description;
  })
  pure updated

unfoldable pub credit : Text → Text → Money → Text → Action Wallet
unfolding update_balance
credit transaction_id wallet_id amount description = do
  updated ← update_balance wallet_id amount.amount_minor_units
  create_entry (record {
    transaction_id = transaction_id;
    wallet_id = wallet_id;
    type = PrismaEntryType.credit;
    amount = amount.amount_minor_units;
    balance_after = updated.balance;
    description = description;
  })
  pure updated

unfoldable pub collect_fee : Transaction → Transfer → Action (Unit {0})
unfolding is_zero
collect_fee row t = if is_zero t.fee_amount then pure tt else (do
  credit row.id t.system_wallet_id.id t.fee_amount (text "Fee collection for TRX " ++ row.trx_id)
  pure tt)

-- The two balances that the response may show.
unfoldable pub move_money : Transaction → Transfer → Action (Wallet × Wallet)
move_money row t = do
  let description = dynamic_ledger_description t.type t.sender_wallet_id t.receiver_wallet_id
  sender ← debit row.id t.sender_wallet_id.id t.total_required_amount description.debit_description
  receiver ← credit row.id t.receiver_wallet_id.id t.transfer_amount description.credit_description
  collect_fee row t
  pure (sender, receiver)

-- 5. The response.
abbrev pub response : Transfer → Transaction → Wallet → Wallet → TransactionResultResponse
response t row sender receiver = record {
  trx_id = row.trx_id;
  type = Transaction.to_domain_type row.type;
  amount = show_big_int t.transfer_amount.amount_minor_units;
  fee = show_big_int t.fee_amount.amount_minor_units;
  status = Transaction.to_domain_status row.status;
  created_at = row.created_at;
  new_balance =
      if WalletId.equals t.sender_wallet_id t.system_wallet_id
      then show_big_int receiver.balance
      else show_big_int sender.balance;
}

unfoldable pub transfer_body : Fresh → Transfer → Action TransactionResultResponse
transfer_body fresh t = do
  sender ← (λ db. (lock_participants t db, db))
  assert_funds sender t.total_required_amount
  row ← create_transaction (transaction_row fresh t)
  updated ← move_money row t
  pure (response t row updated.0 updated.1)

abbrev pub already_processed : Exception
already_processed = conflict (text "This Transaction was already securely possesed by the database")

-- The `catch`: P2002 becomes a conflict, and every other error is thrown on.
abbrev pub on_transfer_error : Exception → Exception
on_transfer_error (prisma code) = if code == text "P2002" then already_processed else prisma code
on_transfer_error e = e

abbrev pub catch_transfer : {A : Type 0} → Result A → Result A
catch_transfer (ok a) = ok a
catch_transfer (err e) = err (on_transfer_error e)

unfoldable pub execute_acid_transfer : Fresh → Transfer → Action TransactionResultResponse
execute_acid_transfer fresh t db =
    let (r, db') = transaction (transfer_body fresh t) db in (catch_transfer r, db')
