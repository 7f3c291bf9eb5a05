-- ===== src/Transactions/Service.antt =====
-- `sendMoney`, `cashIn`, `cashOut` and `payment` of
-- backend/src/modules/transactions/transactions.service.ts. Other requests run between the awaits of
-- a call: `found` is the database when the wallets are looked up, `checked` when they are checked,
-- and the transfer runs on the database that the action is given.
pub mod Prepared
pub mod Laws
use kori.Common.{Bool, true, false, Option, none, some, [], ◌∷◌, List}
use kori.Common.Text.{Text}
use kori.Common.Result.{Result, ok, err, ◌>>=◌, ◌>>◌, Exception, or_throw}
use kori.Domain.Enums.{TransactionType, WalletType}
use kori.Domain.PhoneNumber.{PhoneNumber, PhoneParser}
use kori.Domain.PhoneNumber
use kori.Domain.UserId.{UserId}
use kori.Domain.WalletId.{WalletId}
use kori.Schema.{Db}
use kori.Store.{Action}
use kori.Transactions.Amount.{TransactionAmounts, calculate_transfer_math}
use kori.Transactions.Eligibility.{assert_transfer_eligibility}
use kori.Transactions.Transfer.{Transfer, Fresh, TransactionResultResponse, execute_acid_transfer}
use kori.Wallets.{get_own_wallet_id, resolve_wallet_id_by_phone}

-- SendMoneyDto, CashInDto and CashOutDto: the amount, the phone of the other party, a reference.
pub record TransferDto : Type 0 where
  pub amount_minor_units : Text
  pub phone : Text
  pub reference : Option Text

pub record PaymentDto : Type 0 where
  pub base : TransferDto
  pub open base use *
  pub invoice_number : Option Text

-- What a call meets outside the database: the phone parser, whether the database answers, the
-- cached system wallet, the snapshots, and the values for the new row.
pub record Setting : Type 0 where
  pub parse : PhoneParser
  pub reachable : Bool
  pub cached_system_wallet_id : Option WalletId
  pub found : Db
  pub checked : Db
  pub fresh : Fresh

-- The rules of one operation: its type, and the wallet types of the two parties.
pub record Rule : Type 0 where
  pub type : TransactionType
  pub sender_type : WalletType
  pub receiver_type : WalletType

abbrev pub build :
    Rule → WalletId → WalletId → WalletId → TransactionAmounts → Text → Option Text → Transfer
build rule sender receiver system amounts key reference = record {
  sender_wallet_id = sender;
  receiver_wallet_id = receiver;
  system_wallet_id = system;
  transfer_amount = amounts.transfer_amount;
  total_required_amount = amounts.total_required_amount;
  fee_amount = amounts.fee_amount;
  type = rule.type;
  idempotency_key = key;
  reference = reference;
}

-- The part of a call before the transfer, which reads only. The four operations have this body in
-- common, each with its rule.
unfoldable pub prepare :
    Rule → Setting → UserId → TransferDto → Text → Option Text → Result Transfer
prepare rule s actor dto key reference = do
  number ← PhoneNumber.from s.parse dto.phone
  amounts ← calculate_transfer_math dto.amount_minor_units rule.type
  sender ← get_own_wallet_id s.reachable actor s.found
  receiver ← resolve_wallet_id_by_phone s.reachable number s.found
  assert_transfer_eligibility s.reachable s.cached_system_wallet_id sender receiver rule.sender_type
      rule.receiver_type amounts.total_required_amount s.checked
  system ← or_throw s.cached_system_wallet_id (Exception.error [])
  ok (build rule sender receiver system amounts key reference)

unfoldable pub perform :
    Rule → Setting → UserId → TransferDto → Text → Option Text → Action TransactionResultResponse
unfolding prepare
perform rule s actor dto key reference db = elim (prepare rule s actor dto key reference) [
  | err e ↦ (err e, db)
  | ok t ↦ execute_acid_transfer s.fresh t db
]

abbrev pub send_money_rule : Rule
send_money_rule = record {
  type = TransactionType.send_money;
  sender_type = WalletType.personal;
  receiver_type = WalletType.personal;
}

abbrev pub cash_in_rule : Rule
cash_in_rule = record {
  type = TransactionType.cash_in;
  sender_type = WalletType.agent;
  receiver_type = WalletType.personal;
}

abbrev pub cash_out_rule : Rule
cash_out_rule = record {
  type = TransactionType.cash_out;
  sender_type = WalletType.personal;
  receiver_type = WalletType.agent;
}

abbrev pub payment_rule : Rule
payment_rule = record {
  type = TransactionType.payment;
  sender_type = WalletType.personal;
  receiver_type = WalletType.merchant;
}

unfoldable pub send_money : Setting → UserId → TransferDto → Text → Action TransactionResultResponse
unfolding perform
send_money s actor dto key = perform send_money_rule s actor dto key dto.reference

unfoldable pub cash_in : Setting → UserId → TransferDto → Text → Action TransactionResultResponse
unfolding perform
cash_in s actor dto key = perform cash_in_rule s actor dto key dto.reference

unfoldable pub cash_out : Setting → UserId → TransferDto → Text → Action TransactionResultResponse
unfolding perform
cash_out s actor dto key = perform cash_out_rule s actor dto key dto.reference

-- `reference || invoiceNumber`: an empty reference counts as none.
abbrev pub or_invoice : Option Text → Option Text → Option Text
or_invoice none invoice = invoice
or_invoice (some []) invoice = invoice
or_invoice (some (c ∷ s)) invoice = some (c ∷ s)

unfoldable pub payment : Setting → UserId → PaymentDto → Text → Action TransactionResultResponse
unfolding perform
payment s actor dto key =
    perform payment_rule s actor dto.base key (or_invoice dto.reference dto.invoice_number)
