-- ===== src/Transactions/Description.antt =====
-- backend/src/common/utils/dynamic-ledger-description.util.ts. Every type has its strategy, so the
-- fallback cannot occur.
use kori.Common.{◌++◌}
use kori.Common.Text.{Text, text}
use kori.Domain.Enums.{TransactionType}
use kori.Domain.Enums.TransactionType.{send_money, cash_in, cash_out, payment, add_money}
use kori.Domain.WalletId.{WalletId}

pub record LedgerDescription : Type 0 where
  pub debit_description : Text
  pub credit_description : Text

unfoldable pub dynamic_ledger_description :
    TransactionType → WalletId → WalletId → LedgerDescription
dynamic_ledger_description send_money sender receiver = record {
  debit_description = text "Sent Money to " ++ receiver.id;
  credit_description = text "Money received from " ++ sender.id;
}
dynamic_ledger_description cash_in sender receiver = record {
  debit_description = text "Cash In to User " ++ receiver.id;
  credit_description = text "Cash deposit processed by Agent " ++ sender.id;
}
dynamic_ledger_description cash_out sender receiver = record {
  debit_description = text "Cash Out withdrawl debit via Agent " ++ receiver.id;
  credit_description = text "Cash Out fulfillment from User " ++ sender.id;
}
dynamic_ledger_description payment sender receiver = record {
  debit_description = text "Payment completed to Merchant " ++ receiver.id;
  credit_description = text "Payment received from User " ++ sender.id;
}
dynamic_ledger_description add_money sender receiver = record {
  debit_description = text "System Float allocation for User " ++ receiver.id;
  credit_description = text "Digital Money Minted from External Bank for User " ++ receiver.id;
}
