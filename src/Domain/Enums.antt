-- ===== src/Domain/Enums.antt =====
-- backend/src/domain/enums/index.ts.

pub data Role : Type 0 where
  customer agent merchant admin : Role

pub data AccountStatus : Type 0 where
  active locked suspended : AccountStatus

pub data WalletType : Type 0 where
  personal agent merchant system : WalletType

pub data TransactionType : Type 0 where
  send_money cash_in cash_out payment add_money : TransactionType

pub data TransactionStatus : Type 0 where
  pending processing completed failed reversed : TransactionStatus

pub data EntryType : Type 0 where
  debit credit : EntryType

pub data Currency : Type 0 where
  bdt : Currency

unfoldable pub Role-discrete : Discrete Role
Role-discrete = hlevel

unfoldable pub AccountStatus-discrete : Discrete AccountStatus
AccountStatus-discrete = hlevel

unfoldable pub WalletType-discrete : Discrete WalletType
WalletType-discrete = hlevel

unfoldable pub TransactionType-discrete : Discrete TransactionType
TransactionType-discrete = hlevel

unfoldable pub Currency-discrete : Discrete Currency
Currency-discrete = hlevel
