-- ===== src/Schema/Enums.antt =====
-- The enums of backend/prisma/schema.prisma, which the database stores; the domain has its own.

pub data PrismaRole : Type 0 where
  customer agent merchant admin : PrismaRole

pub data PrismaAccountStatus : Type 0 where
  active locked suspended : PrismaAccountStatus

pub data PrismaWalletType : Type 0 where
  personal agent merchant system : PrismaWalletType

pub data PrismaTxType : Type 0 where
  send_money cash_in cash_out payment add_money : PrismaTxType

pub data PrismaTxStatus : Type 0 where
  pending processing completed failed reversed : PrismaTxStatus

pub data PrismaEntryType : Type 0 where
  debit credit : PrismaEntryType

pub data PrismaCurrency : Type 0 where
  bdt : PrismaCurrency

unfoldable pub PrismaRole-discrete : Discrete PrismaRole
PrismaRole-discrete = hlevel

unfoldable pub PrismaAccountStatus-discrete : Discrete PrismaAccountStatus
PrismaAccountStatus-discrete = hlevel

unfoldable pub PrismaWalletType-discrete : Discrete PrismaWalletType
PrismaWalletType-discrete = hlevel

unfoldable pub PrismaCurrency-discrete : Discrete PrismaCurrency
PrismaCurrency-discrete = hlevel
