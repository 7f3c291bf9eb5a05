-- ===== src/Mappers/Wallet.antt =====
-- backend/src/infrastructure/prisma/mappers/wallet.mapper.ts.
use kori.Domain.Enums.{Currency, WalletType}
use kori.Schema.Enums.{PrismaCurrency, PrismaWalletType}

abbrev pub to_domain_type : PrismaWalletType → WalletType
to_domain_type PrismaWalletType.personal = WalletType.personal
to_domain_type PrismaWalletType.agent = WalletType.agent
to_domain_type PrismaWalletType.merchant = WalletType.merchant
to_domain_type PrismaWalletType.system = WalletType.system

abbrev pub to_prisma_type : WalletType → PrismaWalletType
to_prisma_type WalletType.personal = PrismaWalletType.personal
to_prisma_type WalletType.agent = PrismaWalletType.agent
to_prisma_type WalletType.merchant = PrismaWalletType.merchant
to_prisma_type WalletType.system = PrismaWalletType.system

abbrev pub to_domain_currency : PrismaCurrency → Currency
to_domain_currency PrismaCurrency.bdt = Currency.bdt

abbrev pub to_prisma_currency : Currency → PrismaCurrency
to_prisma_currency Currency.bdt = PrismaCurrency.bdt
