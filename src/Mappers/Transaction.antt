-- ===== src/Mappers/Transaction.antt =====
-- backend/src/infrastructure/prisma/mappers/transaction.mapper.ts.
use kori.Domain.Enums.{TransactionStatus, TransactionType}
use kori.Schema.Enums.{PrismaTxStatus, PrismaTxType}

abbrev pub to_domain_type : PrismaTxType → TransactionType
to_domain_type PrismaTxType.send_money = TransactionType.send_money
to_domain_type PrismaTxType.cash_in = TransactionType.cash_in
to_domain_type PrismaTxType.cash_out = TransactionType.cash_out
to_domain_type PrismaTxType.payment = TransactionType.payment
to_domain_type PrismaTxType.add_money = TransactionType.add_money

abbrev pub to_prisma_type : TransactionType → PrismaTxType
to_prisma_type TransactionType.send_money = PrismaTxType.send_money
to_prisma_type TransactionType.cash_in = PrismaTxType.cash_in
to_prisma_type TransactionType.cash_out = PrismaTxType.cash_out
to_prisma_type TransactionType.payment = PrismaTxType.payment
to_prisma_type TransactionType.add_money = PrismaTxType.add_money

abbrev pub to_domain_status : PrismaTxStatus → TransactionStatus
to_domain_status PrismaTxStatus.pending = TransactionStatus.pending
to_domain_status PrismaTxStatus.processing = TransactionStatus.processing
to_domain_status PrismaTxStatus.completed = TransactionStatus.completed
to_domain_status PrismaTxStatus.failed = TransactionStatus.failed
to_domain_status PrismaTxStatus.reversed = TransactionStatus.reversed

abbrev pub to_prisma_status : TransactionStatus → PrismaTxStatus
to_prisma_status TransactionStatus.pending = PrismaTxStatus.pending
to_prisma_status TransactionStatus.processing = PrismaTxStatus.processing
to_prisma_status TransactionStatus.completed = PrismaTxStatus.completed
to_prisma_status TransactionStatus.failed = PrismaTxStatus.failed
to_prisma_status TransactionStatus.reversed = PrismaTxStatus.reversed
