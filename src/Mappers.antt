-- ===== src/Mappers.antt =====
-- backend/src/infrastructure/prisma/mappers: the dictionaries between the enums of the domain and
-- those of the database.
pub mod Account
pub mod Wallet
pub mod Transaction
pub mod Laws
