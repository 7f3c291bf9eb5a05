-- ===== src/Domain.antt =====
-- backend/src/domain: the enums and the value objects, with no framework behind them.
pub mod Enums
pub mod Money
pub mod UserId
pub mod WalletId
pub mod PhoneNumber
