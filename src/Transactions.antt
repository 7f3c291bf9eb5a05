-- ===== src/Transactions.antt =====
-- backend/src/modules/transactions: the amount of a request, the checks before a transfer, the
-- transfer itself, and the four operations that are composed of them.
pub mod Amount
pub mod Description
pub mod Eligibility
pub mod Transfer
pub mod Service
