-- ===== src/Http.antt =====
-- What stands between a request and its handler: backend/src/common/interceptors and filters, and the
-- guards of backend/src/modules/auth/guards.
pub mod Idempotency
pub mod Value
pub mod BigInts
pub mod Guards
pub mod Filter
