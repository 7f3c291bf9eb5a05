-- ===== src/Auth.antt =====
-- backend/src/modules/auth: accounts, sessions, one-time codes and one-time authorizations.
pub mod Redis
pub mod RedisService
pub mod Devices
pub mod Session
pub mod Claims
pub mod Login
pub mod Routes
pub mod Otp
pub mod Proof
pub mod Register
pub mod Business
pub mod SendOtp
pub mod VerifyOtp
