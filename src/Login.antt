-- ===== src/Login.antt =====
-- Logins: passwords, lockout after failures, and the second factor (src/modules/auth, lockout, mfa,
-- ip-restriction).
pub mod State
pub mod Lockout
pub mod Session
pub mod Challenge
pub mod Password
pub mod Limits
mod Checks
mod Opened
pub mod Admission
mod Tests
