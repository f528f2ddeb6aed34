-- ===== src/Reset.antt =====
-- Password reset by code (src/modules/password).
pub mod Service
pub mod SingleUse
mod Tests
