-- ===== src/Outbox.antt =====
-- The outbox events of roles and user groups (modules/security-event).
pub mod Event
pub mod RoleEvents
pub mod GroupEvents
