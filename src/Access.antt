-- ===== src/Access.antt =====
-- Access decisions: the roles that a user holds with their scopes, the projection of group
-- memberships to them, and their cache (src/modules/authorization, src/modules/user-groups).
pub mod Evaluator
pub mod Decision
pub mod Diff
pub mod Grants
pub mod Inserted
pub mod Synchronized
pub mod Projection
mod Targets
pub mod Outcome
pub mod Reconciler
pub mod Reconciled
mod Tests
