-- ===== src/UserGroups.antt =====
-- User groups: their matching rules, scopes and the aggregate (src/modules/user-groups).
pub mod Text
pub mod Rule
pub mod Scope
pub mod Engine
pub mod Query
pub mod Sql
pub mod Aggregate
pub mod Columns
pub mod Clauses
pub mod Numbering
pub mod Matching
pub mod Roles
pub mod Undone
pub mod Lifecycle
pub mod Accepted
mod Tests
