-- ===== src/Permissions.antt =====
-- The catalogue of permissions: modules/permissions.
pub mod Graph
pub mod Validator
mod Termination
mod Reach
mod Cycles
mod Search
pub mod Naming
pub mod Loader
pub mod Catalogue
pub mod Dependency
mod Closure
mod Integrity
mod Initialized
mod Tests
mod Edges
mod Nodes
