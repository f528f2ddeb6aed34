-- ===== src/Roles.antt =====
-- Roles and their permissions: modules/roles.
pub mod Role
pub mod Store
pub mod Service
pub mod Changes
pub mod Bootstrap
mod Steps
mod Blocked
mod Kept
mod KeptSteps
mod Protected
mod Inviolable
mod Renewed
mod Permitted
mod Commands
pub mod Response
mod Created
mod Tests
