-- ===== src/Access.antt =====
-- Accounts, roles and permissions: apps/api/src/common/permission-subset.util.ts,
-- apps/api/src/roles/roles.service.ts and the staff part of apps/api/src/users/users.service.ts, on
-- the rows of one company.
mod Rows
pub mod Callers
pub mod Roles
pub mod Managers
pub mod Users
pub mod Subset
pub mod Holdings
pub mod Checked
pub mod Grants
pub mod RoleGrants
pub mod Distinct
pub mod SuperAdmin
pub mod Lockout
pub mod Steps
pub mod Guard
mod Tests
pub use Rows.*
