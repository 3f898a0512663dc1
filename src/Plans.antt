-- ===== src/Plans.antt =====
-- apps/api/src/postsales/payment-plan.service.ts, stage-raise.service.ts and stage-raise.util.ts: the
-- payment plan of a booking, its installments, and the raising of construction stages.
mod Rows
pub mod Amounts
pub mod Creation
pub mod Edit
pub mod Stages
pub mod Sums
pub mod Cleared
pub mod Kept
pub mod Created
pub mod Edited
pub mod Scheduled
pub mod Raised
mod Tests
pub use Rows.*
