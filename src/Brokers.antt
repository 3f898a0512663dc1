-- ===== src/Brokers.antt =====
-- apps/api/src/commission and apps/api/src/brokers: what a broker earns on a booking, how it is
-- accrued, paid with the tax of section 194-H withheld, and taken back on cancellation, and the
-- broker's no-objection certificate (NOC) that a cancellation needs. The rows of the post-sales
-- services are read from a `Db`; what these services write is a `BrokerRows`.
mod Rows
pub mod Requests
pub mod Attribution
pub mod Groups
pub mod Cover
pub mod Posting
pub mod Tax
pub mod Shares
pub mod Paid
pub mod Accrual
pub mod Milestones
pub mod Snapshots
pub mod Accrued
pub mod Clawback
pub mod Noc
pub mod Clawed
pub mod Samples
mod Tests
pub mod Payments
pub use Rows.*
