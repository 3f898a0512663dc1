-- ===== src/Database.antt =====
-- The rows of one company that the post-sales services read and write
-- (packages/db/prisma/schema.prisma), and their transactions (`withTenantTx`). Each service works
-- inside one company, so the company's id is left out, and so are the texts of reasons and the
-- ids of acting users. Amounts are integers in paise, ids are numbers.
mod Status
mod Tables
mod Transaction
pub use Status.*
pub use Tables.*
pub use Transaction.*
