-- ===== src/Lib.antt =====
-- OpenEstate: a CRM for real estate. This library models the exact arithmetic of the shared package,
-- the post-sales core of the API, the commissions of brokers, the accounts of staff and the sessions of
-- users, and verifies them.
--
-- The parts and their files (paths from the repository's root):
--
--   Money         packages/shared/src/money.ts: sums, rounding, percentages, allocate, GST.
--   Area          packages/shared/src/area.ts: units of area, conversion, price of a plot.
--   Commission    packages/shared/src/commission.ts: slabs and the commission they give.
--   Inventory     packages/shared/src/inventory.ts: statuses of a unit and their transitions.
--   Dates         packages/shared/src/finance.ts: financialYearLabel, on milliseconds since 1970.
--   Database      the enumerations of finance.ts and the tables the services read and write, with
--                 the transaction they run in.
--   Ledger        apps/api/src/postsales/ledger.service.ts: the append-only ledger.
--   Sequences     apps/api/src/postsales/number-sequence.service.ts: numbers of documents.
--   Refunds       apps/api/src/postsales/refund.service.ts: request, approve, pay, voucherBounced.
--   Receipts      apps/api/src/postsales/receipt.service.ts: creation of a receipt.
--   Installments  the same file: bumpInstallment, the cached amount and status of an installment.
--   Reversals     the same file: cheque events, reversal, TDS certificates, reprints.
--   Units         apps/api/src/inventory/unit-state-machine.service.ts: transition.
--   Cancellations apps/api/src/postsales/cancellation.service.ts: cancel.
--   Transfers     apps/api/src/postsales/transfer.service.ts: transfer.
--   Interest      apps/api/src/postsales/interest.service.ts: accrueForBooking, waiveInterest.
--   Totp          apps/api/src/auth/totp-lockout.ts: the lockout of the second factor.
--   Brokers       apps/api/src/commission and apps/api/src/brokers: a broker's commission is accrued
--                 (Accrual), paid with tax withheld (Requests, Attribution, Payments) and clawed back
--                 (Clawback); the NOC and the controller's cancel (Noc).
--   Access        apps/api/src/common/permission-subset.util.ts, roles/roles.service.ts and
--                 users/users.service.ts: roles, staff accounts and who may act on them.
--   Plans         apps/api/src/postsales/payment-plan.service.ts and stage-raise.service.ts: the
--                 installments of a booking and the raising of construction stages.
--   Sessions      apps/api/src/auth/token.service.ts: refresh tokens and their rotation. The hash
--                 of a raw token is a field of TokenService, any function.
--   Base          lists, options, results, stable sort and integers that the parts share.
--   Samples       rows for the tests and the examples, which stand in the Tests modules.
--
-- How they interact. A service runs in one transaction over the tables of one company: it reads rows,
-- throws, or writes rows. Here a transaction is a function from the tables (the record Db) to an error
-- or a result with the new tables, so that an error leaves nothing behind, as a rollback does; a
-- transaction that is opened within another is part of it, as in withTenantTx. Refunds, Receipts,
-- Reversals, Cancellations, Transfers and Interest post their amounts through Ledger, whose balance of a
-- booking is the sum of its signed amounts. Receipts and Transfers take their numbers from Sequences,
-- Receipts and Reversals keep the cached amounts of Installments, and Cancellations and Transfers move
-- units by Units.
-- Brokers, Access, Plans and Sessions keep tables of their own (BrokerRows, AccessRows, PlanRows and
-- TokenRows). Brokers also reads Db; its cancel_booking is the controller's: it asks for the NOC, runs
-- Cancellations.cancel and takes the commission back. Plans and Brokers split amounts by Money.allocate.
--
-- How the code is represented. A bigint is an integer (pos and negsuc), a UUID and a date are natural
-- numbers, a nullable column is an option. A thrown exception is a value of Error; the messages are left
-- out. A fresh id is the counter next_id. A rate in percent with two decimals is a number of hundredths,
-- which is what Math.round(Number(rate) * 100) gives. The weights of allocate are natural numbers, and a
-- negative total is allocated by its magnitude, as in the code. A label such as 2026-27 is its first
-- year. Every recursion is structural; the walk up the managers stops after the code's own 20 hops.
--
-- Left out: the user interfaces, HTTP, PDF, plugins, the database engine (row-level security and the
-- triggers that keep the ledger append-only), the notification after a receipt, columns that are only
-- stored (reasons, instrument numbers, the acting user), the companyId column, since the tables are those
-- of one company, and concurrent transactions: one runs at a time.
pub mod Base
pub mod Money
pub mod Area
pub mod Commission
pub mod Inventory
pub mod Database
pub mod Samples
pub mod Ledger
pub mod Refunds
pub mod Dates
pub mod Sequences
pub mod Receipts
pub mod Units
pub mod Installments
pub mod Reversals
pub mod Cancellations
pub mod Transfers
pub mod Interest
pub mod Totp
pub mod Brokers
pub mod Access
pub mod Plans
pub mod Sessions
