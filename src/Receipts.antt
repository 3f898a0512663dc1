-- ===== src/Receipts.antt =====
-- apps/api/src/postsales/receipt.service.ts, `createReceiptTx`: a receipt is
-- allocated to installments, credited to the ledger, and its withheld tax stays receivable. The
-- notification that `createReceipt` sends after the commit is left out.
mod Rows
pub mod Checks
pub mod Writes
pub mod Posting
pub mod Entries
pub mod Written
pub mod Samples
mod Tests
use openestate.Base.{
  ℕ, suc, Bool, true, false, not, ◌&&◌, Option, none, some, List, [], ◌∷◌, ◌++◌, ◌==◌, leb, ltb,
  if◌then◌else◌, find?, any, update_where, Error, not_found, bad_request, thrown,
}
use openestate.Base.Int.{ℤ, pos, neg, ◌+ℤ◌, ltb_ℤ, leb_ℤ, eqb_ℤ}
use openestate.Database.{
  Booking, LedgerEntryType, ReceiptMode, cheque_like, ClearanceStatus, InstallmentStatus,
  TdsSection, section_194_ia, section_194_h, Installment, Receipt, ReceiptAllocation,
  ChequeStatusEvent, TdsRule, TdsDeduction, LedgerEntry, CompanyConfig, receipt_kind, Db, Tx, pure,
  gets, or_fail, modify, fail_if, when, for_each, fresh_id, ◌>>=◌, ◌>>◌,
}
use openestate.Installments.{bump_installment}
use openestate.Ledger.{EntryInput, post, post_one}
use openestate.Refunds.{find_booking}
use openestate.Sequences.{FyNumber, allocate_for_fy}
pub use Rows.*

-- The first loop: each target exists on the booking and has been raised. The result is the map
-- `installments`.
load_installments : ℕ → List AllocationInput → List Installment → Tx (List Installment)
load_installments booking_id [] loaded = pure loaded
load_installments booking_id (a ∷ rest) loaded = elim (any (λ i. i.id == a.installment_id) loaded) [
  | true ↦ load_installments booking_id rest loaded
  | false ↦ do
    found ← gets (find_installment_of booking_id a.installment_id)
    inst ← or_fail found not_found
    fail_if (is_unraised inst.due_date) bad_request
    load_installments booking_id rest (loaded ++ inst ∷ [])
]

-- The second loop: no allocation beyond an installment's amount.
check_room : List Installment → ℕ × ℤ → Tx (Unit {0})
check_room loaded (id, add) = do
  inst ← or_fail (find? (λ i. i.id == id) loaded) thrown
  fail_if (ltb_ℤ inst.amount_paise (inst.allocated_paise +ℤ add)) bad_request

-- TDS applies only where the price of the booking meets the threshold of the rule in force.
check_tds : CreateReceipt → Booking → Tx (Unit {0})
check_tds dto booking = do
  found ←
      gets
        (λ db. latest (λ r. is_194_ia r.section && in_force dto.receipt_date r) db.tds_rules none)
  rule ← or_fail found bad_request
  fail_if (ltb_ℤ booking.agreed_price_paise rule.threshold_paise) bad_request

abbrev pub cheque_event : ℕ → ClearanceStatus → ℕ → Tx (Unit {0})
cheque_event receipt_id status event_date = modify (λ db. record db {
  cheque_events =
      db.cheque_events
      ++ record { receipt_id = receipt_id; status = status; event_date = event_date } ∷ [];
})

-- One round of the third loop: the allocation's row and its credit.
pub post_allocation : ℕ → ℕ → ℕ → AllocationInput → Tx (Unit {0})
post_allocation booking_id receipt_id date a = do
  modify (λ db. record db {
    receipt_allocations =
        db.receipt_allocations
        ++ record {
          receipt_id = receipt_id;
          installment_id = a.installment_id;
          amount_paise = a.amount_paise;
        }
          ∷ [];
  })
  post (alloc_entry booking_id receipt_id date a ∷ [])
  pure tt

pub bump_sum : ℕ × ℤ → Tx (Unit {0})
unfolding bump_installment
bump_sum (id, add) = bump_installment id add

-- The withheld tax is debited, and stays receivable until a certificate is recorded.
pub record_tds : CreateReceipt → ℕ → Tx (Unit {0})
record_tds dto receipt_id = do
  entry ← post_one (tds_entry dto.booking_id receipt_id dto.receipt_date dto.tds_deducted_paise)
  id ← fresh_id
  modify (λ db. record db {
    tds_deductions =
        db.tds_deductions
        ++ record {
          id = id;
          booking_id = dto.booking_id;
          receipt_id = receipt_id;
          deducted_paise = dto.tds_deducted_paise;
          receivable_ledger_entry_id = entry.id;
        }
          ∷ [];
  })

-- The checks that read the rows and write nothing.
pub check_receipt : CreateReceipt → Tx Booking
check_receipt dto = do
  fail_if (not (eqb_ℤ (alloc_total dto.allocations) dto.gross_amount_paise)) bad_request
  fail_if (ltb_ℤ dto.gross_amount_paise dto.tds_deducted_paise) bad_request
  found ← gets (find_booking dto.booking_id)
  booking ← or_fail found not_found
  loaded ← load_installments dto.booking_id dto.allocations []
  for_each (add_by_inst dto.allocations) (check_room loaded)
  when (ltb_ℤ (pos 0) dto.tds_deducted_paise) (check_tds dto booking)
  pure booking

-- The writes, once a number has been allocated.
pub write_receipt : CreateReceipt → FyNumber → Tx Receipt
write_receipt dto number = do
  id ← fresh_id
  let receipt = receipt_row id dto number
  modify (λ db. record db { receipts = db.receipts ++ receipt ∷ [] })
  when (cheque_like dto.mode) (cheque_event id ClearanceStatus.received dto.receipt_date)
  for_each dto.allocations (post_allocation dto.booking_id id dto.receipt_date)
  for_each (add_by_inst dto.allocations) bump_sum
  when (ltb_ℤ (pos 0) dto.tds_deducted_paise) (record_tds dto id)
  pure receipt

pub create_receipt : CreateReceipt → Tx Receipt
create_receipt dto = do
  config ← gets (λ db. db.config)
  booking ← check_receipt dto
  number ← allocate_for_fy receipt_kind dto.receipt_date (fy_start_month_of config)
  write_receipt dto number
