-- ===== src/Reversals.antt =====
-- apps/api/src/postsales/receipt.service.ts after a receipt exists: the life of its cheque, its
-- reversal, the certificate of its withheld tax, and its reprint.
pub mod Entries
pub mod Undo
pub mod Cheques
pub mod RoundTrip
pub mod Certificate
mod Tests
use openestate.Base.{
  ℕ, Bool, true, false, not, ◌&&◌, Option, none, some, List, [], ◌∷◌, ◌++◌, ◌+◌, ◌==◌,
  if◌then◌else◌, find?, any, select, update_where, not_found, bad_request, conflict,
}
use openestate.Base.Int.{ℤ, pos, neg, ltb_ℤ}
use openestate.Database.{
  LedgerEntryType, receipt_alloc, tds_receivable, cheque_like, ClearanceStatus, is_settled,
  is_bounced, LedgerEntry, Receipt, TdsDeduction, TdsCertificate, Db, Tx, pure, gets, or_fail,
  modify, fail_if, when, for_each, ◌>>=◌, ◌>>◌,
}
use openestate.Installments.{bump_installment}
use openestate.Ledger.{EntryInput, post, post_one}
use openestate.Receipts.{cheque_event}
use openestate.Refunds.{bounce_charge_of}

abbrev pub find_receipt : ℕ → Db → Option Receipt
find_receipt id db = find? (λ r. r.id == id) db.receipts

abbrev pub is_id : ℕ → Option ℕ → Bool
is_id id none = false
is_id id (some j) = j == id

-- `entryType: { in: [RECEIPT_ALLOC, TDS_RECEIVABLE] }`
abbrev pub is_own_type : LedgerEntryType → Bool
is_own_type receipt_alloc = true
is_own_type tds_receivable = true
is_own_type _ = false

abbrev pub is_receipt_alloc : LedgerEntryType → Bool
is_receipt_alloc receipt_alloc = true
is_receipt_alloc _ = false

-- The entries that a receipt made itself.
abbrev pub own_entries : ℕ → List LedgerEntry → List LedgerEntry
own_entries receipt_id = select (λ e. is_id receipt_id e.receipt_id && is_own_type e.entry_type)

-- `alreadyReversed.has(e.id)`, with the set that is read before the loop.
abbrev pub already_reversed : List LedgerEntry → LedgerEntry → Bool
already_reversed ledger e = any (λ r. is_id e.id r.reversal_of_entry_id) ledger

abbrev pub reversal_entry : Receipt → LedgerEntryType → ℕ → LedgerEntry → EntryInput
reversal_entry receipt reversal_type date e = record {
  booking_id = receipt.booking_id;
  entry_type = reversal_type;
  signed_amount_paise = neg e.signed_amount_paise;
  installment_id = e.installment_id;
  receipt_id = some receipt.id;
  reversal_of_entry_id = some e.id;
  effective_date = date;
}

-- `if (e.entryType === RECEIPT_ALLOC && e.installmentId)`: the allocation is taken back.
abbrev pub take_back : LedgerEntry → Option ℕ → Tx (Unit {0})
take_back e none = pure tt
take_back e (some installment_id) =
    when (is_receipt_alloc e.entry_type) (bump_installment installment_id e.signed_amount_paise)

-- One round of the loop.
reverse_entry : List LedgerEntry → Receipt → LedgerEntryType → ℕ → LedgerEntry → Tx (Unit {0})
reverse_entry ledger receipt reversal_type date e =
    when (not (already_reversed ledger e))
      (do post_one (reversal_entry receipt reversal_type date e); take_back e e.installment_id)

abbrev pub receipt_bounce_entry : Receipt → ℤ → ℕ → EntryInput
receipt_bounce_entry receipt charge date = record {
  booking_id = receipt.booking_id;
  entry_type = LedgerEntryType.bounce_charge;
  signed_amount_paise = charge;
  installment_id = none;
  receipt_id = some receipt.id;
  reversal_of_entry_id = none;
  effective_date = date;
}

pub reverse_receipt_ledger : Receipt → LedgerEntryType → ℕ → ℤ → Tx (Unit {0})
reverse_receipt_ledger receipt reversal_type date bounce_charge = do
  ledger ← gets (λ db. db.ledger)
  for_each (own_entries receipt.id ledger) (reverse_entry ledger receipt reversal_type date)
  when (ltb_ℤ (pos 0) bounce_charge)
      (do post_one (receipt_bounce_entry receipt bounce_charge date); pure tt)

abbrev pub update_receipt : ℕ → (Receipt → Receipt) → Db → Db
update_receipt id f db = record db { receipts = update_where (λ r. r.id == id) f db.receipts }

-- `data: { clearanceStatus, ...(BOUNCED ? { isReversed: true } : {}) }`
abbrev pub with_clearance : ClearanceStatus → Receipt → Receipt
with_clearance status r = record r {
  clearance_status = status;
  is_reversed = (if is_bounced status then true else r.is_reversed);
}

abbrev pub as_reversed : Receipt → Receipt
as_reversed r = record r { is_reversed = true }

-- The schema admits the statuses DEPOSITED, CLEARED and BOUNCED.
pub record_cheque_event : ℕ → ClearanceStatus → ℕ → Tx (Unit {0})
record_cheque_event receipt_id status event_date = do
  found ← gets (find_receipt receipt_id)
  receipt ← or_fail found not_found
  fail_if (not (cheque_like receipt.mode)) bad_request
  fail_if (is_settled receipt.clearance_status) conflict
  cheque_event receipt_id status event_date
  modify (update_receipt receipt_id (with_clearance status))
  config ← gets (λ db. db.config)
  when (is_bounced status) (
      reverse_receipt_ledger receipt LedgerEntryType.bounce_reversal event_date
        (bounce_charge_of config))

pub reverse_receipt : ℕ → Tx (Unit {0})
reverse_receipt receipt_id = do
  found ← gets (find_receipt receipt_id)
  receipt ← or_fail found not_found
  fail_if receipt.is_reversed conflict
  fail_if (is_bounced receipt.clearance_status) conflict
  reverse_receipt_ledger receipt LedgerEntryType.adjustment receipt.receipt_date (pos 0)
  modify (update_receipt receipt_id as_reversed)

abbrev pub find_deduction : ℕ → Db → Option TdsDeduction
find_deduction id db = find? (λ d. d.id == id) db.tds_deductions

abbrev pub certificate_entry : TdsDeduction → ℕ → EntryInput
certificate_entry deduction date = record {
  booking_id = deduction.booking_id;
  entry_type = LedgerEntryType.tds_cert_adjustment;
  signed_amount_paise = neg deduction.deducted_paise;
  installment_id = none;
  receipt_id = none;
  reversal_of_entry_id = none;
  effective_date = date;
}

pub record_tds_certificate : ℕ → ℕ → Tx (Unit {0})
record_tds_certificate deduction_id certificate_date = do
  found ← gets (find_deduction deduction_id)
  deduction ← or_fail found not_found
  existing ← gets (λ db. any (λ c. c.tds_deduction_id == deduction_id) db.tds_certificates)
  fail_if existing conflict
  adjustment ← post_one (certificate_entry deduction certificate_date)
  modify (λ db. record db {
    tds_certificates =
        db.tds_certificates
        ++ record {
          tds_deduction_id = deduction_id;
          certificate_date = certificate_date;
          adjustment_ledger_entry_id = adjustment.id;
        }
          ∷ [];
  })

pub mark_reprint : ℕ → Tx (Unit {0})
mark_reprint receipt_id = do
  found ← gets (find_receipt receipt_id)
  receipt ← or_fail found not_found
  modify (update_receipt receipt_id (λ r. record r { reprint_count = r.reprint_count + 1 }))
