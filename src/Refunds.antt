-- ===== src/Refunds.antt =====
-- apps/api/src/postsales/refund.service.ts: the two-phase refund and the bounce of its cheque.
pub mod Lifecycle
pub mod Cycle
pub mod Requests
mod Tests
use openestate.Base.{
  ℕ, Bool, true, false, not, Option, none, some, List, [], ◌∷◌, ◌++◌, ◌==◌, if◌then◌else◌, find?,
  update_where, Error, not_found, bad_request, conflict,
}
use openestate.Base.Int.{ℤ, pos, neg, ltb_ℤ}
use openestate.Database.{
  Booking, LedgerEntryType, ReceiptMode, RefundStatus, is_requested, is_approved, VoucherStatus,
  is_issued, Refund, PaymentVoucher, CompanyConfig, Db, Tx, pure, gets, or_fail, modify, fail_if,
  fresh_id, ◌>>=◌, ◌>>◌,
}
use openestate.Ledger.{EntryInput, post, balance_in_tx}

abbrev pub find_booking : ℕ → Db → Option Booking
find_booking id db = find? (λ b. b.id == id) db.bookings

abbrev pub find_refund : ℕ → Db → Option Refund
find_refund id db = find? (λ r. r.id == id) db.refunds

abbrev pub find_voucher : ℕ → Db → Option PaymentVoucher
find_voucher id db = find? (λ v. v.id == id) db.vouchers

-- `tx.refund.update({ where: { id }, data: { status } })`
abbrev pub set_refund_status : ℕ → RefundStatus → Db → Db
set_refund_status id status db = record db {
  refunds = update_where (λ r. r.id == id) (λ r. record r { status = status }) db.refunds;
}

abbrev pub set_voucher_status : ℕ → VoucherStatus → Db → Db
set_voucher_status id status db = record db {
  vouchers = update_where (λ v. v.id == id) (λ v. record v { status = status }) db.vouchers;
}

-- `balance < 0n ? -balance : 0n`
abbrev pub owed_to_customer : ℤ → ℤ
owed_to_customer balance = if ltb_ℤ balance (pos 0) then neg balance else pos 0

pub request : ℕ → ℤ → Option ReceiptMode → Tx Refund
unfolding balance_in_tx
request booking_id amount_paise mode = do
  found ← gets (find_booking booking_id)
  booking ← or_fail found not_found
  balance ← balance_in_tx booking_id
  fail_if (ltb_ℤ (owed_to_customer balance) amount_paise) bad_request
  id ← fresh_id
  let refund : Refund = record {
    id = id;
    booking_id = booking_id;
    amount_paise = amount_paise;
    mode = mode;
    status = RefundStatus.requested;
  }
  modify (λ db. record db { refunds = db.refunds ++ refund ∷ [] })
  pure refund

-- An entry on a booking, with no installment or receipt.
abbrev pub plain_entry : ℕ → LedgerEntryType → ℤ → ℕ → EntryInput
plain_entry booking_id entry_type amount effective_date = record {
  booking_id = booking_id;
  entry_type = entry_type;
  signed_amount_paise = amount;
  installment_id = none;
  receipt_id = none;
  reversal_of_entry_id = none;
  effective_date = effective_date;
}

pub approve : ℕ → ℕ → Tx (Unit {0})
approve refund_id now = do
  found ← gets (find_refund refund_id)
  refund ← or_fail found not_found
  fail_if (not (is_requested refund.status)) conflict
  post (plain_entry refund.booking_id LedgerEntryType.refund_approved refund.amount_paise now ∷ [])
  modify (set_refund_status refund_id RefundStatus.approved)

pub pay : ℕ → ReceiptMode → Tx PaymentVoucher
pay refund_id mode = do
  found ← gets (find_refund refund_id)
  refund ← or_fail found not_found
  fail_if (not (is_approved refund.status)) conflict
  id ← fresh_id
  let voucher : PaymentVoucher = record {
    id = id;
    booking_id = refund.booking_id;
    refund_id = some refund_id;
    amount_paise = refund.amount_paise;
    mode = mode;
    status = VoucherStatus.issued;
  }
  modify (λ db. record db { vouchers = db.vouchers ++ voucher ∷ [] })
  modify (set_refund_status refund_id RefundStatus.paid)
  pure voucher

-- `config?.chequeBounceChargePaise ?? 0n`
abbrev pub bounce_charge_of : Option CompanyConfig → ℤ
bounce_charge_of none = pos 0
bounce_charge_of (some c) = c.cheque_bounce_charge_paise

-- The entries that a bounced refund cheque posts.
abbrev pub bounce_entries : PaymentVoucher → ℤ → ℕ → List EntryInput
bounce_entries v charge now =
    plain_entry v.booking_id LedgerEntryType.refund_bounce_reversal (neg v.amount_paise) now
    ∷ (if ltb_ℤ (pos 0) charge
        then plain_entry v.booking_id LedgerEntryType.bounce_charge charge now ∷ []
        else [])

-- `if (voucher.refundId)`: the refund goes back to APPROVED.
abbrev pub reopen : Option ℕ → Db → Db
reopen none db = db
reopen (some refund_id) db = set_refund_status refund_id RefundStatus.approved db

pub voucher_bounced : ℕ → ℕ → Tx (Unit {0})
voucher_bounced voucher_id now = do
  found ← gets (find_voucher voucher_id)
  voucher ← or_fail found not_found
  fail_if (not (is_issued voucher.status)) conflict
  config ← gets (λ db. db.config)
  post (bounce_entries voucher (bounce_charge_of config) now)
  modify (set_voucher_status voucher_id VoucherStatus.bounced)
  modify (reopen voucher.refund_id)
