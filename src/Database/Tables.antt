-- ===== src/Database/Tables.antt =====
-- The tables. A date is the number of milliseconds since 1970; a column that may be NULL is an
-- option.
use Prim.Native.Nat.{ℕ}
use mathlib.Core.Bool.{Bool}
use mathlib.Core.Option.{Option}
use mathlib.Core.List.{List}
use openestate.Base.Int.{ℤ}
use openestate.Inventory.{UnitStatus, ActorType}
use openestate.Database.Status.{
  BookingStatus, LedgerEntryType, ReceiptMode, ClearanceStatus, InstallmentStatus, RefundStatus,
  VoucherStatus, TdsSection,
}

pub record Booking : Type 0 where
  pub id : ℕ
  pub unit_id : ℕ
  pub primary_applicant_id : ℕ
  pub seq_value : ℕ
  pub status : BookingStatus
  pub agreed_price_paise : ℤ
  pub place_of_supply : Option ℕ
  pub interest_rule_id : Option ℕ
  pub broker_id : Option ℕ
  pub booking_date : ℕ

-- `signed_amount_paise` is positive for a debit, which the customer owes.
pub record LedgerEntry : Type 0 where
  pub id : ℕ
  pub booking_id : ℕ
  pub entry_type : LedgerEntryType
  pub signed_amount_paise : ℤ
  pub installment_id : Option ℕ
  pub receipt_id : Option ℕ
  pub reversal_of_entry_id : Option ℕ
  pub effective_date : ℕ

pub record Installment : Type 0 where
  pub id : ℕ
  pub booking_id : ℕ
  pub plan_id : ℕ
  pub seq : ℕ
  pub due_date : Option ℕ
  pub amount_paise : ℤ
  pub allocated_paise : ℤ
  pub status : InstallmentStatus
  pub is_active : Bool

pub record Receipt : Type 0 where
  pub id : ℕ
  pub booking_id : ℕ
  pub fy_label : ℕ
  pub seq_value : ℕ
  pub receipt_date : ℕ
  pub mode : ReceiptMode
  pub gross_amount_paise : ℤ
  pub clearance_status : ClearanceStatus
  pub is_reversed : Bool
  pub reprint_count : ℕ

pub record ReceiptAllocation : Type 0 where
  pub receipt_id : ℕ
  pub installment_id : ℕ
  pub amount_paise : ℤ

pub record ChequeStatusEvent : Type 0 where
  pub receipt_id : ℕ
  pub status : ClearanceStatus
  pub event_date : ℕ

pub record TdsRule : Type 0 where
  pub section : TdsSection
  pub rate_percent : ℕ
  pub threshold_paise : ℤ
  pub effective_from : ℕ
  pub effective_to : Option ℕ

pub record TdsDeduction : Type 0 where
  pub id : ℕ
  pub booking_id : ℕ
  pub receipt_id : ℕ
  pub deducted_paise : ℤ
  pub receivable_ledger_entry_id : ℕ

pub record TdsCertificate : Type 0 where
  pub tds_deduction_id : ℕ
  pub certificate_date : ℕ
  pub adjustment_ledger_entry_id : ℕ

pub record Refund : Type 0 where
  pub id : ℕ
  pub booking_id : ℕ
  pub amount_paise : ℤ
  pub mode : Option ReceiptMode
  pub status : RefundStatus

pub record PaymentVoucher : Type 0 where
  pub id : ℕ
  pub booking_id : ℕ
  pub refund_id : Option ℕ
  pub amount_paise : ℤ
  pub mode : ReceiptMode
  pub status : VoucherStatus

-- A row of `number_sequences` of the kind RECEIPT or BOOKING.
pub data SequenceKind : Type 0 where
  receipt_kind booking_kind : SequenceKind

pub record NumberSequence : Type 0 where
  pub kind : SequenceKind
  pub scope_label : ℕ
  pub next_value : ℕ

pub record CompanyConfig : Type 0 where
  pub fy_start_month : ℕ
  pub cheque_bounce_charge_paise : ℤ
  pub gst_state_code : Option ℕ

pub record UnitRow : Type 0 where
  pub id : ℕ
  pub status : UnitStatus

pub record UnitStatusChange : Type 0 where
  pub unit_id : ℕ
  pub from_status : UnitStatus
  pub to_status : UnitStatus
  pub actor_type : ActorType

pub record CancellationRule : Type 0 where
  pub id : ℕ
  pub is_flat : Bool
  pub deduction_percent : Option ℕ
  pub deduction_amount_paise : Option ℤ
  pub forfeit_booking_amount : Bool

pub record Cancellation : Type 0 where
  pub booking_id : ℕ
  pub deduction_paise : ℤ
  pub refundable_paise : ℤ

pub record TransferFeeRule : Type 0 where
  pub id : ℕ
  pub is_fixed : Bool
  pub amount_paise : Option ℤ
  pub percentage : Option ℕ

pub record Transfer : Type 0 where
  pub from_booking_id : ℕ
  pub to_booking_id : ℕ
  pub transfer_fee_paise : ℤ
  pub carry_forward_paise : ℤ

pub record InterestRule : Type 0 where
  pub id : ℕ
  pub is_compound : Bool
  pub rate_percent : ℕ

pub record InterestAccrual : Type 0 where
  pub booking_id : ℕ
  pub installment_id : ℕ
  pub period_start : ℕ
  pub period_end : ℕ
  pub principal_paise : ℤ
  pub accrued_paise : ℤ
  pub ledger_entry_id : ℕ

-- The rows of one company. A fresh id is `next_id`.
pub record Db : Type 0 where
  pub next_id : ℕ
  pub config : Option CompanyConfig
  pub bookings : List Booking
  pub ledger : List LedgerEntry
  pub installments : List Installment
  pub receipts : List Receipt
  pub receipt_allocations : List ReceiptAllocation
  pub cheque_events : List ChequeStatusEvent
  pub tds_rules : List TdsRule
  pub tds_deductions : List TdsDeduction
  pub tds_certificates : List TdsCertificate
  pub refunds : List Refund
  pub vouchers : List PaymentVoucher
  pub sequences : List NumberSequence
  pub applicants : List ℕ
  pub units : List UnitRow
  pub unit_status_changes : List UnitStatusChange
  pub cancellation_rules : List CancellationRule
  pub cancellations : List Cancellation
  pub transfer_fee_rules : List TransferFeeRule
  pub transfers : List Transfer
  pub interest_rules : List InterestRule
  pub interest_accruals : List InterestAccrual
