-- ===== src/Database/Status.antt =====
-- The enumerations of packages/shared/src/finance.ts and inventory.ts. Types may share the name
-- of a constructor: it is written behind its type.
use mathlib.Core.Bool.{Bool, true, false}

pub data BookingStatus : Type 0 where
  application booked allotted registered cancelled surrendered transferred_out : BookingStatus

pub data LedgerEntryType : Type 0 where
  charge extra_charge receipt_alloc interest interest_waiver bounce_reversal : LedgerEntryType
  bounce_charge refund_approved refund_bounce_reversal transfer_carry_out : LedgerEntryType
  transfer_carry_in transfer_fee cancellation_settlement cancellation_deduction : LedgerEntryType
  tds_receivable tds_cert_adjustment adjustment : LedgerEntryType

pub data ReceiptMode : Type 0 where
  cash cheque dd neft rtgs upi card : ReceiptMode

-- `CHEQUE_LIKE.has(mode)`
abbrev pub cheque_like : ReceiptMode → Bool
cheque_like cheque = true
cheque_like dd = true
cheque_like _ = false

pub data ClearanceStatus : Type 0 where
  not_applicable received deposited cleared bounced : ClearanceStatus

-- `CLEARED` or `BOUNCED`
abbrev pub is_settled : ClearanceStatus → Bool
is_settled ClearanceStatus.cleared = true
is_settled ClearanceStatus.bounced = true
is_settled _ = false

abbrev pub is_bounced : ClearanceStatus → Bool
is_bounced ClearanceStatus.bounced = true
is_bounced _ = false

-- `clearanceStatus: { in: ['NOT_APPLICABLE', 'CLEARED'] }`
abbrev pub is_collected : ClearanceStatus → Bool
is_collected ClearanceStatus.not_applicable = true
is_collected ClearanceStatus.cleared = true
is_collected _ = false

pub data InstallmentStatus : Type 0 where
  unpaid part_paid paid : InstallmentStatus

pub data RefundStatus : Type 0 where
  requested approved paid rejected : RefundStatus

abbrev pub is_requested : RefundStatus → Bool
is_requested RefundStatus.requested = true
is_requested _ = false

abbrev pub is_approved : RefundStatus → Bool
is_approved RefundStatus.approved = true
is_approved _ = false

pub data VoucherStatus : Type 0 where
  issued cleared bounced : VoucherStatus

abbrev pub is_issued : VoucherStatus → Bool
is_issued VoucherStatus.issued = true
is_issued _ = false

-- The sections of the Income Tax Act that a TDS rule may name.
pub data TdsSection : Type 0 where
  section_194_ia section_194_h : TdsSection
