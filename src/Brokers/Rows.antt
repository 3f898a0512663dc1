-- ===== src/Brokers/Rows.antt =====
-- The tables of packages/db/prisma/schema.prisma that the commission services write, and the sums
-- over the commission ledger. A date is the number of milliseconds since 1970.
use openestate.Base.{
  ℕ, suc, Bool, true, false, ◌&&◌, Option, List, [], ◌∷◌, ◌++◌, ◌==◌, if◌then◌else◌, find?,
}
use openestate.Base.Int.{ℤ, pos, ◌+ℤ◌}
use openestate.Commission.{CommissionRule, CommissionSlab}
use openestate.Database.{ReceiptMode}

-- `COMMISSION_ENTRY_TYPE`
pub data CommissionEntryType : Type 0 where
  accrual payment tds_withheld clawback_reversal : CommissionEntryType
  clawback_recovery clawback_writeoff : CommissionEntryType

abbrev pub is_accrual : CommissionEntryType → Bool
is_accrual CommissionEntryType.accrual = true
is_accrual _ = false

abbrev pub is_payment : CommissionEntryType → Bool
is_payment CommissionEntryType.payment = true
is_payment _ = false

abbrev pub is_writeoff : CommissionEntryType → Bool
is_writeoff clawback_writeoff = true
is_writeoff _ = false

-- `COMMISSION_PAYMENT_STATUS`
pub data CommissionPaymentStatus : Type 0 where
  requested approved paid rejected : CommissionPaymentStatus

abbrev pub is_requested : CommissionPaymentStatus → Bool
is_requested CommissionPaymentStatus.requested = true
is_requested _ = false

abbrev pub is_approved : CommissionPaymentStatus → Bool
is_approved CommissionPaymentStatus.approved = true
is_approved _ = false

-- `COMMISSION_ACCRUAL_TRIGGER`
pub data AccrualTrigger : Type 0 where
  on_booking on_collection_milestone : AccrualTrigger

-- `COMMISSION_CLAWBACK_POLICY`
pub data ClawbackPolicy : Type 0 where
  recover write_off : ClawbackPolicy

-- `signed_amount_paise` is positive for what the company owes the broker.
pub record CommissionEntry : Type 0 where
  pub id : ℕ
  pub broker_id : ℕ
  pub booking_id : ℕ
  pub entry_type : CommissionEntryType
  pub signed_amount_paise : ℤ
  pub milestone_percent : Option ℕ
  pub created_at : ℕ

pub record CommissionPayment : Type 0 where
  pub id : ℕ
  pub broker_id : ℕ
  pub amount_paise : ℤ
  pub status : CommissionPaymentStatus
  pub mode : Option ReceiptMode
  pub paid_at : Option ℕ

-- The snapshot of a booking's commission.
pub record BrokerBookingCommission : Type 0 where
  pub booking_id : ℕ
  pub broker_id : ℕ
  pub rule_id : ℕ
  pub total_commission_paise : ℤ

-- A rule with its slabs; `project_id` is NULL for the broker's default.
pub record BrokerCommissionRule : Type 0 where
  pub id : ℕ
  pub broker_id : ℕ
  pub project_id : Option ℕ
  pub is_active : Bool
  pub rule : CommissionRule
  pub slabs : List CommissionSlab
  pub milestones : Option (List ℕ)

pub record Broker : Type 0 where
  pub id : ℕ
  pub is_active : Bool

pub data NocStatus : Type 0 where
  requested approved rejected : NocStatus

pub record BrokerNoc : Type 0 where
  pub id : ℕ
  pub booking_id : ℕ
  pub broker_id : ℕ
  pub status : NocStatus

-- The columns of `company_configs` that the commission services read.
pub record CommissionConfig : Type 0 where
  pub accrual_trigger : AccrualTrigger
  pub clawback_policy : ClawbackPolicy

-- The rows of one company. A fresh id is `next_id`.
pub record BrokerRows : Type 0 where
  pub next_id : ℕ
  pub config : Option CommissionConfig
  pub brokers : List Broker
  pub rules : List BrokerCommissionRule
  pub snapshots : List BrokerBookingCommission
  pub entries : List CommissionEntry
  pub payments : List CommissionPayment
  pub nocs : List BrokerNoc

abbrev pub find_broker : ℕ → BrokerRows → Option Broker
find_broker id rows = find? (λ b. b.id == id) rows.brokers

abbrev pub find_payment : ℕ → BrokerRows → Option CommissionPayment
find_payment id rows = find? (λ p. p.id == id) rows.payments

-- The columns of a new ledger row.
pub record EntryData : Type 0 where
  pub broker_id : ℕ
  pub booking_id : ℕ
  pub entry_type : CommissionEntryType
  pub signed_amount_paise : ℤ
  pub milestone_percent : Option ℕ

abbrev pub entry_row : ℕ → ℕ → EntryData → CommissionEntry
entry_row id now e = record {
  id = id;
  broker_id = e.broker_id;
  booking_id = e.booking_id;
  entry_type = e.entry_type;
  signed_amount_paise = e.signed_amount_paise;
  milestone_percent = e.milestone_percent;
  created_at = now;
}

-- `tx.commissionLedgerEntry.create({ data })` at the instant `now`
unfoldable pub create_entry : ℕ → EntryData → BrokerRows → BrokerRows
create_entry now e rows = record rows {
  next_id = suc rows.next_id;
  entries = rows.entries ++ entry_row rows.next_id now e ∷ [];
}

-- The sum of the signed amounts of the entries that a test admits.
abbrev pub sum_where : (CommissionEntry → Bool) → List CommissionEntry → ℤ
sum_where test [] = pos 0
sum_where test (e ∷ entries) =
    (if test e then e.signed_amount_paise else pos 0) +ℤ sum_where test entries

abbrev pub of_broker : ℕ → CommissionEntry → Bool
of_broker id e = e.broker_id == id

abbrev pub of_booking : ℕ → CommissionEntry → Bool
of_booking id e = e.booking_id == id

-- The entries of one broker on one booking.
abbrev pub of_both : ℕ → ℕ → CommissionEntry → Bool
of_both broker_id booking_id e = of_broker broker_id e && of_booking booking_id e

unfoldable pub balance : ℕ → BrokerRows → ℤ
balance broker_id rows = sum_where (of_broker broker_id) rows.entries

unfoldable pub balance_in_tx : ℕ → BrokerRows → ℤ
balance_in_tx broker_id rows = sum_where (of_broker broker_id) rows.entries
