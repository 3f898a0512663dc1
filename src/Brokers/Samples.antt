-- ===== src/Brokers/Samples.antt =====
-- A broker with two bookings, before and after the operations of the services for brokers.
use openestate.Base.{ℕ, true, none, some, [], ◌∷◌}
use openestate.Base.Int.{ℤ, pos, negsuc}
use openestate.Commission.{flat_percent}
use openestate.Database.{ReceiptMode, section_194_h, TdsRule, Db}
use openestate.Cancellations.Samples.{brokered_db}
use openestate.Samples.{tds_rule_ia}
use openestate.Brokers.Rows.{
  BrokerRows, NocStatus, CommissionEntry, CommissionEntryType, CommissionPayment,
  CommissionPaymentStatus,
}
use openestate.Brokers.Payments.{PayCommission, with_payment}

abbrev pub accrued_7 : CommissionEntry
accrued_7 = record {
  id = 1;
  broker_id = 5;
  booking_id = 7;
  entry_type = CommissionEntryType.accrual;
  signed_amount_paise = pos 1000;
  milestone_percent = none;
  created_at = 10;
}

abbrev pub accrued_8 : CommissionEntry
accrued_8 = record accrued_7 {
  id = 2;
  booking_id = 8;
  signed_amount_paise = pos 500;
  created_at = 20;
}

abbrev pub payment_9 : CommissionPayment
payment_9 = record {
  id = 9;
  broker_id = 5;
  amount_paise = pos 1200;
  status = CommissionPaymentStatus.approved;
  mode = none;
  paid_at = none;
}

abbrev pub rows_5 : BrokerRows
rows_5 = record {
  next_id = 30;
  config = none;
  brokers = record { id = 5; is_active = true } ∷ [];
  rules =
      record {
        id = 3;
        broker_id = 5;
        project_id = none;
        is_active = true;
        rule = record {
          commission_type = flat_percent;
          flat_percent_hundredths = some 200;
          flat_paise = none;
        };
        slabs = [];
        milestones = none;
      }
      ∷ [];
  snapshots = [];
  entries = accrued_8 ∷ accrued_7 ∷ [];
  payments = payment_9 ∷ [];
  nocs = record { id = 4; booking_id = 7; broker_id = 5; status = NocStatus.approved } ∷ [];
}

-- Five percent above 1000 paise.
abbrev pub tds_rule_h : TdsRule
tds_rule_h = record tds_rule_ia {
  section = section_194_h;
  rate_percent = 500;
  threshold_paise = pos 1000;
}

abbrev pub taxed_db : Db
taxed_db = record brokered_db { tds_rules = tds_rule_h ∷ [] }

abbrev pub by_neft : PayCommission
by_neft = record { mode = ReceiptMode.neft; payment_date = 1_700_000_000_000 }

abbrev pub paid_entry_of : ℕ → ℕ → CommissionEntryType → ℤ → CommissionEntry
paid_entry_of id booking t amount = record accrued_7 {
  id = id;
  booking_id = booking;
  entry_type = t;
  signed_amount_paise = amount;
  created_at = 40;
}

-- 1000 paise go to booking 7, which was seen first, and 200 to booking 8; the tax of 60 paise
-- splits into 50 and 10.
abbrev pub paid_5 : BrokerRows
paid_5 = record rows_5 {
  next_id = 34;
  entries =
      accrued_8
      ∷ accrued_7
      ∷ paid_entry_of 30 7 CommissionEntryType.payment (negsuc 949)
      ∷ paid_entry_of 31 7 CommissionEntryType.tds_withheld (negsuc 49)
      ∷ paid_entry_of 32 8 CommissionEntryType.payment (negsuc 189)
      ∷ paid_entry_of 33 8 CommissionEntryType.tds_withheld (negsuc 9)
      ∷ [];
  payments = with_payment by_neft payment_9 ∷ [];
}

-- A broker who owes 450 paise over two bookings is paid 500 all the same, since only the booking with
-- a positive total counts.
abbrev pub owing_5 : BrokerRows
owing_5 = record rows_5 {
  entries = accrued_8 ∷ paid_entry_of 3 7 CommissionEntryType.clawback_recovery (negsuc 949) ∷ [];
  payments = record payment_9 { amount_paise = pos 500 } ∷ [];
}

abbrev pub paid_owing_5 : BrokerRows
paid_owing_5 = record owing_5 {
  next_id = 31;
  entries =
      accrued_8
      ∷ paid_entry_of 3 7 CommissionEntryType.clawback_recovery (negsuc 949)
      ∷ paid_entry_of 30 8 CommissionEntryType.payment (negsuc 499)
      ∷ [];
  payments = with_payment by_neft (record payment_9 { amount_paise = pos 500 }) ∷ [];
}

-- Two percent of 9000 paise, accrued on booking.
abbrev pub fresh_5 : BrokerRows
fresh_5 = record rows_5 { entries = [] }

abbrev pub accrued_5 : BrokerRows
accrued_5 = record rows_5 {
  next_id = 31;
  snapshots =
      record { booking_id = 7; broker_id = 5; rule_id = 3; total_commission_paise = pos 180 } ∷ [];
  entries = record accrued_7 { id = 30; signed_amount_paise = pos 180; created_at = 50 } ∷ [];
}

-- The 950 paise that were paid on booking 7 are recovered when it is cancelled.
abbrev pub clawed_5 : BrokerRows
clawed_5 = record paid_5 {
  next_id = 35;
  entries =
      accrued_8
      ∷ accrued_7
      ∷ paid_entry_of 30 7 CommissionEntryType.payment (negsuc 949)
      ∷ paid_entry_of 31 7 CommissionEntryType.tds_withheld (negsuc 49)
      ∷ paid_entry_of 32 8 CommissionEntryType.payment (negsuc 189)
      ∷ paid_entry_of 33 8 CommissionEntryType.tds_withheld (negsuc 9)
      ∷ paid_entry_of 34 7 CommissionEntryType.clawback_recovery (negsuc 949)
      ∷ [];
}

abbrev pub reversed_5 : BrokerRows
reversed_5 = record rows_5 {
  next_id = 31;
  entries =
      accrued_8
      ∷ accrued_7
      ∷ record accrued_7 {
        id = 30;
        entry_type = CommissionEntryType.clawback_reversal;
        signed_amount_paise = negsuc 999;
        created_at = 5;
      }
      ∷ [];
}
