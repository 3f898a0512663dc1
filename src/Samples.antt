-- ===== src/Samples.antt =====
-- Rows of a small company, for the tests and the examples of the theorems.
use openestate.Base.{true, none, some, [], ◌∷◌}
use openestate.Base.Int.{pos, negsuc}
use openestate.Inventory.{UnitStatus}
use openestate.Database.{
  BookingStatus, LedgerEntryType, InstallmentStatus, RefundStatus, section_194_ia, Booking,
  LedgerEntry, Installment, TdsRule, Refund, CompanyConfig, UnitRow, Db,
}

abbrev pub booking_7 : Booking
booking_7 = record {
  id = 7;
  unit_id = 3;
  primary_applicant_id = 4;
  seq_value = 1;
  status = BookingStatus.booked;
  agreed_price_paise = pos 9000;
  place_of_supply = some 27;
  interest_rule_id = none;
  broker_id = none;
  booking_date = 1_700_000_000_000;
}

-- The booking's opening charge.
abbrev pub opening_charge : LedgerEntry
opening_charge = record {
  id = 1;
  booking_id = 7;
  entry_type = LedgerEntryType.charge;
  signed_amount_paise = pos 9000;
  installment_id = none;
  receipt_id = none;
  reversal_of_entry_id = none;
  effective_date = 1_700_000_000_000;
}

-- A credit larger than the charge, so that the company owes the customer 400 paise.
abbrev pub large_credit : LedgerEntry
large_credit = record opening_charge {
  id = 2;
  entry_type = LedgerEntryType.receipt_alloc;
  signed_amount_paise = negsuc 9399;
}

abbrev pub first_installment : Installment
first_installment = record {
  id = 11;
  booking_id = 7;
  plan_id = 10;
  seq = 1;
  due_date = some 1_700_000_000_000;
  amount_paise = pos 5000;
  allocated_paise = pos 0;
  status = InstallmentStatus.unpaid;
  is_active = true;
}

abbrev pub second_installment : Installment
second_installment = record first_installment { id = 12; seq = 2; amount_paise = pos 4000 }

abbrev pub tds_rule_ia : TdsRule
tds_rule_ia = record {
  section = section_194_ia;
  rate_percent = 100;
  threshold_paise = pos 5000;
  effective_from = 1_600_000_000_000;
  effective_to = none;
}

abbrev pub open_refund : Refund
open_refund = record {
  id = 21;
  booking_id = 7;
  amount_paise = pos 400;
  mode = none;
  status = RefundStatus.requested;
}

abbrev pub config_sample : CompanyConfig
config_sample = record {
  fy_start_month = 4;
  cheque_bounce_charge_paise = pos 250;
  gst_state_code = some 27;
}

abbrev pub unit_3 : UnitRow
unit_3 = record { id = 3; status = UnitStatus.booked }

-- One booking of 9000 paise in two installments, nothing paid.
abbrev pub booked_db : Db
booked_db = record {
  next_id = 100;
  config = some config_sample;
  bookings = booking_7 ∷ [];
  ledger = opening_charge ∷ [];
  installments = first_installment ∷ second_installment ∷ [];
  receipts = [];
  receipt_allocations = [];
  cheque_events = [];
  tds_rules = tds_rule_ia ∷ [];
  tds_deductions = [];
  tds_certificates = [];
  refunds = [];
  vouchers = [];
  sequences = [];
  applicants = 4 ∷ [];
  units = unit_3 ∷ [];
  unit_status_changes = [];
  cancellation_rules = [];
  cancellations = [];
  transfer_fee_rules = [];
  transfers = [];
  interest_rules = [];
  interest_accruals = [];
}

-- The same booking overpaid by 400 paise, with a refund of them requested.
abbrev pub overpaid_db : Db
overpaid_db = record booked_db {
  ledger = opening_charge ∷ large_credit ∷ [];
  refunds = open_refund ∷ [];
}
