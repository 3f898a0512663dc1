-- ===== src/Transfers.antt =====
-- apps/api/src/postsales/transfer.service.ts: a booking is transferred to another unit or another
-- applicant. The old ledger is closed, and a new booking takes its balance over.
pub mod Opening
pub mod Plan
pub mod Steps
pub mod Carry
mod Tests
use openestate.Base.{
  ℕ, suc, Bool, true, false, not, ◌&&◌, Option, none, some, List, [], ◌∷◌, ◌++◌, ◌==◌,
  if◌then◌else◌, any, find?, not_found, bad_request,
}
use openestate.Base.Int.{ℤ, pos, neg, ltb_ℤ}
use openestate.Cancellations.{set_booking_status, or_zero, percent_or_zero}
use openestate.Database.{
  BookingStatus, LedgerEntryType, Booking, UnitRow, TransferFeeRule, Transfer, booking_kind, Db, Tx,
  pure, throw, gets, or_fail, modify, fail_if, when, fresh_id, ◌>>=◌, ◌>>◌,
}
use openestate.Inventory.{UnitStatus, available, held, booked, system}
use openestate.Ledger.{post_one, balance_in_tx}
use openestate.Money.{percent_of}
use openestate.Receipts.{fy_start_month_of}
use openestate.Refunds.{find_booking, plain_entry}
use openestate.Sequences.{FyNumber, allocate_for_fy}
use openestate.Units.{find_unit, transition}

-- `createTransferSchema`, without the reason. `is_unit` is whether the type is UNIT.
pub record TransferRequest : Type 0 where
  pub is_unit : Bool
  pub to_unit_id : Option ℕ
  pub to_applicant_id : Option ℕ
  pub transfer_fee_rule_id : Option ℕ

-- `TRANSFERABLE_FROM`
abbrev pub is_transferable : BookingStatus → Bool
is_transferable BookingStatus.booked = true
is_transferable BookingStatus.allotted = true
is_transferable _ = false

abbrev pub is_missing : Option ℕ → Bool
is_missing none = true
is_missing (some _) = false

-- `['AVAILABLE', 'HELD'].includes(status)`
abbrev pub is_open : UnitStatus → Bool
is_open available = true
is_open held = true
is_open _ = false

abbrev pub find_fee_rule : ℕ → Db → Option TransferFeeRule
find_fee_rule id db = find? (λ r. r.id == id) db.transfer_fee_rules

abbrev pub rule_fee : TransferFeeRule → Booking → ℤ
rule_fee rule from =
    if rule.is_fixed
    then or_zero rule.amount_paise
    else percent_of from.agreed_price_paise (percent_or_zero rule.percentage)

-- `if (dto.transferFeeRuleId)`
abbrev pub fee_for : Option ℕ → Booking → Tx ℤ
fee_for none from = pure (pos 0)
fee_for (some rule_id) from = do
  found ← gets (find_fee_rule rule_id)
  rule ← or_fail found not_found
  pure (rule_fee rule from)

pub record Destination : Type 0 where
  pub unit_id : ℕ
  pub applicant_id : ℕ

-- The unit must exist and be free. A missing id has been refused before.
abbrev pub unit_destination : Booking → Option ℕ → Tx Destination
unit_destination from none = throw bad_request
unit_destination from (some id) = do
  found ← gets (find_unit id)
  unit ← or_fail found not_found
  fail_if (not (is_open unit.status)) bad_request
  pure (record { unit_id = id; applicant_id = from.primary_applicant_id })

abbrev pub applicant_destination : Booking → Option ℕ → Tx Destination
applicant_destination from none = throw bad_request
applicant_destination from (some id) = do
  found ← gets (λ db. any (λ a. a == id) db.applicants)
  fail_if (not found) not_found
  pure (record { unit_id = from.unit_id; applicant_id = id })

abbrev pub destination_for : TransferRequest → Booking → Tx Destination
destination_for dto from =
    if dto.is_unit
    then unit_destination from dto.to_unit_id
    else applicant_destination from dto.to_applicant_id

abbrev pub new_booking : ℕ → Booking → Destination → FyNumber → ℕ → Booking
new_booking id from to number now = record {
  id = id;
  unit_id = to.unit_id;
  primary_applicant_id = to.applicant_id;
  seq_value = number.seq;
  status = BookingStatus.booked;
  agreed_price_paise = from.agreed_price_paise;
  place_of_supply = from.place_of_supply;
  interest_rule_id = from.interest_rule_id;
  broker_id = none;
  booking_date = now;
}

-- `if (transferFeePaise > 0n)`
post_fee : ℕ → ℤ → ℕ → Tx (Unit {0})
post_fee to_id fee now =
    when (ltb_ℤ (pos 0) fee)
      (do post_one (plain_entry to_id LedgerEntryType.transfer_fee fee now); pure tt)

-- The old ledger is closed, and the new booking opened with its balance and the fee.
pub open_booking : ℕ → Booking → Destination → ℤ → ℤ → ℕ → ℕ → Tx ℕ
unfolding post_fee
open_booking from_id from to carry fee fy_start_month now = do
  post_one (plain_entry from_id LedgerEntryType.transfer_carry_out (neg carry) now)
  modify (set_booking_status from_id BookingStatus.transferred_out)
  number ← allocate_for_fy booking_kind now fy_start_month
  id ← fresh_id
  modify (λ db. record db { bookings = db.bookings ++ new_booking id from to number now ∷ [] })
  post_one (plain_entry id LedgerEntryType.transfer_carry_in carry now)
  post_fee id fee now
  pure id

-- A transfer to another unit frees the old one and books the new one.
pub move_units : ℕ → ℕ → Tx (Unit {0})
move_units from_unit to_unit = do
  transition from_unit UnitStatus.cancelled system true
  transition from_unit available system true
  transition to_unit booked system true
  pure tt

-- The checks, and what they find: the booking, its balance, the fee and the destination.
pub record TransferPlan : Type 0 where
  pub from : Booking
  pub carry : ℤ
  pub fee : ℤ
  pub to : Destination

pub plan_transfer : ℕ → TransferRequest → Tx TransferPlan
unfolding balance_in_tx
plan_transfer from_id dto = do
  found ← gets (find_booking from_id)
  from ← or_fail found not_found
  fail_if (not (is_transferable from.status)) bad_request
  fail_if (dto.is_unit && is_missing dto.to_unit_id) bad_request
  fail_if (not dto.is_unit && is_missing dto.to_applicant_id) bad_request
  carry ← balance_in_tx from_id
  fee ← fee_for dto.transfer_fee_rule_id from
  to ← destination_for dto from
  pure (record { from = from; carry = carry; fee = fee; to = to })

pub transfer : ℕ → TransferRequest → ℕ → Tx ℕ
transfer from_id dto now = do
  plan ← plan_transfer from_id dto
  config ← gets (λ db. db.config)
  to_id ← open_booking from_id plan.from plan.to plan.carry plan.fee (fy_start_month_of config) now
  when dto.is_unit (move_units plan.from.unit_id plan.to.unit_id)
  let row : Transfer = record {
    from_booking_id = from_id;
    to_booking_id = to_id;
    transfer_fee_paise = plan.fee;
    carry_forward_paise = plan.carry;
  }
  modify (λ db. record db { transfers = db.transfers ++ row ∷ [] })
  pure to_id
