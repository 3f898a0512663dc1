-- ===== src/Cancellations.antt =====
-- apps/api/src/postsales/cancellation.service.ts: a booking is cancelled or surrendered, its balance
-- is settled to what the company owes the customer, and its unit is free again. The event that
-- `cancel` returns for the commission engine is left out.
pub mod Settlement
pub mod Release
pub mod Outcome
pub mod Samples
mod Tests
use openestate.Base.{
  ℕ, Bool, true, false, not, ◌&&◌, Option, none, some, List, [], ◌∷◌, ◌++◌, ◌==◌, if◌then◌else◌,
  ltb, find?, select, update_where, ok, err, Result, not_found, bad_request,
}
use openestate.Base.Int.{ℤ, pos, neg, ◌+ℤ◌, ◌-ℤ◌, ltb_ℤ}
use openestate.Inventory.{UnitStatus, available, system, same_status}
use openestate.Money.{percent_of}
use openestate.Database.{
  BookingStatus, LedgerEntryType, is_collected, Booking, Installment, Receipt, TdsDeduction,
  UnitRow, CancellationRule, Cancellation, Db, Tx, pure, gets, or_fail, modify, fail_if, ◌>>=◌,
  ◌>>◌,
}
use openestate.Ledger.{post, balance_in_tx}
use openestate.Refunds.{find_booking, plain_entry}
use openestate.Units.{find_unit, transition}

-- `CancellationDto`, without the reason.
pub record CancellationRequest : Type 0 where
  pub is_surrender : Bool
  pub cancellation_rule_id : Option ℕ

-- `CANCELLABLE_FROM`
abbrev pub is_cancellable : BookingStatus → Bool
is_cancellable BookingStatus.booked = true
is_cancellable BookingStatus.allotted = true
is_cancellable BookingStatus.registered = true
is_cancellable _ = false

-- The receipts that count as collected: not reversed, and immediate or cleared.
abbrev pub collected : ℕ → List Receipt → List Receipt
collected booking_id =
    select (λ r. r.booking_id == booking_id && not r.is_reversed && is_collected r.clearance_status)

-- `r.tdsDeductions.reduce((s, d) => s + d.deductedPaise, 0n)`
abbrev pub tds_of : ℕ → List TdsDeduction → ℤ
tds_of receipt_id [] = pos 0
tds_of receipt_id (d ∷ ds) =
    if d.receipt_id == receipt_id
    then d.deducted_paise +ℤ tds_of receipt_id ds
    else tds_of receipt_id ds

abbrev pub sum_net : List TdsDeduction → List Receipt → ℤ
sum_net deductions [] = pos 0
sum_net deductions (r ∷ rs) =
    (r.gross_amount_paise -ℤ tds_of r.id deductions) +ℤ sum_net deductions rs

-- The cash that was collected on a booking.
abbrev pub net_received : ℕ → Db → ℤ
net_received booking_id db = sum_net db.tds_deductions (collected booking_id db.receipts)

-- `orderBy: { seq: 'asc' }`, among the installments that pass the test.
abbrev pub first_by_seq :
    (Installment → Bool) → List Installment → Option Installment → Option Installment
first_by_seq test [] best = best
first_by_seq test (i ∷ is) best = first_by_seq test is (
    if test i
    then elim best [ none ↦ some i | some b ↦ if ltb i.seq b.seq then some i else some b ]
    else best)

abbrev pub first_installment_amount : ℕ → Db → ℤ
first_installment_amount booking_id db =
    elim (first_by_seq (λ i. i.booking_id == booking_id && i.is_active) db.installments none) [
      | none ↦ pos 0
      | some i ↦ i.amount_paise
    ]

abbrev pub find_cancellation_rule : ℕ → Db → Option CancellationRule
find_cancellation_rule id db = find? (λ r. r.id == id) db.cancellation_rules

abbrev pub or_zero : Option ℤ → ℤ
or_zero none = pos 0
or_zero (some x) = x

abbrev pub percent_or_zero : Option ℕ → ℕ
percent_or_zero none = 0
percent_or_zero (some x) = x

-- The deduction of a rule: flat, or a percentage of the price, and perhaps the first installment.
abbrev pub rule_deduction : CancellationRule → Booking → Db → ℤ
rule_deduction rule booking db =
    (if rule.is_flat
      then or_zero rule.deduction_amount_paise
      else percent_of booking.agreed_price_paise (percent_or_zero rule.deduction_percent))
    +ℤ (if rule.forfeit_booking_amount then first_installment_amount booking.id db else pos 0)

-- `if (dto.cancellationRuleId)`
abbrev pub deduction_for : Option ℕ → Booking → Tx ℤ
deduction_for none booking = pure (pos 0)
deduction_for (some rule_id) booking = do
  found ← gets (find_cancellation_rule rule_id)
  rule ← or_fail found not_found
  gets (rule_deduction rule booking)

-- `netReceived - deduction > 0n ? netReceived - deduction : 0n`
abbrev pub refundable_of : ℤ → ℤ → ℤ
refundable_of net deduction = if ltb_ℤ (pos 0) (net -ℤ deduction) then net -ℤ deduction else pos 0

abbrev pub set_booking_status : ℕ → BookingStatus → Db → Db
set_booking_status id status db = record db {
  bookings = update_where (λ b. b.id == id) (λ b. record b { status = status }) db.bookings;
}

abbrev pub closed_status : Bool → BookingStatus
closed_status true = BookingStatus.surrendered
closed_status false = BookingStatus.cancelled

-- `if (unit && unit.status !== 'AVAILABLE')`: to CANCELLED, unless it is there, then to AVAILABLE.
pub release_unit : ℕ → Option UnitRow → Tx (Unit {0})
release_unit unit_id none = pure tt
release_unit unit_id (some unit) = if same_status unit.status available then pure tt else (do
  (if same_status unit.status UnitStatus.cancelled
      then pure UnitStatus.cancelled
      else transition unit_id UnitStatus.cancelled system true)
  transition unit_id available system true
  pure tt)

-- The deduction is levied, and the settlement brings the balance to minus the refundable amount.
settle : ℕ → ℤ → ℤ → ℕ → Tx (Unit {0})
settle booking_id deduction refundable now = do
  balance ← balance_in_tx booking_id
  let settlement = (neg refundable -ℤ balance) -ℤ deduction
  post (
      plain_entry booking_id LedgerEntryType.cancellation_deduction deduction now
      ∷ plain_entry booking_id LedgerEntryType.cancellation_settlement settlement now
      ∷ [])
  pure tt

pub cancel : ℕ → CancellationRequest → ℕ → Tx Cancellation
cancel booking_id dto now = do
  found ← gets (find_booking booking_id)
  booking ← or_fail found not_found
  fail_if (not (is_cancellable booking.status)) bad_request
  net ← gets (net_received booking_id)
  deduction ← deduction_for dto.cancellation_rule_id booking
  let refundable = refundable_of net deduction
  settle booking_id deduction refundable now
  modify (set_booking_status booking_id (closed_status dto.is_surrender))
  let cancellation : Cancellation = record {
    booking_id = booking_id;
    deduction_paise = deduction;
    refundable_paise = refundable;
  }
  modify (λ db. record db { cancellations = db.cancellations ++ cancellation ∷ [] })
  unit ← gets (find_unit booking.unit_id)
  release_unit booking.unit_id unit
  pure cancellation
