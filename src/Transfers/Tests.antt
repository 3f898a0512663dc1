-- ===== src/Transfers/Tests.antt =====
-- The theorem on transfers at booking 7, which moves from unit 3 to unit 5 for a fee of 100 paise.
use openestate.Base.{
  ℕ, ◌≡◌, refl, arith, true, none, some, [], ◌∷◌, ◌==◌, if◌then◌else◌, ok, err, bad_request,
}
use openestate.Base.Int.{ℤ, pos, neg, ◌+ℤ◌}
use openestate.Database.{Booking, BookingStatus, TransferFeeRule, UnitRow, Db}
use openestate.Inventory.{UnitStatus, available, booked, system}
use openestate.Ledger.{balance_of, balance_in_tx, post_one}
use openestate.Refunds.{find_booking}
use openestate.Samples.{booked_db, booking_7, unit_3}
use openestate.Sequences.{allocate_for_fy}
use openestate.Units.{transition}
use openestate.Units.Moves.{moved_db}
use openestate.Transfers.{
  TransferRequest, TransferPlan, is_transferable, fee_for, plan_transfer, open_booking, post_fee,
  move_units, transfer,
}
use openestate.Transfers.Opening.{opened_db, fee_db, charged}
use openestate.Transfers.Steps.{recorded_db}
use openestate.Transfers.Carry.{transfer_effect}

abbrev unit_5 : UnitRow
unit_5 = record { id = 5; status = available }

abbrev fee_rule : TransferFeeRule
fee_rule = record { id = 30; is_fixed = true; amount_paise = some (pos 100); percentage = none }

abbrev before : Db
before = record booked_db { units = unit_3 ∷ unit_5 ∷ []; transfer_fee_rules = fee_rule ∷ [] }

abbrev to_unit_5 : TransferRequest
to_unit_5 = record {
  is_unit = true;
  to_unit_id = some 5;
  to_applicant_id = none;
  transfer_fee_rule_id = some 30;
}

abbrev plan_7 : TransferPlan
plan_7 = record {
  from = booking_7;
  carry = pos 9000;
  fee = pos 100;
  to = record { unit_id = 5; applicant_id = 4 };
}

abbrev now : ℕ
now = 1_711_929_600_000

abbrev after : Db
after =
    let opened =
      fee_db 101 (pos 100) now (opened_db 7 booking_7 plan_7.to (pos 9000) 4 now before) in
    recorded_db 7 101 plan_7 (
      moved_db 5 booked system unit_5 (
        moved_db 3 available system (record unit_3 { status = UnitStatus.cancelled })
          (moved_db 3 UnitStatus.cancelled system unit_3 opened)))

transferred : transfer 7 to_unit_5 now before ≡ ok (101, after)
unfolding transfer plan_transfer open_booking post_fee move_units transition allocate_for_fy
    balance_in_tx post_one neg ◌+ℤ◌
transferred = refl

-- A transfer to a unit must name it.
unit_is_named : transfer 7 (record to_unit_5 { to_unit_id = none }) now before ≡ err bad_request
unfolding transfer plan_transfer
unit_is_named = refl

transfer_effect_example :
    (from : Booking) × (find_booking 7 before ≡ some from)
    × (is_transferable from.status ≡ true)
    × (find_booking 7 after ≡ some (record from { status = BookingStatus.transferred_out }))
    × (new : Booking) × (find_booking 101 after ≡ some new)
    × (new.status ≡ BookingStatus.booked)
    × (new.agreed_price_paise ≡ from.agreed_price_paise)
    × (fee : ℤ) × (fee_for (some 30) from before ≡ ok (fee, before))
    × ((b : ℕ)
        → balance_of b after.ledger ≡ (
            if 7 == b
            then pos 0
            else (if 101 == b
                then balance_of 7 before.ledger +ℤ charged fee
                else balance_of b before.ledger)))
transfer_effect_example =
    transfer_effect 7 to_unit_5 now 101 before after ((omega arith, tt), (omega arith, tt))
      transferred
