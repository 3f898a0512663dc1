-- ===== src/Cancellations/Tests.antt =====
-- The theorems on cancellations at booking 7, on which nothing is paid.
use openestate.Base.{
  ℕ, ◌≡◌, refl, true, false, none, some, [], ◌∷◌, ◌==◌, if◌then◌else◌, ok, err, bad_request,
}
use openestate.Base.Int.{pos, neg, ◌+ℤ◌, ◌-ℤ◌, ◌≤ℤ◌}
use openestate.Inventory.{UnitStatus, available, registered, system}
use openestate.Database.{Booking, BookingStatus, Cancellation, Db}
use openestate.Ledger.{balance_of, balance_in_tx, post}
use openestate.Refunds.{find_booking}
use openestate.Units.{find_unit, transition}
use openestate.Units.Moves.{moved_db}
use openestate.Cancellations.{
  CancellationRequest, is_cancellable, net_received, refundable_of, closed_status, cancel, settle,
  release_unit,
}
use openestate.Cancellations.Settlement.{closed_db}
use openestate.Cancellations.Outcome.{Freed, cancel_effect, cancel_registered}
use openestate.Samples.{booked_db, booking_7, unit_3}

abbrev no_rule : CancellationRequest
no_rule = record { is_surrender = false; cancellation_rule_id = none }

abbrev cancellation_7 : Cancellation
cancellation_7 = record { booking_id = 7; deduction_paise = pos 0; refundable_paise = pos 0 }

abbrev closed_7 : Db
closed_7 = closed_db 7 false (pos 0) (pos 0) 5 booked_db

abbrev cancelled_db : Db
cancelled_db =
    moved_db 3 available system (record unit_3 { status = UnitStatus.cancelled })
      (moved_db 3 UnitStatus.cancelled system unit_3 closed_7)

cancelled : cancel 7 no_rule 5 booked_db ≡ ok (cancellation_7, cancelled_db)
unfolding cancel settle release_unit transition balance_in_tx post neg ◌+ℤ◌ ◌-ℤ◌
cancelled = refl

cancel_effect_example :
    (booking : Booking) × (find_booking 7 booked_db ≡ some booking)
    × (is_cancellable booking.status ≡ true)
    × (pos 0 ≡ refundable_of (net_received 7 booked_db) (pos 0))
    × (pos 0 ≤ℤ pos 0)
    × (find_booking 7 cancelled_db ≡ some (record booking { status = closed_status false }))
    × Freed booking.unit_id (find_unit booking.unit_id booked_db) cancelled_db
    × ((b : ℕ)
        → balance_of b cancelled_db.ledger
          ≡ (if 7 == b then neg (pos 0) else balance_of b booked_db.ledger))
cancel_effect_example = cancel_effect 7 no_rule 5 booked_db cancelled_db cancellation_7 cancelled

-- The same booking, REGISTERED together with its unit.
abbrev registered_db : Db
registered_db = record booked_db {
  bookings = record booking_7 { status = BookingStatus.registered } ∷ [];
  units = record unit_3 { status = registered } ∷ [];
}

cancel_registered_example : cancel 7 no_rule 5 registered_db ≡ err bad_request
cancel_registered_example =
    cancel_registered 7 false 5 registered_db
      (record booking_7 { status = BookingStatus.registered })
      (record unit_3 { status = registered }) refl refl refl refl
