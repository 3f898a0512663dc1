-- ===== src/Cancellations/Samples.antt =====
-- A cancellation of booking 7 with a broker, for the tests of the modules that use `cancel`.
use openestate.Base.{◌≡◌, refl, false, none, some, [], ◌∷◌, ok}
use openestate.Base.Int.{pos, neg, ◌+ℤ◌, ◌-ℤ◌}
use openestate.Inventory.{UnitStatus, available, system}
use openestate.Database.{Booking, Cancellation, Db}
use openestate.Ledger.{balance_in_tx, post}
use openestate.Units.{transition}
use openestate.Units.Moves.{moved_db}
use openestate.Cancellations.{CancellationRequest, cancel, settle, release_unit}
use openestate.Cancellations.Settlement.{closed_db}
use openestate.Samples.{booked_db, booking_7, unit_3}

abbrev pub booking_with_broker : Booking
booking_with_broker = record booking_7 { broker_id = some 5 }

abbrev pub brokered_db : Db
brokered_db = record booked_db { bookings = booking_with_broker ∷ [] }

abbrev pub plain_cancellation : CancellationRequest
plain_cancellation = record { is_surrender = false; cancellation_rule_id = none }

abbrev pub brokered_cancellation : Cancellation
brokered_cancellation = record { booking_id = 7; deduction_paise = pos 0; refundable_paise = pos 0 }

abbrev pub cancelled_brokered_db : Db
cancelled_brokered_db =
    moved_db 3 available system (record unit_3 { status = UnitStatus.cancelled })
      (moved_db 3 UnitStatus.cancelled system unit_3
        (closed_db 7 false (pos 0) (pos 0) 5 brokered_db))

pub cancel_brokered :
    cancel 7 plain_cancellation 5 brokered_db ≡ ok (brokered_cancellation, cancelled_brokered_db)
unfolding cancel settle release_unit transition balance_in_tx post neg ◌+ℤ◌ ◌-ℤ◌
cancel_brokered = refl
