-- ===== src/Brokers/Snapshots.antt =====
-- The snapshot of a booking's commission (apps/api/src/commission/commission.service.ts) is made once.
use openestate.Base.{
  find?-added, ℕ, ◌≡◌, arith, true, Option, some, ◌==◌, ==_refl, Option-cases, inl, inr, ok,
}
use openestate.Database.{Booking}
use openestate.Brokers.Rows.{BrokerRows, BrokerBookingCommission}
use openestate.Brokers.Accrual.{find_snapshot, add_snapshot, ensure_snapshot, new_snapshot}

new_snapshot_by :
    (booking : Booking) (broker_id : ℕ) (project : Option ℕ) (rows after : BrokerRows)
    (s : BrokerBookingCommission)
    → new_snapshot booking broker_id project rows ≡ ok (s, after)
    → ((s.booking_id == booking.id) ≡ true) × (after ≡ add_snapshot s rows)
unfolding new_snapshot
new_snapshot_by booking broker_id project rows after s h = ground (arith, ==_refl booking.id)

-- It is there afterwards, and the other tables are as before.
pub ensure_snapshot_again :
    (booking : Booking) (broker_id : ℕ) (project : Option ℕ) (rows after : BrokerRows)
    (s : BrokerBookingCommission)
    → ensure_snapshot booking broker_id project rows ≡ ok (s, after)
    → (find_snapshot booking.id after ≡ some s)
      × (after.entries ≡ rows.entries)
      × (after.rules ≡ rows.rules)
      × (after.config ≡ rows.config)
unfolding ensure_snapshot
ensure_snapshot_again booking broker_id project rows after s h =
    elim (Option-cases (find_snapshot booking.id rows)) [
      | inr (t, f) ↦ ground (arith, f)
      | inl f ↦
          let (own, made) =
            new_snapshot_by booking broker_id project rows after s (rw (ensure_snapshot, f) at h) in
          (
            rw made (find?-added (λ t. t.booking_id == booking.id) rows.snapshots s f own),
            rw made,
            rw made,
            rw made,
          )
    ]
