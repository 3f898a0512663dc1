-- ===== src/Brokers/Noc.antt =====
-- apps/api/src/brokers/noc.service.ts, the broker's no-objection certificate, and `cancel` of
-- apps/api/src/postsales/booking.controller.ts, which joins the certificate, the cancellation and
-- the clawback in one transaction.
use openestate.Base.{
  ℕ, suc, Bool, true, false, not, ◌&&◌, Option, none, some, [], ◌∷◌, ◌++◌, ◌==◌, any, find?,
  update_where, if◌then◌else◌, Result, ok, err, not_found, bad_request, conflict, ◌>>=◌, or_throw,
  throw_if,
}
use openestate.Cancellations.{CancellationRequest, cancel}
use openestate.Database.{Booking, Cancellation, Db}
use openestate.Refunds.{find_booking}
use openestate.Brokers.Rows.{BrokerRows, Broker, NocStatus, find_broker}
use openestate.Brokers.Clawback.{handle_booking_cancelled}

abbrev pub is_open : NocStatus → Bool
is_open NocStatus.requested = true
is_open _ = false

abbrev pub is_granted : NocStatus → Bool
is_granted NocStatus.approved = true
is_granted _ = false

abbrev pub create_noc : ℕ → ℕ → NocStatus → BrokerRows → BrokerRows
create_noc booking_id broker_id status rows = record rows {
  next_id = suc rows.next_id;
  nocs =
      rows.nocs
      ++ record {
        id = rows.next_id;
        booking_id = booking_id;
        broker_id = broker_id;
        status = status;
      }
        ∷ [];
}

pub request_noc : ℕ → Db → BrokerRows → Result BrokerRows
request_noc booking_id db rows = do
  booking ← or_throw (find_booking booking_id db) not_found
  broker_id ← or_throw booking.broker_id bad_request
  ok (create_noc booking_id broker_id NocStatus.requested rows)

-- `approve` and `reject` of `NocService`
pub decide_noc : NocStatus → ℕ → BrokerRows → Result BrokerRows
decide_noc status noc_id rows = do
  noc ← or_throw (find? (λ n. n.id == noc_id) rows.nocs) not_found
  _ ← throw_if (not (is_open noc.status)) conflict
  ok (record rows {
    nocs = update_where (λ n. n.id == noc_id) (λ n. record n { status = status }) rows.nocs;
  })

pub approve_noc : ℕ → BrokerRows → Result BrokerRows
unfolding decide_noc
approve_noc = decide_noc NocStatus.approved

pub reject_noc : ℕ → BrokerRows → Result BrokerRows
unfolding decide_noc
reject_noc = decide_noc NocStatus.rejected

-- Whether the booking has an APPROVED certificate.
abbrev pub noc_approved : ℕ → BrokerRows → Bool
noc_approved booking_id rows =
    any (λ n. n.booking_id == booking_id && is_granted n.status) rows.nocs

-- `broker && !broker.isActive`
abbrev pub is_inactive : Option Broker → Bool
is_inactive none = false
is_inactive (some b) = not b.is_active

unfoldable pub assert_approved_or_auto_approve : ℕ → ℕ → BrokerRows → Result BrokerRows
assert_approved_or_auto_approve booking_id broker_id rows =
    let approved = noc_approved booking_id rows in
    if is_inactive (find_broker broker_id rows)
    then (if approved
        then ok rows
        else ok (create_noc booking_id broker_id NocStatus.approved rows))
    else (if approved then ok rows else err bad_request)

-- `booking?.brokerId`
abbrev pub broker_of : Option Booking → Option ℕ
broker_of none = none
broker_of (some b) = b.broker_id

-- `cancel` of `BookingController`; a throw of any part leaves the rows of all parts as they were.
unfoldable pub cancel_booking :
    ℕ → CancellationRequest → ℕ → Db → BrokerRows → Result (Cancellation × Db × BrokerRows)
unfolding assert_approved_or_auto_approve handle_booking_cancelled
cancel_booking booking_id dto now db rows = elim (broker_of (find_booking booking_id db)) [
  | none ↦ do (result, db') ← cancel booking_id dto now db; ok (result, db', rows)
  | some broker_id ↦ do
    checked ← assert_approved_or_auto_approve booking_id broker_id rows
    (result, db') ← cancel booking_id dto now db
    rows' ← handle_booking_cancelled now booking_id broker_id checked
    ok (result, db', rows')
]
