-- ===== src/Cancellations/Outcome.antt =====
-- `cancel` of apps/api/src/postsales/cancellation.service.ts: what a cancellation leaves in the ledger,
-- on the booking and on its unit, and the unit that stops it.
use openestate.Base.{
  ℕ, ◌≡◌, refl, sym, ap, ◌∙◌, arith, Bool, true, Option, none, some, ◌==◌, if◌then◌else◌, ok, err,
  Error, bad_request, Result, find?, find?-update_where, Bool-cases, Option-cases, inl, inr,
}
use openestate.Base.Int.{ℤ, pos, neg, ◌-ℤ◌, ◌≤ℤ◌, ltb_ℤ}
use openestate.Inventory.{UnitStatus, ActorType, available, registered}
use openestate.Database.{Booking, BookingStatus, UnitRow, Cancellation, Db, pure}
use openestate.Ledger.{balance_of}
use openestate.Ledger.Moves.{rows_after, Result-cases, bind_ok, bind_err}
use openestate.Refunds.{find_booking}
use openestate.Units.{find_unit}
use openestate.Units.Moves.{moved_db}
use openestate.Cancellations.Settlement.{
  balance_of-settled, deduction_for-ReadsOnly, closed_db, cancel_by,
}
use openestate.Cancellations.Release.{
  release_unit-Keeps, release_unit_frees, release_unit_registered,
}
use openestate.Cancellations.{
  CancellationRequest, is_cancellable, net_received, deduction_for, refundable_of, closed_status,
  release_unit, cancel,
}

cancel_checked :
    (id : ℕ) (dto : CancellationRequest) (now : ℕ) (db db' : Db) (c : Cancellation)
    → cancel id dto now db ≡ ok (c, db')
    → (booking : Booking) × (find_booking id db ≡ some booking)
      × (is_cancellable booking.status ≡ true)
      × (deduction : ℤ) × (deduction_for dto.cancellation_rule_id booking db ≡ ok (deduction, db))
unfolding cancel
cancel_checked id dto now db db' c h = elim (Option-cases (find_booking id db)) [
  | inl e ↦ ground (arith, e)
  | inr (booking, e) ↦ elim (Bool-cases (is_cancellable booking.status)) [
    | inr q ↦ ground (arith, e, q)
    | inl q ↦ elim (Result-cases (deduction_for dto.cancellation_rule_id booking db)) [
      | inr (x, d) ↦ ground (arith, e, q, d)
      | inl (deduction, db1, d) ↦
          let same : db1 ≡ db = cc (deduction_for-ReadsOnly dto.cancellation_rule_id booking db) in
          (booking, e, q, deduction, d ∙ ap (λ (x : Db). ok (deduction, x)) same)
    ]
  ]
]

-- The unit of the booking, if there is one, is AVAILABLE afterwards.
abbrev pub Freed : ℕ → Option UnitRow → Db → Type 0
Freed unit_id none db' = Unit
Freed unit_id (some u) db' = find_unit unit_id db' ≡ some (record u { status = available })

freed :
    (unit_id : ℕ) (found : Option UnitRow) (db db' : Db)
    → find_unit unit_id db ≡ found
    → release_unit unit_id found db ≡ ok (tt, db')
    → Freed unit_id found db'
freed unit_id none db db' e h = tt
freed unit_id (some u) db db' e h = release_unit_frees unit_id u db db' h e

cancel_released :
    (id : ℕ) (dto : CancellationRequest) (now : ℕ) (db db' : Db) (c : Cancellation)
    (booking : Booking) (deduction : ℤ)
    → cancel id dto now db ≡ ok (c, db')
    → find_booking id db ≡ some booking
    → is_cancellable booking.status ≡ true
    → deduction_for dto.cancellation_rule_id booking db ≡ ok (deduction, db)
    → let refundable = refundable_of (net_received id db) deduction in
      let closed = closed_db id dto.is_surrender deduction refundable now db in
      (c ≡ record { booking_id = id; deduction_paise = deduction; refundable_paise = refundable })
      × (release_unit booking.unit_id (find_unit booking.unit_id closed) closed ≡ ok (tt, db'))
cancel_released id dto now db db' c booking deduction h e q d =
    let refundable = refundable_of (net_received id db) deduction in
    let closed = closed_db id dto.is_surrender deduction refundable now db in
    let made : Cancellation = record {
      booking_id = id;
      deduction_paise = deduction;
      refundable_paise = refundable;
    } in
    let release = release_unit booking.unit_id (find_unit booking.unit_id closed) in
    let by = cancel_by id dto now db booking deduction e q d in
    elim (Result-cases (release closed)) [
      | inr (x, f) ↦
          let failed = by ∙ bind_err release (λ _. pure made) closed f in
          absurd (apart (sym failed ∙ h))
      | inl (_, db1, f) ↦
          let returned : ok (made, db1) ≡ ok (c, db') =
            sym (by ∙ bind_ok release (λ _. pure made) closed f) ∙ h in
          let first : c ≡ made = cc in
          let second : db1 ≡ db' = cc in (first, f ∙ ap (λ (x : Db). ok (tt, x)) second)
    ]
  where
    apart : {x : Error} {a : Cancellation × Db} → err x ≡ ok a → ⊥
    apart e = cc

refundable_of_nonneg : (net deduction : ℤ) → pos 0 ≤ℤ refundable_of net deduction
refundable_of_nonneg net deduction = elim (Bool-cases (ltb_ℤ (pos 0) (net -ℤ deduction))) [
  | inl c ↦ ground (arith, c)
  | inr c ↦ ground (arith, c)
]

-- A cancellation that returns was of a booking that is BOOKED, ALLOTTED or REGISTERED, which
-- becomes CANCELLED or SURRENDERED. The booking's balance ends at minus the refundable amount,
-- which is what was collected less the deduction, and at least zero; no other balance moves. The
-- booking's unit, if there is one, is AVAILABLE.
pub cancel_effect :
    (id : ℕ) (dto : CancellationRequest) (now : ℕ) (db db' : Db) (c : Cancellation)
    → cancel id dto now db ≡ ok (c, db')
    → (booking : Booking) × (find_booking id db ≡ some booking)
      × (is_cancellable booking.status ≡ true)
      × (c.refundable_paise ≡ refundable_of (net_received id db) c.deduction_paise)
      × (pos 0 ≤ℤ c.refundable_paise)
      × (find_booking id db' ≡ some (record booking { status = closed_status dto.is_surrender }))
      × Freed booking.unit_id (find_unit booking.unit_id db) db'
      × ((b : ℕ)
          → balance_of b db'.ledger
            ≡ (if id == b then neg c.refundable_paise else balance_of b db.ledger))
cancel_effect id dto now db db' c h =
    let (booking, e, q, deduction, d) = cancel_checked id dto now db db' c h in
    let (made, released) = cancel_released id dto now db db' c booking deduction h e q d in
    let refundable = refundable_of (net_received id db) deduction in
    let closed = closed_db id dto.is_surrender deduction refundable now db in
    let unit = find_unit booking.unit_id closed in
    let ledger : db'.ledger ≡ closed.ledger =
      kept (λ x. x.ledger) (λ _ _ _ _ _. refl) booking.unit_id unit closed db' released in
    let bookings : db'.bookings ≡ closed.bookings =
      kept (λ x. x.bookings) (λ _ _ _ _ _. refl) booking.unit_id unit closed db' released in
    (
      booking,
      e,
      q,
      rw made,
      rw made (refundable_of_nonneg (net_received id db) deduction),
      ap (find? (λ (x : Booking). x.id == id)) bookings
          ∙ find?-update_where (λ (x : Booking). x.id == id)
              (λ (x : Booking). record x { status = closed_status dto.is_surrender }) (λ x. refl)
              db.bookings e,
      freed booking.unit_id unit closed db' refl released,
      λ b.
          ap (balance_of b) ledger
          ∙ balance_of-settled b id deduction refundable now db
          ∙ ap
              (λ (x : Cancellation).
                if id == b then neg x.refundable_paise else balance_of b db.ledger)
              (sym made),
    )
  where
    kept :
        {B : Type 0} (part : Db → B)
        → ((id : ℕ) (to : UnitStatus) (actor : ActorType) (u : UnitRow) (db : Db)
            → part (moved_db id to actor u db) ≡ part db)
        → (id : ℕ) (found : Option UnitRow) (db db' : Db) → release_unit id found db ≡ ok (tt, db')
        → part db' ≡ part db
    kept part h id found db db' e =
        ap (λ (r : Result (Unit {0} × Db)). part (rows_after db r)) (sym e)
        ∙ release_unit-Keeps part h id found db

-- A booking whose unit is REGISTERED cannot be cancelled, although a REGISTERED booking passes
-- the check of its status: the table of transitions has no way out of REGISTERED for the unit.
-- With no rule named in the request, the call throws and nothing is written.
pub cancel_registered :
    (id : ℕ) (surrender : Bool) (now : ℕ) (db : Db) (booking : Booking) (u : UnitRow)
    → find_booking id db ≡ some booking
    → booking.status ≡ BookingStatus.registered
    → find_unit booking.unit_id db ≡ some u
    → u.status ≡ registered
    → cancel id (record { is_surrender = surrender; cancellation_rule_id = none }) now db
      ≡ err bad_request
cancel_registered id surrender now db booking u e s unit r =
    let dto : CancellationRequest = record {
      is_surrender = surrender;
      cancellation_rule_id = none;
    } in
    let refundable = refundable_of (net_received id db) (pos 0) in
    let closed = closed_db id surrender (pos 0) refundable now db in
    let made : Cancellation = record {
      booking_id = id;
      deduction_paise = pos 0;
      refundable_paise = refundable;
    } in
    let stuck : release_unit booking.unit_id (find_unit booking.unit_id closed) closed
        ≡ err bad_request =
      ap (λ (f : Option UnitRow). release_unit booking.unit_id f closed) unit
      ∙ release_unit_registered booking.unit_id u closed unit r in
    cancel_by id dto now db booking (pos 0) e (ap is_cancellable s) refl
    ∙ bind_err (release_unit booking.unit_id (find_unit booking.unit_id closed)) (λ _. pure made)
        closed stuck
