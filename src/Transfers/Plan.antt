-- ===== src/Transfers/Plan.antt =====
-- `transfer` of apps/api/src/postsales/transfer.service.ts: its checks write nothing, and
-- the moves of its units touch units only.
use openestate.Base.{
  ℕ, ◌≡◌, refl, arith, true, Option, none, some, ◌==◌, ok, any, Bool-cases, Option-cases, inl, inr,
}
use openestate.Database.{Booking, UnitRow, Db, pure, ◌>>◌}
use openestate.Inventory.{UnitStatus, ActorType, available, booked, system}
use openestate.Ledger.{balance_of, balance_in_tx}
use openestate.Ledger.Moves.{Keeps, >>=-Keeps, Result-cases, ReadsOnly}
use openestate.Refunds.{find_booking}
use openestate.Units.{find_unit, transition}
use openestate.Units.Moves.{moved_db}
use openestate.Units.Frame.{transition-Keeps}
use openestate.Transfers.{
  TransferRequest, TransferPlan, is_transferable, find_fee_rule, fee_for, unit_destination,
  applicant_destination, destination_for, plan_transfer, move_units,
}

fee_for-ReadsOnly : (rule_id : Option ℕ) (from : Booking) → ReadsOnly (fee_for rule_id from)
fee_for-ReadsOnly none from db = refl
fee_for-ReadsOnly (some id) from db = elim (Option-cases (find_fee_rule id db)) [
  | inl e ↦ ground (arith, e)
  | inr (rule, e) ↦ ground (arith, e)
]

unit_destination-ReadsOnly : (from : Booking) (id : Option ℕ) → ReadsOnly (unit_destination from id)
unit_destination-ReadsOnly from none db = refl
unit_destination-ReadsOnly from (some id) db = elim (Option-cases (find_unit id db)) [
  | inl e ↦ ground (arith, e)
  | inr (unit, e) ↦ ground (arith, e)
]

applicant_destination-ReadsOnly :
    (from : Booking) (id : Option ℕ) → ReadsOnly (applicant_destination from id)
applicant_destination-ReadsOnly from none db = refl
applicant_destination-ReadsOnly from (some id) db =
    elim (Bool-cases (any (λ (a : ℕ). a == id) db.applicants)) [ inl c ↦ rw c | inr c ↦ rw c ]

destination_for-ReadsOnly :
    (dto : TransferRequest) (from : Booking) → ReadsOnly (destination_for dto from)
destination_for-ReadsOnly dto from db = elim (Bool-cases dto.is_unit) [
  | inl c ↦ rw c (unit_destination-ReadsOnly from dto.to_unit_id db)
  | inr c ↦ rw c (applicant_destination-ReadsOnly from dto.to_applicant_id db)
]

-- What the checks have established, and that they write nothing.
pub plan_transfer_returned :
    (id : ℕ) (dto : TransferRequest) (db db' : Db) (plan : TransferPlan)
    → plan_transfer id dto db ≡ ok (plan, db')
    → (db' ≡ db)
      × (find_booking id db ≡ some plan.from)
      × (is_transferable plan.from.status ≡ true)
      × (plan.carry ≡ balance_of id db.ledger)
      × (fee_for dto.transfer_fee_rule_id plan.from db ≡ ok (plan.fee, db))
unfolding plan_transfer balance_in_tx
plan_transfer_returned id dto db db' plan h = elim (Option-cases (find_booking id db)) [
  | inl e ↦ ground (arith, e)
  | inr (from, e) ↦ elim (Result-cases (fee_for dto.transfer_fee_rule_id from db)) [
    | inr (x, f) ↦ ground (arith, e, f)
    | inl (fee, db1, f) ↦
        let same : db1 ≡ db = cc (fee_for-ReadsOnly dto.transfer_fee_rule_id from db) in
        elim (Result-cases (destination_for dto from db)) [
          | inr (x, d) ↦ ground (arith, e, f, same, d)
          | inl (to, db2, d) ↦
              let same2 : db2 ≡ db = cc (destination_for-ReadsOnly dto from db) in
              ground (arith, e, f, same, d, same2)
        ]
  ]
]

-- The moves of the units leave everything else alone.
module _ {B : Type 0} (part : Db → B)
    (h : (id : ℕ) (to : UnitStatus) (actor : ActorType) (u : UnitRow) (db : Db)
      → part (moved_db id to actor u db) ≡ part db) where
  pub move_units-Keeps : (from to : ℕ) → Keeps part (move_units from to)
  unfolding move_units
  move_units-Keeps from to =
      let last = transition to booked system true >> pure tt in
      >>=-Keeps part (transition from UnitStatus.cancelled system true)
        (λ _. transition from available system true >> last)
        (transition-Keeps part h from UnitStatus.cancelled system true)
        (λ _.
          >>=-Keeps part (transition from available system true) (λ _. last)
            (transition-Keeps part h from available system true)
            (λ _.
              >>=-Keeps part (transition to booked system true) (λ _. pure tt)
                (transition-Keeps part h to booked system true) (λ _ db. refl)))
