-- ===== src/Transfers/Steps.antt =====
-- `transfer` of apps/api/src/postsales/transfer.service.ts: a transfer that returns, taken
-- apart into its plan, the opening of the new booking and the moves of the units.
use openestate.Base.{
  ℕ, suc, ◌≡◌, refl, sym, ap, ◌∙◌, arith, Bool, [], ◌∷◌, ◌++◌, ◌==◌, if◌then◌else◌, ok, Result, inl,
  inr,
}
use openestate.Base.Int.{pos, neg, ◌+ℤ◌}
use openestate.Database.{UnitRow, Db, when, ◌>>=◌}
use openestate.Inventory.{UnitStatus, ActorType}
use openestate.Ledger.{balance_of}
use openestate.Ledger.Moves.{when-Keeps, rows_after, Result-cases}
use openestate.Receipts.{fy_start_month_of}
use openestate.Units.Moves.{moved_db}
use openestate.Transfers.{
  TransferRequest, TransferPlan, plan_transfer, open_booking, move_units, transfer,
}
use openestate.Transfers.Plan.{plan_transfer_returned, move_units-Keeps}
use openestate.Transfers.Opening.{opened_db, charged, open_booking_returns}

-- The rows once the transfer's own row is written.
abbrev pub recorded_db : ℕ → ℕ → TransferPlan → Db → Db
recorded_db id to_id plan db = record db {
  transfers =
      db.transfers
      ++ record {
        from_booking_id = id;
        to_booking_id = to_id;
        transfer_fee_paise = plan.fee;
        carry_forward_paise = plan.carry;
      }
        ∷ [];
}

transfer_by :
    (id : ℕ) (dto : TransferRequest) (now to_id : ℕ) (db db1 db2 : Db) (plan : TransferPlan)
    → plan_transfer id dto db ≡ ok (plan, db)
    → open_booking id plan.from plan.to plan.carry plan.fee (fy_start_month_of db.config) now db
      ≡ ok (to_id, db1)
    → when dto.is_unit (move_units plan.from.unit_id plan.to.unit_id) db1 ≡ ok (tt, db2)
    → transfer id dto now db ≡ ok (to_id, recorded_db id to_id plan db2)
unfolding transfer
transfer_by id dto now to_id db db1 db2 plan e o m = rw (e, ◌>>=◌, o, m)

-- A transfer that returns has a plan, opened the new booking and moved the units.
pub transfer_inv :
    (id : ℕ) (dto : TransferRequest) (now to_id : ℕ) (db db' : Db)
    → transfer id dto now db ≡ ok (to_id, db')
    → (plan : TransferPlan) × (plan_transfer id dto db ≡ ok (plan, db))
      × (to_id ≡ suc db.next_id)
      × (db'.bookings
          ≡ (opened_db id plan.from plan.to plan.carry
              (fy_start_month_of db.config)
              now
              db).bookings)
      × ((b : ℕ)
          → balance_of b db'.ledger
            ≡ ((balance_of b db.ledger +ℤ (if id == b then neg plan.carry else pos 0))
                +ℤ (if suc db.next_id == b then plan.carry else pos 0))
              +ℤ (if suc db.next_id == b then charged plan.fee else pos 0))
unfolding transfer
transfer_inv id dto now to_id db db' h = elim (Result-cases (plan_transfer id dto db)) [
  | inr (x, e) ↦ ground (arith, e)
  | inl (plan, db0, e) ↦
      let same : db0 ≡ db = (plan_transfer_returned id dto db db0 plan e).0 in
      let (db1, o, bookings, balances) =
        open_booking_returns id plan.from plan.to plan.carry plan.fee (fy_start_month_of db.config)
          now db in
      elim (Result-cases (when dto.is_unit (move_units plan.from.unit_id plan.to.unit_id) db1)) [
        | inr (x, m) ↦ ground (arith, e, same, o, m)
        | inl (_, db2, m) ↦
            let planned : plan_transfer id dto db ≡ ok (plan, db) =
              e ∙ ap (λ (x : Db). ok (plan, x)) same in
            let done : ok (to_id, db')
                ≡ ok (suc db.next_id, recorded_db id (suc db.next_id) plan db2) =
              sym h ∙ transfer_by id dto now (suc db.next_id) db db1 db2 plan planned o m in
            let same_id : to_id ≡ suc db.next_id = cc in
            let same_db : db' ≡ recorded_db id (suc db.next_id) plan db2 = cc in
            (
              plan,
              planned,
              same_id,
              ap (λ (x : Db). x.bookings) same_db
                  ∙ kept (λ x. x.bookings) (λ _ _ _ _ _. refl) dto.is_unit plan.from.unit_id
                      plan.to.unit_id db1 db2 m
                  ∙ bookings,
              λ b.
                  ap (λ (x : Db). balance_of b x.ledger) same_db
                  ∙ ap (balance_of b) (
                      kept (λ x. x.ledger) (λ _ _ _ _ _. refl) dto.is_unit plan.from.unit_id
                        plan.to.unit_id db1 db2 m)
                  ∙ balances b,
            )
      ]
]
  where
    kept :
        {B : Type 0} (part : Db → B)
        → ((id : ℕ) (to : UnitStatus) (actor : ActorType) (u : UnitRow) (db : Db)
            → part (moved_db id to actor u db) ≡ part db)
        → (c : Bool) (from to : ℕ) (db db' : Db) → when c (move_units from to) db ≡ ok (tt, db')
        → part db' ≡ part db
    kept part h c from to db db' e =
        ap (λ (r : Result (Unit {0} × Db)). part (rows_after db r)) (sym e)
        ∙ when-Keeps part c (move_units from to) (move_units-Keeps part h from to) db
