-- ===== src/Units/Frame.antt =====
-- `transition` of apps/api/src/inventory/unit-state-machine.service.ts touches units and their
-- history only.
use openestate.Base.{
  ℕ, ◌≡◌, sym, ap, ◌∙◌, arith, Bool, true, false, some, if◌then◌else◌, ==_refl, ok, err,
  bad_request, inl, inr,
}
use openestate.Inventory.{UnitStatus, ActorType, system, is_valid_transition}
use openestate.Database.{UnitRow, Db}
use openestate.Ledger.Moves.{Keeps, rows_after, Result-cases}
use openestate.Units.{find_unit, transition}
use openestate.Units.Moves.{moved_db, transition_inv, transition_effect}

pub transition-Keeps :
    {B : Type 0} (part : Db → B)
    → ((id : ℕ) (to : UnitStatus) (actor : ActorType) (u : UnitRow) (db : Db)
        → part (moved_db id to actor u db) ≡ part db)
    → (id : ℕ) (to : UnitStatus) (actor : ActorType) (reason : Bool)
    → Keeps part (transition id to actor reason)
transition-Keeps part h id to actor reason db =
    elim (Result-cases (transition id to actor reason db)) [
      | inr (x, e) ↦ rw (e, rows_after)
      | inl (from, db', e) ↦
          let (u, _, _, _, _, _, made) = transition_inv id to from actor reason db db' e in
          rw (e, rows_after, made) (h id to actor u db)
    ]

-- A move that the table does not have is refused, also to the system and with a reason.
pub transition_refused :
    (id : ℕ) (to : UnitStatus) (db : Db) (u : UnitRow)
    → find_unit id db ≡ some u
    → is_valid_transition u.status to ≡ false
    → transition id to system true db ≡ err bad_request
unfolding transition
transition_refused id to db u e v = ground (arith, e, v)

-- The unit after a transition.
pub moved_unit :
    (id : ℕ) (to from : UnitStatus) (actor : ActorType) (reason : Bool) (db db' : Db) (u : UnitRow)
    → transition id to actor reason db ≡ ok (from, db')
    → find_unit id db ≡ some u
    → find_unit id db' ≡ some (record u { status = to })
moved_unit id to from actor reason db db' u h e =
    let (v, found, _, _, _, _, unchanged, _) = transition_effect id to from actor reason db db' h in
    let one : v ≡ u = ground (arith, sym found ∙ e) in
    unchanged id
    ∙ ap (λ (t : Bool). if t then some (record v { status = to }) else find_unit id db) (==_refl id)
    ∙ ap (λ (w : UnitRow). some (record w { status = to })) one
