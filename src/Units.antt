-- ===== src/Units.antt =====
-- apps/api/src/inventory/unit-state-machine.service.ts: the one way to change the status of a unit,
-- which checks the move and records it.
pub mod Moves
pub mod Frame
mod Tests
use openestate.Base.{
  ℕ, Bool, true, false, not, ◌&&◌, Option, none, some, List, [], ◌∷◌, ◌++◌, ◌==◌, find?,
  update_where, not_found, bad_request,
}
use openestate.Inventory.{
  UnitStatus, ActorType, user, system, includes, is_valid_transition, reason_required_statuses,
  is_system_only_target,
}
use openestate.Database.{
  UnitRow, UnitStatusChange, Db, Tx, pure, gets, or_fail, modify, fail_if, ◌>>=◌, ◌>>◌,
}

abbrev pub find_unit : ℕ → Db → Option UnitRow
find_unit id db = find? (λ u. u.id == id) db.units

abbrev pub is_user : ActorType → Bool
is_user user = true
is_user system = false

abbrev pub set_unit_status : ℕ → UnitStatus → Db → Db
set_unit_status id status db = record db {
  units = update_where (λ u. u.id == id) (λ u. record u { status = status }) db.units;
}

-- `tx.unitStatusChange.create`
abbrev pub add_status_change : UnitStatusChange → Db → Db
add_status_change change db = record db {
  unit_status_changes = db.unit_status_changes ++ change ∷ [];
}

-- `has_reason` is whether a reason is given that is not empty. The result is the status before.
unfoldable pub transition : ℕ → UnitStatus → ActorType → Bool → Tx UnitStatus
unfolding is_valid_transition is_system_only_target
transition unit_id to_status actor_type has_reason = do
  fail_if (includes reason_required_statuses to_status && not has_reason) bad_request
  fail_if (is_user actor_type && is_system_only_target to_status) bad_request
  found ← gets (find_unit unit_id)
  unit ← or_fail found not_found
  fail_if (not (is_valid_transition unit.status to_status)) bad_request
  modify (set_unit_status unit_id to_status)
  modify (
      add_status_change (record {
        unit_id = unit_id;
        from_status = unit.status;
        to_status = to_status;
        actor_type = actor_type;
      }))
  pure unit.status
