-- ===== src/Units/Tests.antt =====
-- The theorems on the unit state machine at unit 3, which a booking holds, and unit 4, which is free.
use openestate.Base.{
  ℕ, ◌≡◌, refl, true, false, not, ◌&&◌, some, [], ◌∷◌, ◌++◌, ◌==◌, if◌then◌else◌, ok, err,
  bad_request,
}
use openestate.Inventory.{
  UnitStatus, available, held, booked, user, system, is_valid_transition, is_system_only_target,
  includes, reason_required_statuses,
}
use openestate.Database.{UnitRow, Db}
use openestate.Units.{find_unit, is_user, transition}
use openestate.Units.Moves.{moved_db, transition_effect, stay, move, booking_kept}
use openestate.Samples.{booked_db, unit_3}

abbrev unit_4 : UnitRow
unit_4 = record { id = 4; status = available }

abbrev two_units : Db
two_units = record booked_db { units = unit_3 ∷ unit_4 ∷ [] }

abbrev held_db : Db
held_db = moved_db 4 held user unit_4 two_units

-- A user puts unit 4 on hold.
holds : transition 4 held user false two_units ≡ ok (available, held_db)
unfolding transition
holds = refl

-- A user cannot book it, and the system cannot cancel without a reason.
refusals :
    (transition 4 booked user true two_units ≡ err bad_request)
    × (transition 3 UnitStatus.cancelled system false two_units ≡ err bad_request)
unfolding transition
refusals = (refl, refl)

transition_effect_example :
    (u : UnitRow) × (find_unit 4 two_units ≡ some u)
    × (available ≡ u.status)
    × (is_valid_transition available held ≡ true)
    × ((is_user user && is_system_only_target held) ≡ false)
    × ((includes reason_required_statuses held && not false) ≡ false)
    × ((j : ℕ)
        → find_unit j held_db
          ≡ (if j == 4 then some (record u { status = held }) else find_unit j two_units))
    × (held_db.unit_status_changes
        ≡ two_units.unit_status_changes
          ++ record { unit_id = 4; from_status = available; to_status = held; actor_type = user }
            ∷ [])
transition_effect_example = transition_effect 4 held available user false two_units held_db holds

booking_kept_example : find_unit 3 held_db ≡ some unit_3
booking_kept_example = booking_kept 3 unit_3 (move 4 held available false holds stay) refl refl
