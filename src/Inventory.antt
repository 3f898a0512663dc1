-- ===== src/Inventory.antt =====
-- packages/shared/src/inventory.ts: the statuses of a unit and the moves between them.
use openestate.Base.{Bool, true, false, List, [], ◌∷◌, any}

pub data UnitStatus : Type 0 where
  available held blocked booked allotted registered cancelled : UnitStatus

-- `===` on statuses.
abbrev pub same_status : UnitStatus → UnitStatus → Bool
same_status available available = true
same_status held held = true
same_status blocked blocked = true
same_status booked booked = true
same_status allotted allotted = true
same_status registered registered = true
same_status cancelled cancelled = true
same_status _ _ = false

-- `statuses.includes(status)`
abbrev pub includes : List UnitStatus → UnitStatus → Bool
includes statuses status = any (same_status status) statuses

abbrev pub unit_transitions : UnitStatus → List UnitStatus
unit_transitions available = held ∷ blocked ∷ booked ∷ []
unit_transitions held = booked ∷ available ∷ []
unit_transitions blocked = available ∷ []
unit_transitions booked = allotted ∷ cancelled ∷ []
unit_transitions allotted = registered ∷ cancelled ∷ []
unit_transitions registered = []
unit_transitions cancelled = available ∷ []

pub data ActorType : Type 0 where
  user system : ActorType

unfoldable pub is_valid_transition : UnitStatus → UnitStatus → Bool
is_valid_transition from to = includes (unit_transitions from) to

abbrev pub reason_required_statuses : List UnitStatus
reason_required_statuses = blocked ∷ cancelled ∷ []

abbrev pub system_only_target_statuses : List UnitStatus
system_only_target_statuses = booked ∷ allotted ∷ registered ∷ cancelled ∷ []

unfoldable pub is_system_only_target : UnitStatus → Bool
is_system_only_target to = includes system_only_target_statuses to
