-- ===== src/Units/Moves.antt =====
-- `transition` of apps/api/src/inventory/unit-state-machine.service.ts: what a successful call did,
-- and what users can do to a unit by any number of calls.
use openestate.Base.{
  ℕ, ◌≡◌, refl, sym, ap, ◌∙◌, arith, Bool, true, false, not, ◌&&◌, some, [], ◌∷◌, ◌++◌, ◌==◌,
  ==_iff, if◌then◌else◌, ok, find?-update_where, find?-update_disjoint, Bool-cases, Option-cases,
  inl, inr,
}
use openestate.Inventory.{
  UnitStatus, ActorType, user, booked, allotted, registered, is_valid_transition,
  is_system_only_target, includes, reason_required_statuses,
}
use openestate.Database.{UnitRow, Db}
use openestate.Units.{find_unit, is_user, set_unit_status, add_status_change, transition}

abbrev pub moved_db : ℕ → UnitStatus → ActorType → UnitRow → Db → Db
moved_db id to actor u db =
    add_status_change
      (record { unit_id = id; from_status = u.status; to_status = to; actor_type = actor })
      (set_unit_status id to db)

-- What the checks have established, and the rows that were written.
pub transition_inv :
    (id : ℕ) (to from : UnitStatus) (actor : ActorType) (reason : Bool) (db db' : Db)
    → transition id to actor reason db ≡ ok (from, db')
    → (u : UnitRow) × (find_unit id db ≡ some u)
      × (from ≡ u.status)
      × (is_valid_transition from to ≡ true)
      × ((is_user actor && is_system_only_target to) ≡ false)
      × ((includes reason_required_statuses to && not reason) ≡ false)
      × (db' ≡ moved_db id to actor u db)
unfolding transition
transition_inv id to from actor reason db db' h = elim (Option-cases (find_unit id db)) [
  | inl e ↦ ground (arith, e)
  | inr (u, e) ↦ elim (Bool-cases (is_valid_transition u.status to)) [
    | inr v ↦ ground (arith, e, v)
    | inl v ↦ ground (arith, e, v)
  ]
]

ids_apart : (id j : ℕ) → (j == id) ≡ false → (x : ℕ) → (x == id) ≡ true → (x == j) ≡ false
ids_apart id j h x e = ground arith

find_unit-moved :
    (id : ℕ) (to : UnitStatus) (actor : ActorType) (u : UnitRow) (db : Db)
    → find_unit id db ≡ some u
    → (j : ℕ)
    → find_unit j (moved_db id to actor u db)
      ≡ (if j == id then some (record u { status = to }) else find_unit j db)
find_unit-moved id to actor u db e j = elim (Bool-cases (j == id)) [
  | inl c ↦
      let same : j ≡ id = (==_iff j id).0 c in
      rw (c, same)
        (find?-update_where (λ (x : UnitRow). x.id == id)
          (λ (x : UnitRow). record x { status = to }) (λ x. refl) db.units e)
  | inr c ↦ rw c (
      find?-update_disjoint (λ (x : UnitRow). x.id == j) (λ (x : UnitRow). x.id == id)
        (λ (x : UnitRow). record x { status = to })
        (λ x q. (ids_apart id j c x.id q, ids_apart id j c x.id q)) db.units)
]

-- A transition that returns moved its unit along the table of transitions, did so by the system
-- where the target is system-only and with a reason where one is required, changed no other
-- unit, and recorded the move as the last row of the history.
pub transition_effect :
    (id : ℕ) (to from : UnitStatus) (actor : ActorType) (reason : Bool) (db db' : Db)
    → transition id to actor reason db ≡ ok (from, db')
    → (u : UnitRow) × (find_unit id db ≡ some u)
      × (from ≡ u.status)
      × (is_valid_transition from to ≡ true)
      × ((is_user actor && is_system_only_target to) ≡ false)
      × ((includes reason_required_statuses to && not reason) ≡ false)
      × ((j : ℕ)
          → find_unit j db' ≡ (if j == id then some (record u { status = to }) else find_unit j db))
      × (db'.unit_status_changes
          ≡ db.unit_status_changes
            ++ record { unit_id = id; from_status = from; to_status = to; actor_type = actor } ∷ [])
transition_effect id to from actor reason db db' h =
    let (u, e, was, valid, allowed, reasoned, made) =
      transition_inv id to from actor reason db db' h in
    (
      u,
      e,
      was,
      valid,
      allowed,
      reasoned,
      λ j. rw made (find_unit-moved id to actor u db e j),
      rw (made, was),
    )

-- Any number of transitions by users, one after another.
pub data UserMoves : Db → Db → Type 0 where
  stay : {db : Db} → UserMoves db db
  move :
      {db db1 db2 : Db} (id : ℕ) (to from : UnitStatus) (reason : Bool)
      → transition id to user reason db ≡ ok (from, db1)
      → UserMoves db1 db2
      → UserMoves db db2

-- The statuses of a unit that a booking holds.
abbrev pub is_booked : UnitStatus → Bool
is_booked booked = true
is_booked allotted = true
is_booked registered = true
is_booked _ = false

user_stays_out :
    (from to : UnitStatus)
    → is_valid_transition from to ≡ true
    → is_system_only_target to ≡ false
    → is_booked from ≡ false
unfolding is_valid_transition is_system_only_target
user_stays_out from to v s = ground arith

-- One transition by a user leaves a unit that a booking holds as it was.
booking_kept_once :
    (j id : ℕ) (to from : UnitStatus) (reason : Bool) (db db' : Db) (held_unit : UnitRow)
    → transition id to user reason db ≡ ok (from, db')
    → find_unit j db ≡ some held_unit
    → is_booked held_unit.status ≡ true
    → find_unit j db' ≡ some held_unit
booking_kept_once j id to from reason db db' v h e b =
    let (u, found, was, valid, allowed, _, unchanged, _) =
      transition_effect id to from user reason db db' h in
    elim (Bool-cases (j == id)) [
      | inr c ↦ rw (unchanged j, c) e
      | inl c ↦
          let same : j ≡ id = (==_iff j id).0 c in
          let one : some v ≡ some u = sym e ∙ ap (λ (k : ℕ). find_unit k db) same ∙ found in
          let out : is_booked from ≡ false = user_stays_out from to valid allowed in
          ground (arith, one, was, out, b)
    ]

-- Whatever transitions users make, in any number and on any units, a unit that is BOOKED,
-- ALLOTTED or REGISTERED before them is the same after them.
pub booking_kept :
    {db db' : Db} (j : ℕ) (u : UnitRow)
    → UserMoves db db'
    → find_unit j db ≡ some u
    → is_booked u.status ≡ true
    → find_unit j db' ≡ some u
booking_kept j u stay e b = e
booking_kept {db} j u (move {db1 = db1} id to from reason h rest) e b =
    booking_kept j u rest (booking_kept_once j id to from reason db db1 u h e b) b
