-- ===== src/Cancellations/Release.antt =====
-- The end of `cancel` in apps/api/src/postsales/cancellation.service.ts: the unit of the booking goes
-- back to AVAILABLE.
use openestate.Base.{
  ℕ, ◌≡◌, refl, sym, ap, ◌∙◌, arith, true, false, Option, none, some, if◌then◌else◌, ok, err,
  bad_request, Bool-cases, inl, inr,
}
use openestate.Inventory.{
  UnitStatus, ActorType, available, registered, system, same_status, is_valid_transition,
}
use openestate.Database.{UnitRow, Db, Tx, pure, ◌>>=◌, ◌>>◌}
use openestate.Ledger.Moves.{Keeps, >>=-Keeps, Result-cases, bind_ok, bind_err}
use openestate.Units.{find_unit, transition}
use openestate.Units.Moves.{moved_db}
use openestate.Units.Frame.{transition-Keeps, transition_refused, moved_unit}
use openestate.Cancellations.{release_unit}

-- The transition to CANCELLED, unless the unit is there.
abbrev leave : ℕ → UnitRow → Tx UnitStatus
leave id u =
    if same_status u.status UnitStatus.cancelled
    then pure UnitStatus.cancelled
    else transition id UnitStatus.cancelled system true

abbrev free : ℕ → Tx (Unit {0})
free id = transition id available system true >> pure tt

module _ {B : Type 0} (part : Db → B)
    (h : (id : ℕ) (to : UnitStatus) (actor : ActorType) (u : UnitRow) (db : Db)
      → part (moved_db id to actor u db) ≡ part db) where
  leave-Keeps : (id : ℕ) (u : UnitRow) → Keeps part (leave id u)
  leave-Keeps id u db = elim (Bool-cases (same_status u.status UnitStatus.cancelled)) [
    | inl c ↦ rw c
    | inr c ↦ rw c (transition-Keeps part h id UnitStatus.cancelled system true db)
  ]

  free-Keeps : (id : ℕ) → Keeps part (free id)
  free-Keeps id =
      >>=-Keeps part (transition id available system true) (λ _. pure tt)
        (transition-Keeps part h id available system true) (λ _ db. refl)

  -- A release touches what a transition touches.
  pub release_unit-Keeps : (id : ℕ) (found : Option UnitRow) → Keeps part (release_unit id found)
  unfolding release_unit
  release_unit-Keeps id none db = refl
  release_unit-Keeps id (some u) db = elim (Bool-cases (same_status u.status available)) [
    | inl c ↦ rw c
    | inr c ↦
        rw c (>>=-Keeps part (leave id u) (λ _. free id) (leave-Keeps id u) (λ _. free-Keeps id) db)
  ]

same_status_eq : (s t : UnitStatus) → same_status s t ≡ true → s ≡ t
same_status_eq s t h = ground arith

leave_unit :
    (id : ℕ) (u : UnitRow) (from : UnitStatus) (db db1 : Db)
    → leave id u db ≡ ok (from, db1)
    → find_unit id db ≡ some u
    → (t : UnitStatus) × (find_unit id db1 ≡ some (record u { status = t }))
leave_unit id u from db db1 h e = elim (Bool-cases (same_status u.status UnitStatus.cancelled)) [
  | inl c ↦ let stayed : db1 ≡ db = ground (arith, h, c) in (u.status, rw stayed e)
  | inr c ↦ (
    UnitStatus.cancelled,
    moved_unit id UnitStatus.cancelled from system true db db1 u (rw c at h) e,
  )
]

free_unit :
    (id : ℕ) (u : UnitRow) (t : UnitStatus) (db db' : Db)
    → free id db ≡ ok (tt, db')
    → find_unit id db ≡ some (record u { status = t })
    → find_unit id db' ≡ some (record u { status = available })
free_unit id u t db db' h e = elim (Result-cases (transition id available system true db)) [
  | inr (x, f) ↦ ground (arith, h, f)
  | inl (from, db1, f) ↦
      let same : db' ≡ db1 = ground (arith, h, f) in
      rw same (moved_unit id available from system true db db1 (record u { status = t }) f e)
]

-- A unit that is not AVAILABLE leaves its status and is freed.
by_leave :
    (id : ℕ) (u : UnitRow) (db : Db)
    → same_status u.status available ≡ false
    → release_unit id (some u) db ≡ (leave id u >>= λ _. free id) db
unfolding release_unit
by_leave id u db c = rw c

-- After a release that returns, the unit is AVAILABLE.
pub release_unit_frees :
    (id : ℕ) (u : UnitRow) (db db' : Db)
    → release_unit id (some u) db ≡ ok (tt, db')
    → find_unit id db ≡ some u
    → find_unit id db' ≡ some (record u { status = available })
unfolding release_unit
release_unit_frees id u db db' h e = elim (Bool-cases (same_status u.status available)) [
  | inl c ↦
      let stayed : db' ≡ db = ground (arith, h, c) in
      rw stayed (
        e
        ∙ ap (λ (s : UnitStatus). some (record u { status = s }))
            (same_status_eq u.status available c))
  | inr c ↦ elim (Result-cases (leave id u db)) [
    | inr (x, f) ↦
        let failed : release_unit id (some u) db ≡ err x =
          by_leave id u db c ∙ bind_err (leave id u) (λ _. free id) db f in
        cc
    | inl (from, db1, f) ↦
        let (t, moved) = leave_unit id u from db db1 f e in
        let freed : free id db1 ≡ ok (tt, db') =
          sym (bind_ok (leave id u) (λ _. free id) db f) ∙ sym (by_leave id u db c) ∙ h in
        free_unit id u t db1 db' freed moved
  ]
]

-- A unit that is REGISTERED cannot be released.
pub release_unit_registered :
    (id : ℕ) (u : UnitRow) (db : Db)
    → find_unit id db ≡ some u
    → u.status ≡ registered
    → release_unit id (some u) db ≡ err bad_request
unfolding release_unit is_valid_transition
release_unit_registered id u db e r =
    let refused =
      transition_refused id UnitStatus.cancelled db u e
        (ap (λ (s : UnitStatus). is_valid_transition s UnitStatus.cancelled) r) in
    let stuck : leave id u db ≡ err bad_request = rw r refused in
    let taken : same_status u.status available ≡ false =
      ap (λ (s : UnitStatus). same_status s available) r in
    by_leave id u db taken ∙ bind_err (leave id u) (λ _. free id) db stuck
