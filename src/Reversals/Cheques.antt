-- ===== src/Reversals/Cheques.antt =====
-- `recordChequeEvent` of apps/api/src/postsales/receipt.service.ts: the statuses of a cheque, and the
-- bounce that takes its receipt back.
use openestate.Base.{
  ℕ, ◌≡◌, refl, arith, Bool, true, false, some, [], ◌∷◌, ◌++◌, ◌==◌, if◌then◌else◌, ok, Bool-cases,
  Option-cases, inl, inr,
}
use openestate.Base.Int.{ℤ, pos, neg, ◌+ℤ◌, ltb_ℤ, int_laws}
use openestate.Database.{
  LedgerEntryType, Receipt, Db, Tx, ClearanceStatus, cheque_like, is_settled, is_bounced, when,
}
use openestate.Ledger.{balance_of}
use openestate.Refunds.{bounce_charge_of}
use openestate.Reversals.Entries.{
  live_amount, reverse_receipt_ledger-returns, reverse_receipt_ledger-Keeps,
}
use openestate.Reversals.Undo.{updated_receipt}
use openestate.Reversals.{
  find_receipt, reverse_receipt_ledger, update_receipt, record_cheque_event, with_clearance,
}

-- The rows once the event and the status are written.
abbrev pub cheque_db : ℕ → ClearanceStatus → ℕ → Db → Db
cheque_db id status date db = update_receipt id (with_clearance status) (record db {
  cheque_events =
      db.cheque_events ++ record { receipt_id = id; status = status; event_date = date } ∷ [];
})

abbrev bounce : Receipt → ℕ → Db → Tx (Unit {0})
bounce r date db =
    reverse_receipt_ledger r LedgerEntryType.bounce_reversal date (bounce_charge_of db.config)

record_cheque_event_by :
    (id date : ℕ) (status : ClearanceStatus) (db db1 : Db) (r : Receipt)
    → find_receipt id db ≡ some r
    → cheque_like r.mode ≡ true
    → is_settled r.clearance_status ≡ false
    → when (is_bounced status) (bounce r date db) (cheque_db id status date db) ≡ ok (tt, db1)
    → record_cheque_event id status date db ≡ ok (tt, db1)
unfolding record_cheque_event
record_cheque_event_by id date status db db1 r e m c h = ground (arith, e, m, c, h)

record_cheque_event_inv :
    (id date : ℕ) (status : ClearanceStatus) (db db' : Db)
    → record_cheque_event id status date db ≡ ok (tt, db')
    → (r : Receipt) × (find_receipt id db ≡ some r)
      × (cheque_like r.mode ≡ true)
      × (is_settled r.clearance_status ≡ false)
unfolding record_cheque_event
record_cheque_event_inv id date status db db' h = elim (Option-cases (find_receipt id db)) [
  | inl e ↦ ground (arith, e)
  | inr (r, e) ↦ elim (Bool-cases (cheque_like r.mode)) [
    | inr m ↦ ground (arith, e, m)
    | inl m ↦ elim (Bool-cases (is_settled r.clearance_status)) [
      | inl c ↦ ground (arith, e, m, c)
      | inr c ↦ (r, e, m, c)
    ]
  ]
]

-- What a bounce adds to the balance of the receipt's booking.
abbrev pub bounce_amount : ClearanceStatus → Receipt → Db → ℤ
bounce_amount status r db =
    if is_bounced status
    then neg (live_amount r.id db.ledger)
      +ℤ (if ltb_ℤ (pos 0) (bounce_charge_of db.config) then bounce_charge_of db.config else pos 0)
    else pos 0

record_cheque_event_step :
    (b id date : ℕ) (status : ClearanceStatus) (db : Db) (r : Receipt)
    → find_receipt id db ≡ some r
    → cheque_like r.mode ≡ true
    → is_settled r.clearance_status ≡ false
    → (db' : Db) × (record_cheque_event id status date db ≡ ok (tt, db'))
      × (balance_of b db'.ledger
          ≡ balance_of b db.ledger
            +ℤ (if r.booking_id == b then bounce_amount status r db else pos 0))
      × (find_receipt id db' ≡ some (with_clearance status r))
record_cheque_event_step b id date status db r e m c =
    let db0 = cheque_db id status date db in
    let found : find_receipt id db0 ≡ some (with_clearance status r) =
      updated_receipt id (with_clearance status) db r (λ x. refl) e in
    elim (Bool-cases (is_bounced status)) [
      | inr q ↦ (
        db0,
        record_cheque_event_by id date status db db0 r e m c (rw q),
        rw q (quiet (r.booking_id == b) (balance_of b db.ledger)),
        found,
      )
      | inl q ↦
          let (db1, e1, m1) =
            reverse_receipt_ledger-returns b r LedgerEntryType.bounce_reversal date
              (bounce_charge_of db.config) db0 in
          let kept : db1.receipts ≡ db0.receipts = cc (
            reverse_receipt_ledger-Keeps r LedgerEntryType.bounce_reversal date
              (bounce_charge_of db.config) db0) in
          (
            db1,
            record_cheque_event_by id date status db db1 r e m c (rw q e1),
            rw q m1,
            rw kept found,
          )
    ]
  where
    quiet : (k : Bool) (x : ℤ) → x ≡ x +ℤ (if k then pos 0 else pos 0)
    quiet true x = omega int_laws
    quiet false x = omega int_laws

-- A cheque event that returns was of a receipt by cheque or draft that is neither CLEARED nor
-- BOUNCED. The receipt gets the new status. A bounce marks it as reversed, takes back from the
-- balance of its booking the amount of its own entries that nothing has reversed, and adds the
-- bounce charge; any other event moves no balance, and no event moves another booking's.
pub record_cheque_event_effect :
    (id date : ℕ) (status : ClearanceStatus) (db db' : Db)
    → record_cheque_event id status date db ≡ ok (tt, db')
    → (r : Receipt) × (find_receipt id db ≡ some r)
      × (cheque_like r.mode ≡ true)
      × (is_settled r.clearance_status ≡ false)
      × (find_receipt id db' ≡ some (with_clearance status r))
      × ((b : ℕ)
          → balance_of b db'.ledger
            ≡ balance_of b db.ledger
              +ℤ (if r.booking_id == b then bounce_amount status r db else pos 0))
record_cheque_event_effect id date status db db' h =
    let (r, e, m, c) = record_cheque_event_inv id date status db db' h in
    let (db1, e1, _, found) = record_cheque_event_step 0 id date status db r e m c in
    let same : db' ≡ db1 = cc in
    (
      r,
      e,
      m,
      c,
      rw same found,
      λ b.
          let (db2, e2, moved, _) = record_cheque_event_step b id date status db r e m c in
          let same2 : db' ≡ db2 = cc in rw same2 moved,
    )
