-- ===== src/Cancellations/Settlement.antt =====
-- `cancel` of apps/api/src/postsales/cancellation.service.ts: the settlement it posts, and
-- the rows it has written before the unit is released.
use openestate.Base.{
  ℕ, ◌≡◌, refl, ◌∙◌, arith, Bool, true, Option, none, some, List, [], ◌∷◌, ◌++◌, ◌==◌, ==_iff,
  if◌then◌else◌, ok, Bool-cases, Option-cases, inl, inr,
}
use openestate.Base.Int.{ℤ, neg, ◌-ℤ◌, int_laws}
use openestate.Database.{Booking, LedgerEntryType, Db, pure, ◌>>=◌}
use openestate.Ledger.{balance_of, balance_in_tx, EntryInput}
use openestate.Ledger.Balance.{balance_of-append, post_lem, after_rows, rows_from}
use openestate.Ledger.Moves.{ReadsOnly}
use openestate.Refunds.{find_booking, plain_entry}
use openestate.Units.{find_unit}
use openestate.Cancellations.{
  CancellationRequest, is_cancellable, net_received, find_cancellation_rule, deduction_for,
  refundable_of, set_booking_status, closed_status, release_unit, settle, cancel,
}

-- The two entries of a settlement.
abbrev pub settlement_entries : ℕ → ℤ → ℤ → ℕ → Db → List EntryInput
settlement_entries id deduction refundable now db =
    plain_entry id LedgerEntryType.cancellation_deduction deduction now
    ∷ plain_entry id LedgerEntryType.cancellation_settlement
        ((neg refundable -ℤ balance_of id db.ledger) -ℤ deduction) now
    ∷ []

settle_lem :
    (id : ℕ) (deduction refundable : ℤ) (now : ℕ) (db : Db)
    → settle id deduction refundable now db
      ≡ ok (tt, after_rows (settlement_entries id deduction refundable now db) db)
unfolding settle balance_in_tx
settle_lem id deduction refundable now db =
    rw (post_lem (settlement_entries id deduction refundable now db) db, ◌>>=◌)

-- The balance after a settlement is minus the refundable amount, whatever it was before.
pub balance_of-settled :
    (b id : ℕ) (deduction refundable : ℤ) (now : ℕ) (db : Db)
    → balance_of b (after_rows (settlement_entries id deduction refundable now db) db).ledger
      ≡ (if id == b then neg refundable else balance_of b db.ledger)
balance_of-settled b id deduction refundable now db =
    balance_of-append b db.ledger
      (rows_from db.next_id (settlement_entries id deduction refundable now db))
    ∙ elim (Bool-cases (id == b)) [
      | inl c ↦ let same : id ≡ b = (==_iff id b).0 c in rw (c, same) (omega int_laws)
      | inr c ↦ rw c (omega int_laws)
    ]

pub deduction_for-ReadsOnly :
    (rule_id : Option ℕ) (booking : Booking) → ReadsOnly (deduction_for rule_id booking)
deduction_for-ReadsOnly none booking db = refl
deduction_for-ReadsOnly (some id) booking db = elim (Option-cases (find_cancellation_rule id db)) [
  | inl e ↦ ground (arith, e)
  | inr (rule, e) ↦ ground (arith, e)
]

-- The rows before the unit is released.
abbrev pub closed_db : ℕ → Bool → ℤ → ℤ → ℕ → Db → Db
closed_db id surrender deduction refundable now db =
    let settled = after_rows (settlement_entries id deduction refundable now db) db in
    record settled {
      bookings = (set_booking_status id (closed_status surrender) settled).bookings;
      cancellations =
          db.cancellations
          ++ record { booking_id = id; deduction_paise = deduction; refundable_paise = refundable }
            ∷ [];
    }

-- A cancellation whose checks pass comes down to the release of the unit.
pub cancel_by :
    (id : ℕ) (dto : CancellationRequest) (now : ℕ) (db : Db) (booking : Booking) (deduction : ℤ)
    → find_booking id db ≡ some booking
    → is_cancellable booking.status ≡ true
    → deduction_for dto.cancellation_rule_id booking db ≡ ok (deduction, db)
    → let refundable = refundable_of (net_received id db) deduction in
      let closed = closed_db id dto.is_surrender deduction refundable now db in
      cancel id dto now db
      ≡ (release_unit booking.unit_id (find_unit booking.unit_id closed) >>= λ _. pure (record {
        booking_id = id;
        deduction_paise = deduction;
        refundable_paise = refundable;
      }))
          closed
unfolding cancel
cancel_by id dto now db booking deduction e q d =
    rw (
      e,
      ◌>>=◌,
      q,
      d,
      settle_lem id deduction (refundable_of (net_received id db) deduction) now db,
    )
