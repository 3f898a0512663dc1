-- ===== src/Transfers/Opening.antt =====
-- The middle of `transfer` in apps/api/src/postsales/transfer.service.ts: the old ledger is closed and
-- the new booking opened.
use openestate.Base.{
  ℕ, suc, ◌≡◌, ap, ◌∙◌, Bool, true, false, [], ◌∷◌, ◌++◌, ◌==◌, if◌then◌else◌, ok, find?,
  Bool-cases, inl, inr,
}
use openestate.Base.Int.{ℤ, pos, neg, ◌+ℤ◌, ltb_ℤ, int_laws}
use openestate.Cancellations.{set_booking_status}
use openestate.Database.{Booking, BookingStatus, LedgerEntryType, booking_kind, Db, ◌>>=◌}
use openestate.Dates.{financial_year_label}
use openestate.Ledger.{balance_of, post_one, entry_row, append_entry}
use openestate.Ledger.Balance.{balance_of-snoc}
use openestate.Refunds.{plain_entry}
use openestate.Sequences.{FyNumber, allocate_for_fy, upsert, returned, has_key}
use openestate.Transfers.{Destination, new_booking, post_fee, open_booking}

abbrev pub number_of : ℕ → ℕ → Db → FyNumber
number_of month now db =
    let label = financial_year_label now month in
    record {
      seq = returned (find? (has_key booking_kind label) (upsert booking_kind label db.sequences));
      fy_label = label;
    }

-- The rows before the fee; the new booking has the id `suc db.next_id`.
abbrev pub opened_db : ℕ → Booking → Destination → ℤ → ℕ → ℕ → Db → Db
opened_db from_id from to carry month now db =
    let to_id = suc db.next_id in
    record db {
      next_id = suc (suc to_id);
      sequences = upsert booking_kind (financial_year_label now month) db.sequences;
      bookings =
          (set_booking_status from_id BookingStatus.transferred_out db).bookings
          ++ new_booking to_id from to (number_of month now db) now ∷ [];
      ledger =
          (db.ledger
            ++ entry_row db.next_id
                (plain_entry from_id LedgerEntryType.transfer_carry_out (neg carry) now)
              ∷ [])
          ++ entry_row (suc to_id) (plain_entry to_id LedgerEntryType.transfer_carry_in carry now)
            ∷ [];
    }

open_booking_lem :
    (from_id : ℕ) (from : Booking) (to : Destination) (carry fee : ℤ) (month now : ℕ) (db db' : Db)
    → post_fee (suc db.next_id) fee now (opened_db from_id from to carry month now db)
      ≡ ok (tt, db')
    → open_booking from_id from to carry fee month now db ≡ ok (suc db.next_id, db')
unfolding open_booking post_one allocate_for_fy
open_booking_lem from_id from to carry fee month now db db' h = rw (◌>>=◌, h)

-- The fee that is charged.
abbrev pub charged : ℤ → ℤ
charged fee = if ltb_ℤ (pos 0) fee then fee else pos 0

abbrev pub fee_db : ℕ → ℤ → ℕ → Db → Db
fee_db id fee now db =
    if ltb_ℤ (pos 0) fee
    then append_entry (entry_row db.next_id (plain_entry id LedgerEntryType.transfer_fee fee now))
        (record db { next_id = suc db.next_id })
    else db

post_fee_lem :
    (id : ℕ) (fee : ℤ) (now : ℕ) (db : Db) → post_fee id fee now db ≡ ok (tt, fee_db id fee now db)
unfolding post_fee post_one
post_fee_lem id fee now db = elim (Bool-cases (ltb_ℤ (pos 0) fee)) [ inl c ↦ rw c | inr c ↦ rw c ]

-- What the fee's entry leaves alone.
fee_db-bookings :
    (id : ℕ) (fee : ℤ) (now : ℕ) (db : Db) → (fee_db id fee now db).bookings ≡ db.bookings
fee_db-bookings id fee now db = elim (Bool-cases (ltb_ℤ (pos 0) fee)) [
  | inl c ↦ rw c
  | inr c ↦ rw c
]

balance_of-fee :
    (b id : ℕ) (fee : ℤ) (now : ℕ) (db : Db)
    → balance_of b (fee_db id fee now db).ledger
      ≡ balance_of b db.ledger +ℤ (if id == b then charged fee else pos 0)
balance_of-fee b id fee now db = elim (Bool-cases (ltb_ℤ (pos 0) fee)) [
  | inl c ↦ rw c (
      balance_of-snoc b db.ledger
        (entry_row db.next_id (plain_entry id LedgerEntryType.transfer_fee fee now)))
  | inr c ↦ rw c (nothing (id == b) (balance_of b db.ledger))
]
  where
    nothing : (k : Bool) (x : ℤ) → x ≡ x +ℤ (if k then pos 0 else pos 0)
    nothing true x = omega int_laws
    nothing false x = omega int_laws

balance_of-opened :
    (b from_id : ℕ) (from : Booking) (to : Destination) (carry : ℤ) (month now : ℕ) (db : Db)
    → balance_of b (opened_db from_id from to carry month now db).ledger
      ≡ (balance_of b db.ledger +ℤ (if from_id == b then neg carry else pos 0))
        +ℤ (if suc db.next_id == b then carry else pos 0)
balance_of-opened b from_id from to carry month now db =
    let out =
      entry_row db.next_id
        (plain_entry from_id LedgerEntryType.transfer_carry_out (neg carry) now) in
    balance_of-snoc b (db.ledger ++ out ∷ []) (
      entry_row (suc (suc db.next_id))
        (plain_entry (suc db.next_id) LedgerEntryType.transfer_carry_in carry now))
    ∙ ap (λ x. x +ℤ (if suc db.next_id == b then carry else pos 0))
        (balance_of-snoc b db.ledger out)

-- Opening the new booking always returns.
pub open_booking_returns :
    (from_id : ℕ) (from : Booking) (to : Destination) (carry fee : ℤ) (month now : ℕ) (db : Db)
    → (db' : Db) × (open_booking from_id from to carry fee month now db ≡ ok (suc db.next_id, db'))
      × (db'.bookings ≡ (opened_db from_id from to carry month now db).bookings)
      × ((b : ℕ)
          → balance_of b db'.ledger
            ≡ ((balance_of b db.ledger +ℤ (if from_id == b then neg carry else pos 0))
                +ℤ (if suc db.next_id == b then carry else pos 0))
              +ℤ (if suc db.next_id == b then charged fee else pos 0))
open_booking_returns from_id from to carry fee month now db =
    let opened = opened_db from_id from to carry month now db in
    let to_id = suc db.next_id in
    (
      fee_db to_id fee now opened,
      open_booking_lem from_id from to carry fee month now db (fee_db to_id fee now opened)
          (post_fee_lem to_id fee now opened),
      fee_db-bookings to_id fee now opened,
      λ b.
          balance_of-fee b to_id fee now opened
          ∙ ap (λ x. x +ℤ (if to_id == b then charged fee else pos 0))
              (balance_of-opened b from_id from to carry month now db),
    )
