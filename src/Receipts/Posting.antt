-- ===== src/Receipts/Posting.antt =====
-- What `createReceiptTx` of apps/api/src/postsales/receipt.service.ts does to the balances: its
-- writes always return, and post what the request says.
use openestate.Base.{ℕ, ◌≡◌, refl, some, ◌==◌, if◌then◌else◌, ok, arith, find?, inl, inr}
use openestate.Base.Int.{pos, neg, ◌+ℤ◌, ltb_ℤ, ◌≤ℤ◌, int_laws}
use openestate.Database.{Booking, Receipt, Db, ◌>>=◌, receipt_kind}
use openestate.Ledger.{balance_of}
use openestate.Ledger.Moves.{Moves, Result-cases}
use openestate.Refunds.{find_booking}
use openestate.Dates.{financial_year_label}
use openestate.Sequences.{allocate_for_fy, upsert, returned, has_key}
use openestate.Receipts.Checks.{check_receipt_returned}
use openestate.Receipts.{
  CreateReceipt, alloc_total, check_receipt, create_receipt, fy_start_month_of,
}
use openestate.Receipts.Writes.{receipt_adds, write_receipt-Moves}

allocate_for_fy-Moves :
    (b date month : ℕ) → Moves b (pos 0) (allocate_for_fy receipt_kind date month)
unfolding allocate_for_fy
allocate_for_fy-Moves b date month db =
    let label = financial_year_label date month in
    let rows = upsert receipt_kind label db.sequences in
    (
      record { seq = returned (find? (has_key receipt_kind label) rows); fy_label = label },
      record db { sequences = rows },
      refl,
      omega int_laws,
    )

-- Once the checks have passed, the receipt is created, and moves the balances so.
create_receipt_step :
    (b : ℕ) (dto : CreateReceipt) (db : Db) (booking : Booking)
    → check_receipt dto db ≡ ok (booking, db)
    → (r : Receipt) × (db' : Db) × (create_receipt dto db ≡ ok (r, db'))
      × (balance_of b db'.ledger
          ≡ balance_of b db.ledger +ℤ (if dto.booking_id == b then receipt_adds dto else pos 0))
unfolding create_receipt
create_receipt_step b dto db booking e =
    let (number, db1, e1, m1) =
      allocate_for_fy-Moves b dto.receipt_date (fy_start_month_of db.config) db in
    let (r, db2, e2, m2) = write_receipt-Moves b dto number db1 in
    (r, db2, rw (e, ◌>>=◌, e1, e2), rw (m2, m1) (omega int_laws))

-- Success means that the checks passed, on the rows as they were.
pub create_receipt_checked :
    (dto : CreateReceipt) (db db' : Db) (r : Receipt)
    → create_receipt dto db ≡ ok (r, db')
    → (booking : Booking) × (check_receipt dto db ≡ ok (booking, db))
unfolding create_receipt
create_receipt_checked dto db db' r h = elim (Result-cases (check_receipt dto db)) [
  | inr (x, e) ↦ ground (arith, e)
  | inl (booking, db1, e) ↦
      let same = (check_receipt_returned dto db db1 booking e).0 in (booking, rw same at e)
]

-- A receipt that is created belongs to a booking that exists, its allocations add up to the
-- gross amount, and the withheld tax does not exceed it. The booking's balance falls by the
-- gross amount, less the withheld tax, which stays owed; every other balance is unchanged.
pub create_receipt_effect :
    (dto : CreateReceipt) (db db' : Db) (r : Receipt)
    → create_receipt dto db ≡ ok (r, db')
    → (booking : Booking) × (find_booking dto.booking_id db ≡ some booking)
      × (alloc_total dto.allocations ≡ dto.gross_amount_paise)
      × (dto.tds_deducted_paise ≤ℤ dto.gross_amount_paise)
      × ((b : ℕ)
          → balance_of b db'.ledger
            ≡ balance_of b db.ledger
              +ℤ (if dto.booking_id == b
                  then neg dto.gross_amount_paise
                    +ℤ (if ltb_ℤ (pos 0) dto.tds_deducted_paise
                        then dto.tds_deducted_paise
                        else pos 0)
                  else pos 0))
create_receipt_effect dto db db' r h =
    let (booking, checked) = create_receipt_checked dto db db' r h in
    let (_, found, total, tds) = check_receipt_returned dto db db booking checked in
    (
      booking,
      found,
      total,
      tds,
      λ b.
          let (r2, db2, e, moved) = create_receipt_step b dto db booking checked in
          let same : db' ≡ db2 = cc in rw (← total, same) moved,
    )
