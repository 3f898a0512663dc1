-- ===== src/Receipts/Written.antt =====
-- What `createReceiptTx` (apps/api/src/postsales/receipt.service.ts) leaves in the
-- tables of receipts and of the ledger.
use openestate.Base.{
  ℕ, suc, ◌≡◌, refl, ap, ◌∙◌, arith, Bool, true, false, List, [], ◌∷◌, ◌++◌, ok, All, find?,
  All-append, append_assoc,
}
use openestate.Base.Int.{pos, ltb_ℤ}
use openestate.Database.{
  LedgerEntry, ClearanceStatus, Booking, receipt_kind, cheque_like, Db, when, ◌>>=◌,
}
use openestate.Sequences.{FyNumber, allocate_for_fy, upsert, returned, has_key}
use openestate.Dates.{financial_year_label}
use openestate.Receipts.Entries.{
  OwnEntry, for_each-Appends, when-Appends, post_allocation-Appends, bump_sum-Appends,
  record_tds-Appends,
}
use openestate.Receipts.{
  check_receipt, create_receipt, fy_start_month_of, CreateReceipt, post_allocation, bump_sum,
  add_by_inst, record_tds, receipt_row, write_receipt, cheque_event,
}

-- The rows after the receipt's own row and its cheque event.
abbrev with_receipt : CreateReceipt → FyNumber → Db → Db
with_receipt dto number db = record db {
  next_id = suc db.next_id;
  receipts = db.receipts ++ receipt_row db.next_id dto number ∷ [];
}

cheque_event-keeps :
    (c : Bool) (id date : ℕ) (db : Db)
    → (db' : Db) × (when c (cheque_event id ClearanceStatus.received date) db ≡ ok (tt, db'))
      × (db'.receipts ≡ db.receipts)
      × (db'.next_id ≡ db.next_id)
      × (db'.ledger ≡ db.ledger)
cheque_event-keeps true id date db = (
  record db {
    cheque_events =
        db.cheque_events
        ++ record { receipt_id = id; status = ClearanceStatus.received; event_date = date } ∷ [];
  },
  refl,
  refl,
  refl,
  refl,
)
cheque_event-keeps false id date db = (db, refl, refl, refl, refl)

-- What the writes of a receipt leave: its row, and its own entries behind the old ones.
write_receipt_entries :
    (dto : CreateReceipt) (number : FyNumber) (db : Db)
    → (db' : Db) × (write_receipt dto number db ≡ ok (receipt_row db.next_id dto number, db'))
      × (db'.receipts ≡ db.receipts ++ receipt_row db.next_id dto number ∷ [])
      × (rows : List LedgerEntry) × (db'.ledger ≡ db.ledger ++ rows)
      × All (OwnEntry dto.booking_id db.next_id) rows
unfolding write_receipt
write_receipt_entries dto number db =
    let id = db.next_id in
    let b = dto.booking_id in
    let (db1, e1, k1, n1, g1) =
      cheque_event-keeps (cheque_like dto.mode) id dto.receipt_date (with_receipt dto number db) in
    let (db2, e2, k2, l2, rows2, a2, own2) =
      for_each-Appends b id (post_allocation b id dto.receipt_date) dto.allocations
        (post_allocation-Appends b id dto.receipt_date) db1 (omega (arith, n1)) in
    let (db3, e3, k3, l3, rows3, a3, own3) =
      for_each-Appends b id bump_sum (add_by_inst dto.allocations) (bump_sum-Appends b id) db2 l2 in
    let (db4, e4, k4, l4, rows4, a4, own4) =
      when-Appends b id (ltb_ℤ (pos 0) dto.tds_deducted_paise) (record_tds dto id)
        (record_tds-Appends b id dto refl) db3 l3 in
    (
      db4,
      rw (e1, ◌>>=◌, e2, e3, e4),
      k4 ∙ k3 ∙ k2 ∙ k1,
      (rows2 ++ rows3) ++ rows4,
      joined db.ledger rows2 rows3 rows4 (a2 ∙ ap (λ xs. xs ++ rows2) g1) a3 a4,
      All-append (OwnEntry b id) (rows2 ++ rows3) rows4
          (All-append (OwnEntry b id) rows2 rows3 own2 own3) own4,
    )
  where
    joined :
        (g rows2 rows3 rows4 : List LedgerEntry) {g2 g3 g4 : List LedgerEntry}
        → g2 ≡ g ++ rows2
        → g3 ≡ g2 ++ rows3
        → g4 ≡ g3 ++ rows4
        → g4 ≡ g ++ ((rows2 ++ rows3) ++ rows4)
    joined g rows2 rows3 rows4 a b c =
        rw (c, b, a) (rw (append_assoc g rows2 rows3, append_assoc g (rows2 ++ rows3) rows4))

-- What the creation of a receipt leaves, once its checks have passed.
pub create_receipt_entries :
    (dto : CreateReceipt) (db : Db) (booking : Booking)
    → check_receipt dto db ≡ ok (booking, db)
    → (number : FyNumber) × (db' : Db) × (create_receipt dto db
        ≡ ok (receipt_row db.next_id dto number, db'))
      × (db'.receipts ≡ db.receipts ++ receipt_row db.next_id dto number ∷ [])
      × (rows : List LedgerEntry) × (db'.ledger ≡ db.ledger ++ rows)
      × All (OwnEntry dto.booking_id db.next_id) rows
unfolding create_receipt allocate_for_fy
create_receipt_entries dto db booking checked =
    let label = financial_year_label dto.receipt_date (fy_start_month_of db.config) in
    let rows = upsert receipt_kind label db.sequences in
    let number : FyNumber = record {
      seq = returned (find? (has_key receipt_kind label) rows);
      fy_label = label;
    } in
    let (db', e, receipts, entries, ledger, own) =
      write_receipt_entries dto number (record db { sequences = rows }) in
    (number, db', rw (checked, ◌>>=◌, e), receipts, entries, ledger, own)
