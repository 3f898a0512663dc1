-- ===== src/Receipts/Entries.antt =====
-- The ledger entries that `createReceiptTx` (apps/api/src/postsales/receipt.service.ts) appends: all
-- of them are of the new receipt and its booking, and none is a reversal.
use openestate.Base.{
  ℕ, suc, ◌<◌, ◌≡◌, refl, sym, ap, ◌∙◌, arith, Bool, true, false, none, some, List, [], ◌∷◌, ◌++◌,
  ◌⊎◌, ok, All, All-append, append_assoc, append-nil, inl, inr,
}
use openestate.Base.Int.{ℤ}
use openestate.Database.{
  LedgerEntry, receipt_alloc, tds_receivable, TdsDeduction, Db, Tx, when, for_each,
}
use openestate.Installments.{bump_installment, bump_found, find_installment}
use openestate.Installments.Moves.{bump_found-ledger, bump_found-receipts, bump_found-next_id}
use openestate.Ledger.{entry_row, append_entry, post, post_one}
use openestate.Receipts.{
  AllocationInput, CreateReceipt, post_allocation, alloc_entry, bump_sum, tds_entry, record_tds,
}

-- An entry that receipt `id` of booking `booking_id` makes itself.
pub record OwnEntry (booking_id id : ℕ) (e : LedgerEntry) : Type 0 where
  pub of_booking : e.booking_id ≡ booking_id
  pub of_receipt : e.receipt_id ≡ some id
  pub own_type : (e.entry_type ≡ receipt_alloc) ⊎ (e.entry_type ≡ tds_receivable)
  pub no_reversal : e.reversal_of_entry_id ≡ none
  pub later : id < e.id

module _ (booking_id id : ℕ) where
  -- `m` returns, appends only entries of the receipt, and leaves the receipts alone.
  abbrev pub Appends : Tx (Unit {0}) → Type 0
  Appends m =
      (db : Db)
      → id < db.next_id
      → (db' : Db) × (m db ≡ ok (tt, db'))
        × (db'.receipts ≡ db.receipts)
        × (id < db'.next_id)
        × (rows : List LedgerEntry) × (db'.ledger ≡ db.ledger ++ rows)
        × All (OwnEntry booking_id id) rows

  pub for_each-Appends :
      {A : Type 0} (body : A → Tx (Unit {0})) (xs : List A)
      → ((x : A) → Appends (body x))
      → Appends (for_each xs body)
  for_each-Appends body [] h db l = (db, refl, refl, l, [], sym (append-nil db.ledger), tt)
  for_each-Appends body (x ∷ xs) h db l =
      let (db1, e1, k1, l1, rows1, a1, own1) = h x db l in
      let (db2, e2, k2, l2, rows2, a2, own2) = for_each-Appends body xs h db1 l1 in
      (
        db2,
        rw (e1, for_each) e2,
        k2 ∙ k1,
        l2,
        rows1 ++ rows2,
        a2 ∙ ap (λ xs. xs ++ rows2) a1 ∙ append_assoc db.ledger rows1 rows2,
        All-append (OwnEntry booking_id id) rows1 rows2 own1 own2,
      )

  pub when-Appends : (c : Bool) (m : Tx (Unit {0})) → Appends m → Appends (when c m)
  when-Appends true m h db l = h db l
  when-Appends false m h db l = (db, refl, refl, l, [], sym (append-nil db.ledger), tt)

  pub post_allocation-Appends :
      (date : ℕ) (a : AllocationInput) → Appends (post_allocation booking_id id date a)
  unfolding post_allocation post
  post_allocation-Appends date a db l =
      let rows =
        db.receipt_allocations
        ++ record {
          receipt_id = id;
          installment_id = a.installment_id;
          amount_paise = a.amount_paise;
        }
          ∷ [] in
      let entry = entry_row db.next_id (alloc_entry booking_id id date a) in
      (
        append_entry entry (record db { next_id = suc db.next_id; receipt_allocations = rows }),
        refl,
        refl,
        omega arith,
        entry ∷ [],
        refl,
        (
          record {
            of_booking = refl;
            of_receipt = refl;
            own_type = inl refl;
            no_reversal = refl;
            later = l;
          },
          tt,
        ),
      )

  pub bump_sum-Appends : (p : ℕ × ℤ) → Appends (bump_sum p)
  unfolding bump_sum bump_installment
  bump_sum-Appends (target, add) db l =
      let found = find_installment target db in
      (
        bump_found add found db,
        refl,
        bump_found-receipts add found db,
        omega (arith, bump_found-next_id add found db),
        [],
        bump_found-ledger add found db ∙ sym (append-nil db.ledger),
        tt,
      )

  pub record_tds-Appends :
      (dto : CreateReceipt) → dto.booking_id ≡ booking_id → Appends (record_tds dto id)
  unfolding record_tds post_one
  record_tds-Appends dto same db l =
      let entry =
        entry_row db.next_id
          (tds_entry dto.booking_id id dto.receipt_date dto.tds_deducted_paise) in
      let deduction : TdsDeduction = record {
        id = suc db.next_id;
        booking_id = dto.booking_id;
        receipt_id = id;
        deducted_paise = dto.tds_deducted_paise;
        receivable_ledger_entry_id = db.next_id;
      } in
      (
        append_entry entry (record db {
          next_id = suc (suc db.next_id);
          tds_deductions = db.tds_deductions ++ deduction ∷ [];
        }),
        refl,
        refl,
        omega arith,
        entry ∷ [],
        refl,
        (
          record {
            of_booking = same;
            of_receipt = refl;
            own_type = inr refl;
            no_reversal = refl;
            later = l;
          },
          tt,
        ),
      )
