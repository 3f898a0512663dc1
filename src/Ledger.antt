-- ===== src/Ledger.antt =====
-- apps/api/src/postsales/ledger.service.ts: the append-only ledger. The balance of a booking is
-- the sum of its signed amounts.
pub mod Balance
pub mod Moves
use openestate.Base.{
  ℕ, Bool, true, false, Option, none, some, List, [], ◌∷◌, ◌++◌, ◌==◌, if◌then◌else◌,
}
use openestate.Base.Int.{ℤ, pos, ◌+ℤ◌}
use openestate.Database.{
  LedgerEntryType, LedgerEntry, Db, Tx, pure, gets, modify, fresh_id, ◌>>=◌, ◌>>◌,
}

-- `LedgerEntryInput`
pub record EntryInput : Type 0 where
  pub booking_id : ℕ
  pub entry_type : LedgerEntryType
  pub signed_amount_paise : ℤ
  pub installment_id : Option ℕ
  pub receipt_id : Option ℕ
  pub reversal_of_entry_id : Option ℕ
  pub effective_date : ℕ

-- The row that `tx.ledgerEntry.create` makes of an input.
abbrev pub entry_row : ℕ → EntryInput → LedgerEntry
entry_row id e = record {
  id = id;
  booking_id = e.booking_id;
  entry_type = e.entry_type;
  signed_amount_paise = e.signed_amount_paise;
  installment_id = e.installment_id;
  receipt_id = e.receipt_id;
  reversal_of_entry_id = e.reversal_of_entry_id;
  effective_date = e.effective_date;
}

abbrev pub append_entry : LedgerEntry → Db → Db
append_entry row db = record db { ledger = db.ledger ++ row ∷ [] }

-- One round of the loop of `post`.
unfoldable pub post_one : EntryInput → Tx LedgerEntry
post_one e = do id ← fresh_id; let row = entry_row id e; modify (append_entry row); pure row

unfoldable pub post : List EntryInput → Tx (List LedgerEntry)
unfolding post_one
post [] = pure []
post (e ∷ entries) = do row ← post_one e; created ← post entries; pure (row ∷ created)

-- Σ of the signed amounts of one booking.
abbrev pub balance_of : ℕ → List LedgerEntry → ℤ
balance_of booking_id [] = pos 0
balance_of booking_id (e ∷ entries) =
    (if e.booking_id == booking_id then e.signed_amount_paise else pos 0)
    +ℤ balance_of booking_id entries

unfoldable pub balance_in_tx : ℕ → Tx ℤ
balance_in_tx booking_id = gets (λ db. balance_of booking_id db.ledger)

-- Σ over the entries of a booking whose type is in a set.
pub sum_by_types : ℕ → (LedgerEntryType → Bool) → List LedgerEntry → ℤ
sum_by_types booking_id in_set [] = pos 0
sum_by_types booking_id in_set (e ∷ entries) =
    (if e.booking_id == booking_id
      then (if in_set e.entry_type then e.signed_amount_paise else pos 0)
      else pos 0)
    +ℤ sum_by_types booking_id in_set entries
