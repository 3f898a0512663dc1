-- ===== src/Ledger/Balance.antt =====
-- The balance of a booking under appended entries (apps/api/src/postsales/ledger.service.ts).
use openestate.Base.{
  ℕ, suc, ◌≡◌, List, [], ◌∷◌, ◌++◌, ◌==◌, if◌then◌else◌, ok, append_assoc, append-nil,
}
use openestate.Base.Int.{ℤ, pos, ◌+ℤ◌, int_laws}
use openestate.Database.{LedgerEntry, Db, ◌>>=◌}
use openestate.Ledger.{EntryInput, entry_row, append_entry, post, balance_of}

pub balance_of-append :
    (b : ℕ) (xs ys : List LedgerEntry)
    → balance_of b (xs ++ ys) ≡ balance_of b xs +ℤ balance_of b ys
balance_of-append b [] ys = omega int_laws
balance_of-append b (x ∷ xs) ys = rw (balance_of-append b xs ys) (omega int_laws)

-- What one more entry adds to the balance of booking `b`.
abbrev pub adds : ℕ → LedgerEntry → ℤ
adds b e = if e.booking_id == b then e.signed_amount_paise else pos 0

pub balance_of-snoc :
    (b : ℕ) (xs : List LedgerEntry) (e : LedgerEntry)
    → balance_of b (xs ++ e ∷ []) ≡ balance_of b xs +ℤ adds b e
balance_of-snoc b xs e = rw (balance_of-append b xs (e ∷ [])) (omega int_laws)

-- The rows that `post` makes, with ids counted from `id`.
abbrev pub rows_from : ℕ → List EntryInput → List LedgerEntry
rows_from id [] = []
rows_from id (e ∷ es) = entry_row id e ∷ rows_from (suc id) es

abbrev pub next_after : List EntryInput → ℕ → ℕ
next_after [] id = id
next_after (e ∷ es) id = next_after es (suc id)

abbrev pub after_rows : List EntryInput → Db → Db
after_rows es db = record db {
  next_id = next_after es db.next_id;
  ledger = db.ledger ++ rows_from db.next_id es;
}

-- `post` never throws, and what it does to the rows.
pub post_lem :
    (es : List EntryInput) (db : Db) → post es db ≡ ok (rows_from db.next_id es, after_rows es db)
unfolding post
post_lem [] db = rw (append-nil db.ledger)
post_lem (e ∷ es) db = rw (
  post_lem es (append_entry (entry_row db.next_id e) (record db { next_id = suc db.next_id })),
  ◌>>=◌,
  append_assoc db.ledger (entry_row db.next_id e ∷ []),
)
