-- ===== src/Reversals/RoundTrip.antt =====
-- `createReceipt` and then `reverseReceipt` of apps/api/src/postsales/receipt.service.ts: the
-- balances come back.
use openestate.Base.{
  ℕ, ◌<◌, ◌≤◌, ◌≡◌, refl, ap, ◌∙◌, arith, Bool, true, false, ◌&&◌, Option, none, some, List, [],
  ◌∷◌, ◌++◌, ◌==◌, ==_refl, if◌then◌else◌, ok, All, any, any-none, select-none, select_every,
  All-map, All-append, find?, find?-new, Bool-cases, inl, inr,
}
use openestate.Base.Int.{ℤ, pos, neg, ◌+ℤ◌, int_laws}
use openestate.Database.{LedgerEntry, Receipt, Db, is_bounced, cheque_like}
use openestate.Ledger.{balance_of}
use openestate.Ledger.Balance.{balance_of-append}
use openestate.Receipts.{CreateReceipt, create_receipt, receipt_row}
use openestate.Receipts.Posting.{create_receipt_checked}
use openestate.Receipts.Written.{create_receipt_entries}
use openestate.Receipts.Entries.{OwnEntry}
use openestate.Sequences.{FyNumber}
use openestate.Reversals.{
  find_receipt, is_id, is_own_type, own_entries, already_reversed, reverse_receipt,
}
use openestate.Reversals.Entries.{live_total, live_amount}
use openestate.Reversals.Undo.{reverse_receipt_step}

-- `id` is not yet the id of a row.
abbrev pub IdBelow : ℕ → Option ℕ → Type 0
IdBelow n none = Unit
IdBelow n (some id) = id < n

abbrev pub EntryBelow : ℕ → LedgerEntry → Type 0
EntryBelow n e = IdBelow n e.receipt_id × IdBelow n e.reversal_of_entry_id

-- No row refers to the id of a row to come.
abbrev pub IdsBelow : Db → Type 0
IdsBelow db =
    All (EntryBelow db.next_id) db.ledger × All (λ (r : Receipt). r.id < db.next_id) db.receipts

not_yet : (n id : ℕ) (o : Option ℕ) → n ≤ id → IdBelow n o → is_id id o ≡ false
not_yet n id none l h = refl
not_yet n id (some j) l h = ground arith

-- The test of `own_entries` fails on an entry of no receipt to come, and holds of an own entry.
is_own : ℕ → LedgerEntry → Bool
is_own id e = is_id id e.receipt_id && is_own_type e.entry_type

old-is_own : (n id : ℕ) (e : LedgerEntry) → n ≤ id → EntryBelow n e → is_own id e ≡ false
unfolding is_own
old-is_own n id e l h = rw (not_yet n id e.receipt_id l h.0)

own-is_own : (b id : ℕ) (e : LedgerEntry) → OwnEntry b id e → is_own id e ≡ true
unfolding is_own
own-is_own b id e h = ap (λ (t : Bool). t && is_own_type e.entry_type) same ∙ typed
  where
    same : is_id id e.receipt_id ≡ true
    same = ap (is_id id) h.of_receipt ∙ ==_refl id

    typed : is_own_type e.entry_type ≡ true
    typed = elim h.own_type [ inl q ↦ ap is_own_type q | inr q ↦ ap is_own_type q ]

-- The own entries of a new receipt are the rows that were appended for it.
own_entries-new :
    (n b id : ℕ) (old rows : List LedgerEntry)
    → n ≤ id
    → All (EntryBelow n) old
    → All (OwnEntry b id) rows
    → own_entries id (old ++ rows) ≡ rows
unfolding is_own
own_entries-new n b id old rows l h k =
    select-none (is_own id) old rows (All-map (λ e. old-is_own n id e l) old h)
    ∙ select_every (is_own id) rows (All-map (own-is_own b id) rows k)

-- Nothing has reversed an entry that is new.
unreversed :
    (n b id x : ℕ) (old rows : List LedgerEntry)
    → n ≤ x
    → All (EntryBelow n) old
    → All (OwnEntry b id) rows
    → any (λ (r : LedgerEntry). is_id x r.reversal_of_entry_id) (old ++ rows) ≡ false
unreversed n b id x old rows l h k =
    any-none (λ (r : LedgerEntry). is_id x r.reversal_of_entry_id) (old ++ rows)
      (All-append (λ (r : LedgerEntry). is_id x r.reversal_of_entry_id ≡ false) old rows
        (All-map (λ r below. not_yet n x r.reversal_of_entry_id l below.1) old h)
        (All-map (λ r own. ap (is_id x) own.no_reversal) rows k))

abbrev total_of : List LedgerEntry → ℤ
total_of [] = pos 0
total_of (e ∷ es) = e.signed_amount_paise +ℤ total_of es

live_total-rows :
    (ledger rows : List LedgerEntry)
    → All (λ (e : LedgerEntry). already_reversed ledger e ≡ false) rows
    → live_total ledger rows ≡ total_of rows
live_total-rows ledger [] h = refl
live_total-rows ledger (e ∷ rows) (c, h) = rw (live_total, c, live_total-rows ledger rows h)

balance_of-own :
    (b booking id : ℕ) (rows : List LedgerEntry)
    → All (OwnEntry booking id) rows
    → balance_of b rows ≡ (if booking == b then total_of rows else pos 0)
balance_of-own b booking id [] h = elim (Bool-cases (booking == b)) [ inl c ↦ rw c | inr c ↦ rw c ]
balance_of-own b booking id (e ∷ rows) (h, hs) = elim (Bool-cases (booking == b)) [
  | inl c ↦ rw (balance_of-own b booking id rows hs, h.of_booking, c)
  | inr c ↦ rw (balance_of-own b booking id rows hs, h.of_booking, c) (omega int_laws)
]

not_bounced :
    (dto : CreateReceipt) (id : ℕ) (number : FyNumber)
    → is_bounced (receipt_row id dto number).clearance_status ≡ false
not_bounced dto id number = elim (Bool-cases (cheque_like dto.mode)) [ inl c ↦ rw c | inr c ↦ rw c ]

-- A receipt that has been created on rows none of which refers to an id to come can be reversed
-- at once, and then every balance is what it was before the receipt.
pub create_reverse :
    (dto : CreateReceipt) (db db1 : Db) (r : Receipt)
    → IdsBelow db
    → create_receipt dto db ≡ ok (r, db1)
    → (db2 : Db) × (reverse_receipt r.id db1 ≡ ok (tt, db2))
      × ((b : ℕ) → balance_of b db2.ledger ≡ balance_of b db.ledger)
create_reverse dto db db1 r (below, receipts_below) h =
    let id = db.next_id in
    let (booking, checked) = create_receipt_checked dto db db1 r h in
    let (number, db', e, receipts, rows, ledger, own) =
      create_receipt_entries dto db booking checked in
    let row = receipt_row id dto number in
    let same_row : r ≡ row = cc in
    let same_db : db1 ≡ db' = cc in
    let missing = All-map (λ (x : Receipt) l. id_apart x.id id l) db.receipts receipts_below in
    let found : find_receipt id db' ≡ some row =
      ap (find? (λ (x : Receipt). x.id == id)) receipts
      ∙ find?-new (λ (x : Receipt). x.id == id) db.receipts row missing (==_refl id) in
    let live : live_amount id db'.ledger ≡ total_of rows =
      live_new id dto.booking_id db.ledger rows db'.ledger ledger below own in
    let (db2, e2, _, _) =
      reverse_receipt_step 0 id db' row found refl (not_bounced dto id number) in
    (
      db2,
      rw (same_row, same_db) e2,
      λ b.
          let (db3, e3, moved, _) =
            reverse_receipt_step b id db' row found refl (not_bounced dto id number) in
          let same2 : db2 ≡ db3 = cc in
          let created : balance_of b db'.ledger
              ≡ balance_of b db.ledger +ℤ (if dto.booking_id == b then total_of rows else pos 0) =
            ap (balance_of b) ledger
            ∙ balance_of-append b db.ledger rows
            ∙ ap (λ x. balance_of b db.ledger +ℤ x) (balance_of-own b dto.booking_id id rows own) in
          rw same2 (
            undone (dto.booking_id == b) (balance_of b db.ledger) (balance_of b db'.ledger)
              (balance_of b db3.ledger) (total_of rows) (live_amount id db'.ledger) created live
              moved),
    )
  where
    id_apart : (x id : ℕ) → x < id → (x == id) ≡ false
    id_apart x id l = ground arith

    live_new :
        (id b : ℕ) (old rows now : List LedgerEntry)
        → now ≡ old ++ rows
        → All (EntryBelow id) old
        → All (OwnEntry b id) rows
        → live_amount id now ≡ total_of rows
    live_new id b old rows now e h k =
        rw (e, own_entries-new id b id old rows (omega arith) h k)
          (live_total-rows (old ++ rows) rows (
            All-map
              (λ (x : LedgerEntry) own.
                unreversed id b id x.id old rows (omega (arith, own.later)) h k)
              rows k))

    undone :
        (k : Bool) (x x1 x2 t live : ℤ)
        → x1 ≡ x +ℤ (if k then t else pos 0)
        → live ≡ t
        → x2 ≡ x1 +ℤ (if k then neg live +ℤ pos 0 else pos 0)
        → x2 ≡ x
    undone true x x1 x2 t live a b c = rw (c, a, b) (omega int_laws)
    undone false x x1 x2 t live a b c = rw (c, a) (omega int_laws)
