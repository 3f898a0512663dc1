-- ===== src/Reversals/Entries.antt =====
-- `reverseReceiptLedger` of apps/api/src/postsales/receipt.service.ts: it always returns, takes back
-- what is live, and leaves the receipts alone.
use openestate.Base.{
  ℕ, ◌≡◌, refl, ap, ◌∙◌, Bool, true, false, not, Option, none, some, List, [], ◌∷◌, ◌==◌,
  if◌then◌else◌, ok, Bool-cases, inl, inr,
}
use openestate.Base.Int.{ℤ, pos, neg, ◌+ℤ◌, ltb_ℤ, int_laws}
use openestate.Database.{
  LedgerEntryType, LedgerEntry, Receipt, Db, ◌>>=◌, ◌>>◌, pure, when, for_each,
}
use openestate.Installments.{bump_installment, find_installment}
use openestate.Installments.Moves.{bump_installment-Moves, bump_found-receipts}
use openestate.Ledger.{EntryInput, balance_of, post_one}
use openestate.Ledger.Moves.{
  Moves, >>=-Moves, pure-Moves, when-Moves, for_each-Moves, post_one-Moves, input_adds, rounds,
  Keeps, >>=-Keeps, for_each-Keeps, when-Keeps,
}
use openestate.Reversals.{
  own_entries, already_reversed, reversal_entry, take_back, reverse_entry, is_receipt_alloc,
  reverse_receipt_ledger, receipt_bounce_entry,
}

take_back-Moves :
    (b : ℕ) (e : LedgerEntry) (target : Option ℕ) → Moves b (pos 0) (take_back e target)
take_back-Moves b e none db = pure-Moves b tt db
take_back-Moves b e (some id) db = elim (Bool-cases (is_receipt_alloc e.entry_type)) [
  | inl c ↦ rw c (bump_installment-Moves b id e.signed_amount_paise db)
  | inr c ↦ rw c (pure-Moves b tt db)
]

-- The amount of the entries that nothing has reversed.
abbrev pub live_total : List LedgerEntry → List LedgerEntry → ℤ
live_total ledger [] = pos 0
live_total ledger (e ∷ es) =
    if already_reversed ledger e
    then live_total ledger es
    else e.signed_amount_paise +ℤ live_total ledger es

-- What a receipt still contributes to the balance of its booking.
abbrev pub live_amount : ℕ → List LedgerEntry → ℤ
live_amount id ledger = live_total ledger (own_entries id ledger)

module _ (b : ℕ) (ledger : List LedgerEntry) (r : Receipt) (type : LedgerEntryType) (date : ℕ) where
  abbrev entry_moves : LedgerEntry → ℤ
  entry_moves e =
      if not (already_reversed ledger e)
      then input_adds b (reversal_entry r type date e) +ℤ pos 0
      else pos 0

  reverse_entry-Moves :
      (e : LedgerEntry) → Moves b (entry_moves e) (reverse_entry ledger r type date e)
  unfolding reverse_entry
  reverse_entry-Moves e =
      let entry = reversal_entry r type date e in
      when-Moves b (not (already_reversed ledger e)) (input_adds b entry +ℤ pos 0)
        (post_one entry >> take_back e e.installment_id)
        (>>=-Moves b (input_adds b entry) (pos 0) (post_one entry)
          (λ _. take_back e e.installment_id) (post_one-Moves b entry)
          (λ _. take_back-Moves b e e.installment_id))

  entry_moves-rounds :
      (es : List LedgerEntry)
      → rounds b entry_moves es ≡ (if r.booking_id == b then neg (live_total ledger es) else pos 0)
  entry_moves-rounds [] = elim (Bool-cases (r.booking_id == b)) [
    | inl k ↦ rw k (omega int_laws)
    | inr k ↦ rw k
  ]
  entry_moves-rounds (e ∷ es) = elim (Bool-cases (r.booking_id == b)) [
    | inl k ↦ elim (Bool-cases (already_reversed ledger e)) [
      | inl c ↦ rw (entry_moves-rounds es, k, c) (omega int_laws)
      | inr c ↦ rw (entry_moves-rounds es, k, c) (omega int_laws)
    ]
    | inr k ↦ elim (Bool-cases (already_reversed ledger e)) [
      | inl c ↦ rw (entry_moves-rounds es, k, c) (omega int_laws)
      | inr c ↦ rw (entry_moves-rounds es, k, c) (omega int_laws)
    ]
  ]

-- The ledger part of a reversal always returns; it takes back what is live and adds the charge.
abbrev pub undo_amount : ℕ → Receipt → ℤ → Db → ℤ
undo_amount b r charge db =
    if r.booking_id == b
    then neg (live_amount r.id db.ledger) +ℤ (if ltb_ℤ (pos 0) charge then charge else pos 0)
    else pos 0

undo_sum :
    (k c : Bool) (x x1 x2 live charge : ℤ)
    → x1 ≡ x +ℤ (if k then neg live else pos 0)
    → x2 ≡ x1 +ℤ (if c then (if k then charge else pos 0) +ℤ pos 0 else pos 0)
    → x2 ≡ x +ℤ (if k then neg live +ℤ (if c then charge else pos 0) else pos 0)
undo_sum true true x x1 x2 l c h h' = rw (h', h) (omega int_laws)
undo_sum true false x x1 x2 l c h h' = rw (h', h) (omega int_laws)
undo_sum false true x x1 x2 l c h h' = rw (h', h) (omega int_laws)
undo_sum false false x x1 x2 l c h h' = rw (h', h) (omega int_laws)

pub reverse_receipt_ledger-returns :
    (b : ℕ) (r : Receipt) (type : LedgerEntryType) (date : ℕ) (charge : ℤ) (db : Db)
    → (db' : Db) × (reverse_receipt_ledger r type date charge db ≡ ok (tt, db'))
      × (balance_of b db'.ledger ≡ balance_of b db.ledger +ℤ undo_amount b r charge db)
unfolding reverse_receipt_ledger
reverse_receipt_ledger-returns b r type date charge db =
    let entry = receipt_bounce_entry r charge date in
    let (_, db1, e1, m1) =
      for_each-Moves b (entry_moves b db.ledger r type date) (reverse_entry db.ledger r type date)
        (own_entries r.id db.ledger) (reverse_entry-Moves b db.ledger r type date) db in
    let (_, db2, e2, m2) =
      when-Moves b (ltb_ℤ (pos 0) charge) (input_adds b entry +ℤ pos 0) (post_one entry >> pure tt)
        (>>=-Moves b (input_adds b entry) (pos 0) (post_one entry) (λ _. pure tt)
          (post_one-Moves b entry) (λ _. pure-Moves b tt))
        db1 in
    (
      db2,
      rw (◌>>=◌, e1, e2),
      undo_sum (r.booking_id == b) (ltb_ℤ (pos 0) charge) (balance_of b db.ledger)
          (balance_of b db1.ledger) (balance_of b db2.ledger) (live_amount r.id db.ledger) charge
          (m1
            ∙ ap (λ x. balance_of b db.ledger +ℤ x)
                (entry_moves-rounds b db.ledger r type date (own_entries r.id db.ledger)))
          m2,
    )

take_back-Keeps :
    (e : LedgerEntry) (target : Option ℕ) → Keeps (λ d. d.receipts) (take_back e target)
unfolding bump_installment
take_back-Keeps e none db = refl
take_back-Keeps e (some id) db = elim (Bool-cases (is_receipt_alloc e.entry_type)) [
  | inl c ↦ rw c (bump_found-receipts e.signed_amount_paise (find_installment id db) db)
  | inr c ↦ rw c
]

module _ (r : Receipt) (type : LedgerEntryType) (date : ℕ) where
  post_one-Keeps : (e : EntryInput) → Keeps (λ d. d.receipts) (post_one e)
  unfolding post_one
  post_one-Keeps e db = refl

  reverse_entry-Keeps :
      (ledger : List LedgerEntry) (e : LedgerEntry)
      → Keeps (λ d. d.receipts) (reverse_entry ledger r type date e)
  unfolding reverse_entry
  reverse_entry-Keeps ledger e =
      let entry = reversal_entry r type date e in
      when-Keeps (λ d. d.receipts) (not (already_reversed ledger e))
        (post_one entry >> take_back e e.installment_id)
        (>>=-Keeps (λ d. d.receipts) (post_one entry) (λ _. take_back e e.installment_id)
          (post_one-Keeps entry) (λ _. take_back-Keeps e e.installment_id))

  pub reverse_receipt_ledger-Keeps :
      (charge : ℤ) → Keeps (λ d. d.receipts) (reverse_receipt_ledger r type date charge)
  unfolding reverse_receipt_ledger
  reverse_receipt_ledger-Keeps charge db =
      let entry = receipt_bounce_entry r charge date in
      >>=-Keeps (λ d. d.receipts)
        (for_each (own_entries r.id db.ledger) (reverse_entry db.ledger r type date))
        (λ _. when (ltb_ℤ (pos 0) charge) (post_one entry >> pure tt))
        (for_each-Keeps (λ d. d.receipts) (reverse_entry db.ledger r type date)
          (own_entries r.id db.ledger) (reverse_entry-Keeps db.ledger))
        (λ _.
          when-Keeps (λ d. d.receipts) (ltb_ℤ (pos 0) charge) (post_one entry >> pure tt)
            (>>=-Keeps (λ d. d.receipts) (post_one entry) (λ _. pure tt) (post_one-Keeps entry)
              (λ _ db. refl)))
        db
