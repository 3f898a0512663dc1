-- ===== src/Reversals/Undo.antt =====
-- `reverseReceipt` of apps/api/src/postsales/receipt.service.ts: what it
-- takes back from the balance.
use openestate.Base.{
  ℕ, ◌≡◌, refl, ap, ◌∙◌, arith, Bool, true, false, some, ◌==◌, if◌then◌else◌, ok, err, conflict,
  find?-update_where, Bool-cases, Option-cases, inl, inr,
}
use openestate.Base.Int.{ℤ, pos, neg, ◌+ℤ◌, int_laws}
use openestate.Database.{LedgerEntryType, Receipt, Db, is_bounced}
use openestate.Ledger.{balance_of}
use openestate.Reversals.Entries.{
  live_amount, undo_amount, reverse_receipt_ledger-returns, reverse_receipt_ledger-Keeps,
}
use openestate.Reversals.{
  find_receipt, reverse_receipt_ledger, reverse_receipt, update_receipt, as_reversed,
}

no_charge :
    (k : Bool) (live : ℤ)
    → (if k then neg live +ℤ pos 0 else pos 0) ≡ (if k then neg live else pos 0)
no_charge true live = omega int_laws
no_charge false live = refl

pub updated_receipt :
    (id : ℕ) (f : Receipt → Receipt) (db : Db) (r : Receipt)
    → ((x : Receipt) → (f x).id ≡ x.id)
    → find_receipt id db ≡ some r
    → find_receipt id (update_receipt id f db) ≡ some (f r)
updated_receipt id f db r keep e =
    find?-update_where (λ (x : Receipt). x.id == id) f (λ x. ap (λ (k : ℕ). k == id) (keep x))
      db.receipts e

reverse_receipt_by :
    (id : ℕ) (db db1 : Db) (r : Receipt)
    → find_receipt id db ≡ some r
    → r.is_reversed ≡ false
    → is_bounced r.clearance_status ≡ false
    → reverse_receipt_ledger r LedgerEntryType.adjustment r.receipt_date (pos 0) db ≡ ok (tt, db1)
    → reverse_receipt id db ≡ ok (tt, update_receipt id as_reversed db1)
unfolding reverse_receipt
reverse_receipt_by id db db1 r e q c h = ground (arith, e, q, c, h)

-- The reversal of a receipt that can be reversed returns, and what it leaves.
pub reverse_receipt_step :
    (b id : ℕ) (db : Db) (r : Receipt)
    → find_receipt id db ≡ some r
    → r.is_reversed ≡ false
    → is_bounced r.clearance_status ≡ false
    → (db' : Db) × (reverse_receipt id db ≡ ok (tt, db'))
      × (balance_of b db'.ledger ≡ balance_of b db.ledger +ℤ undo_amount b r (pos 0) db)
      × (find_receipt id db' ≡ some (as_reversed r))
reverse_receipt_step b id db r e q c =
    let (db1, e1, m1) =
      reverse_receipt_ledger-returns b r LedgerEntryType.adjustment r.receipt_date (pos 0) db in
    let kept : db1.receipts ≡ db.receipts =
      cc (reverse_receipt_ledger-Keeps r LedgerEntryType.adjustment r.receipt_date (pos 0) db) in
    let still : find_receipt id db1 ≡ some r = rw kept e in
    (
      update_receipt id as_reversed db1,
      reverse_receipt_by id db db1 r e q c e1,
      m1,
      updated_receipt id as_reversed db1 r (λ x. refl) still,
    )

-- A receipt is reversed at most once: both ways to reverse it are shut afterwards.
reverse_receipt_refused :
    (id : ℕ) (db : Db) (r : Receipt)
    → find_receipt id db ≡ some r
    → r.is_reversed ≡ true
    → reverse_receipt id db ≡ err conflict
unfolding reverse_receipt
reverse_receipt_refused id db r e q = ground (arith, e, q)

reverse_receipt_inv :
    (id : ℕ) (db db' : Db)
    → reverse_receipt id db ≡ ok (tt, db')
    → (r : Receipt) × (find_receipt id db ≡ some r)
      × (r.is_reversed ≡ false)
      × (is_bounced r.clearance_status ≡ false)
unfolding reverse_receipt
reverse_receipt_inv id db db' h = elim (Option-cases (find_receipt id db)) [
  | inl e ↦ ground (arith, e)
  | inr (r, e) ↦ elim (Bool-cases r.is_reversed) [
    | inl q ↦ ground (arith, e, q)
    | inr q ↦ elim (Bool-cases (is_bounced r.clearance_status)) [
      | inl c ↦ ground (arith, e, q, c)
      | inr c ↦ (r, e, q, c)
    ]
  ]
]

-- A reversal that returns was of a receipt that is neither reversed nor bounced. It takes back
-- from the balance of the receipt's booking the amount of the receipt's own entries that nothing
-- has reversed, and moves no other balance. The receipt is reversed, and a second reversal is
-- refused.
pub reverse_receipt_effect :
    (id : ℕ) (db db' : Db)
    → reverse_receipt id db ≡ ok (tt, db')
    → (r : Receipt) × (find_receipt id db ≡ some r)
      × (r.is_reversed ≡ false)
      × (is_bounced r.clearance_status ≡ false)
      × (find_receipt id db' ≡ some (record r { is_reversed = true }))
      × (reverse_receipt id db' ≡ err conflict)
      × ((b : ℕ)
          → balance_of b db'.ledger
            ≡ balance_of b db.ledger
              +ℤ (if r.booking_id == b then neg (live_amount r.id db.ledger) else pos 0))
reverse_receipt_effect id db db' h =
    let (r, e, q, c) = reverse_receipt_inv id db db' h in
    let (db1, e1, _, found) = reverse_receipt_step 0 id db r e q c in
    let same : db' ≡ db1 = cc in
    let found' : find_receipt id db' ≡ some (as_reversed r) = rw same found in
    (
      r,
      e,
      q,
      c,
      found',
      reverse_receipt_refused id db' (as_reversed r) found' refl,
      λ b.
          let (db2, e2, moved, _) = reverse_receipt_step b id db r e q c in
          let same2 : db' ≡ db2 = cc in
          rw same2
            (moved ∙ ap (λ x. balance_of b db.ledger +ℤ x) (no_charge (r.booking_id == b) _)),
    )
