-- ===== src/Refunds/Requests.antt =====
-- `request` and `approve` of apps/api/src/postsales/refund.service.ts: what a request checks, and
-- what two requests for the same money lead to.
use openestate.Base.{
  ℕ, suc, ◌<◌, ◌≡◌, refl, ap, ◌∙◌, arith, false, Option, none, some, List, [], ◌∷◌, ◌++◌, ◌==◌,
  ==_refl, if◌then◌else◌, find?-new, find?-append, find?-update_other, ok, All, All-append,
}
use openestate.Base.Int.{ℤ, pos, negsuc, neg, ◌+ℤ◌, ltb_ℤ, int_laws}
use openestate.Database.{
  Booking, Refund, RefundStatus, ReceiptMode, Db, Tx, ◌>>=◌, ◌>>◌, LedgerEntryType,
}
use openestate.Ledger.{balance_of, entry_row}
use openestate.Ledger.Balance.{balance_of-snoc, adds}
use openestate.Refunds.{find_booking, find_refund, plain_entry, request, approve, owed_to_customer}
use openestate.Refunds.Lifecycle.{approved_db, approve_step}

abbrev pub requested_refund : ℕ → ℤ → Option ReceiptMode → Db → Refund
requested_refund b amount mode db = record {
  id = db.next_id;
  booking_id = b;
  amount_paise = amount;
  mode = mode;
  status = RefundStatus.requested;
}

abbrev pub requested_db : ℕ → ℤ → Option ReceiptMode → Db → Db
requested_db b amount mode db = record db {
  next_id = suc db.next_id;
  refunds = db.refunds ++ requested_refund b amount mode db ∷ [];
}

request_step :
    (b : ℕ) (amount : ℤ) (mode : Option ReceiptMode) (db : Db) (booking : Booking)
    → find_booking b db ≡ some booking
    → ltb_ℤ (owed_to_customer (balance_of b db.ledger)) amount ≡ false
    → request b amount mode db
      ≡ ok (requested_refund b amount mode db, requested_db b amount mode db)
unfolding request
request_step b amount mode db booking e q = ground (arith, e, q)

-- No refund has the id of a row to come.
abbrev pub RefundsBelow : Db → Type 0
RefundsBelow db = All (λ (r : Refund). r.id < db.next_id) db.refunds

not_yet :
    (n m : ℕ) (rs : List Refund)
    → n < suc m
    → All (λ (r : Refund). r.id < n) rs
    → All (λ (r : Refund). (r.id == m) ≡ false) rs
not_yet n m [] h k = tt
not_yet n m (r ∷ rs) h (k, ks) = (ground arith, not_yet n m rs h ks)

whole_covered : (n : ℕ) → ltb_ℤ (owed_to_customer (negsuc n)) (pos (suc n)) ≡ false
unfolding neg
whole_covered n = ground arith

next_differs : (n : ℕ) → (n == suc n) ≡ false
next_differs n = ground arith

next_above : (n : ℕ) → (suc n == n) ≡ false
next_above n = ground arith

twice :
    (b n : ℕ) (x : ℤ)
    → x ≡ negsuc n
    → x +ℤ (if b == b then pos (suc n) else pos 0) +ℤ (if b == b then pos (suc n) else pos 0)
      ≡ pos (suc n)
twice b n x e = rw (==_refl b, e) (omega int_laws)

-- Two requests of one amount, both approved.
abbrev pub request_twice : ℕ → ℤ → ℕ → Tx (Unit {0})
request_twice b amount now = do
  first ← request b amount none
  second ← request b amount none
  approve first.id now
  approve second.id now

-- An open request is not counted against the amount owed: while the company owes a customer
-- `n + 1` paise, the whole amount can be requested twice and approved twice, and the customer
-- ends up owing what the company owed.
pub request_twice_overdraws :
    (b n now : ℕ) (db : Db) (booking : Booking)
    → find_booking b db ≡ some booking
    → balance_of b db.ledger ≡ negsuc n
    → RefundsBelow db
    → (db' : Db) × (request_twice b (pos (suc n)) now db ≡ ok (tt, db'))
      × (balance_of b db'.ledger ≡ pos (suc n))
request_twice_overdraws b n now db booking e owed below =
    let a = pos (suc n) in
    let r1 = requested_refund b a none db in
    let db1 = requested_db b a none db in
    let r2 = requested_refund b a none db1 in
    let db2 = requested_db b a none db1 in
    let db3 = approved_db r1 r1.id now db2 in
    let db4 = approved_db r2 r2.id now db3 in
    let covered : ltb_ℤ (owed_to_customer (balance_of b db.ledger)) a ≡ false =
      rw owed (whole_covered n) in
    let s1 = request_step b a none db booking e covered in
    let s2 = request_step b a none db1 booking e covered in
    let f1 : find_refund r1.id db2 ≡ some r1 =
      find?-append (λ r. r.id == r1.id) db1.refunds (r2 ∷ [])
        (find?-new (λ r. r.id == r1.id) db.refunds r1
          (not_yet db.next_id r1.id db.refunds (omega arith) below) (==_refl r1.id)) in
    let f2 : find_refund r2.id db2 ≡ some r2 =
      find?-new (λ r. r.id == r2.id) db1.refunds r2
        (All-append (λ r. (r.id == r2.id) ≡ false) db.refunds (r1 ∷ [])
          (not_yet db.next_id r2.id db.refunds (omega arith) below) (next_differs db.next_id, tt))
        (==_refl r2.id) in
    let f3 : find_refund r2.id db3 ≡ some r2 =
      find?-update_other (λ r. r.id == r2.id) (λ r. r.id == r1.id)
        (λ r. record r { status = RefundStatus.approved }) (λ r. refl) db2.refunds f2
        (next_above db.next_id) in
    let s3 = approve_step r1.id now db2 r1 f1 refl in
    let s4 = approve_step r2.id now db3 r2 f3 refl in
    let entry1 = entry_row db2.next_id (plain_entry b LedgerEntryType.refund_approved a now) in
    let entry2 = entry_row db3.next_id (plain_entry b LedgerEntryType.refund_approved a now) in
    (
      db4,
      rw (s1, ◌>>=◌, s2, s3, s4),
      balance_of-snoc b db3.ledger entry2
          ∙ ap (λ x. x +ℤ adds b entry2) (balance_of-snoc b db.ledger entry1)
          ∙ twice b n (balance_of b db.ledger) owed,
    )
