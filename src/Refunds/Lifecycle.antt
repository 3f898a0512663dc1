-- ===== src/Refunds/Lifecycle.antt =====
-- The refund of apps/api/src/postsales/refund.service.ts as a state machine over the rows: what
-- each step does to the balance, and which steps may follow.
use openestate.Base.{
  ℕ, suc, ◌≡◌, refl, arith, true, false, some, [], ◌∷◌, ◌++◌, ◌==◌, if◌then◌else◌,
  find?-update_where, ok, err, conflict, Option-cases, Bool-cases, inl, inr,
}
use openestate.Base.Int.{pos, ◌+ℤ◌}
use openestate.Database.{
  Refund, PaymentVoucher, RefundStatus, VoucherStatus, ReceiptMode, is_requested, is_approved,
  is_issued, Db, LedgerEntryType,
}
use openestate.Ledger.{balance_of, entry_row}
use openestate.Ledger.Balance.{balance_of-snoc, post_lem, after_rows}
use openestate.Refunds.{
  find_refund, find_voucher, set_refund_status, set_voucher_status, plain_entry, approve, pay,
  voucher_bounced, bounce_charge_of, bounce_entries, reopen,
}

-- The rows after an approval.
abbrev pub approved_db : Refund → ℕ → ℕ → Db → Db
approved_db r id now db = set_refund_status id RefundStatus.approved (
    after_rows (plain_entry r.booking_id LedgerEntryType.refund_approved r.amount_paise now ∷ [])
      db)

pub approve_step :
    (id now : ℕ) (db : Db) (r : Refund)
    → find_refund id db ≡ some r
    → is_requested r.status ≡ true
    → approve id now db ≡ ok (tt, approved_db r id now db)
unfolding approve
approve_step id now db r e q =
    let entries =
      plain_entry r.booking_id LedgerEntryType.refund_approved r.amount_paise now ∷ [] in
    ground (arith, e, q, post_lem entries db)

-- Success needs a refund that exists and is REQUESTED.
approve_inv :
    (id now : ℕ) (db db' : Db)
    → approve id now db ≡ ok (tt, db')
    → (r : Refund) × (find_refund id db ≡ some r)
      × (is_requested r.status ≡ true)
      × (db' ≡ approved_db r id now db)
unfolding approve
approve_inv id now db db' h = elim (Option-cases (find_refund id db)) [
  | inl e ↦ ground arith
  | inr (r, e) ↦ elim (Bool-cases (is_requested r.status)) [
    | inl q ↦ (r, e, q, cc (approve_step id now db r e q))
    | inr q ↦ ground arith
  ]
]

-- The rows after a payment, and the voucher that it makes.
abbrev pub issued_voucher : Refund → ℕ → ReceiptMode → Db → PaymentVoucher
issued_voucher r id mode db = record {
  id = db.next_id;
  booking_id = r.booking_id;
  refund_id = some id;
  amount_paise = r.amount_paise;
  mode = mode;
  status = VoucherStatus.issued;
}

abbrev pub paid_db : Refund → ℕ → ReceiptMode → Db → Db
paid_db r id mode db = set_refund_status id RefundStatus.paid (record db {
  next_id = suc db.next_id;
  vouchers = db.vouchers ++ issued_voucher r id mode db ∷ [];
})

pub pay_step :
    (id : ℕ) (mode : ReceiptMode) (db : Db) (r : Refund)
    → find_refund id db ≡ some r
    → is_approved r.status ≡ true
    → pay id mode db ≡ ok (issued_voucher r id mode db, paid_db r id mode db)
unfolding pay
pay_step id mode db r e q = ground (arith, e, q)

-- The rows after the bounce of a voucher.
abbrev pub bounced_db : PaymentVoucher → ℕ → Db → Db
bounced_db v now db = reopen v.refund_id (
    set_voucher_status v.id VoucherStatus.bounced
      (after_rows (bounce_entries v (bounce_charge_of db.config) now) db))

pub bounce_step :
    (now : ℕ) (db : Db) (v : PaymentVoucher)
    → find_voucher v.id db ≡ some v
    → is_issued v.status ≡ true
    → voucher_bounced v.id now db ≡ ok (tt, bounced_db v now db)
unfolding voucher_bounced
bounce_step now db v e q =
    ground (arith, e, q, post_lem (bounce_entries v (bounce_charge_of db.config) now) db)

-- A status change finds the same refund again.
pub refund_updated :
    (id : ℕ) (status : RefundStatus) (db : Db) (r : Refund)
    → find_refund id db ≡ some r
    → find_refund id (set_refund_status id status db) ≡ some (record r { status = status })
refund_updated id status db r e =
    find?-update_where (λ x. x.id == id) (λ x. record x { status = status }) (λ x. refl) db.refunds
      e

approve_refused :
    (id now : ℕ) (db : Db) (r : Refund)
    → find_refund id db ≡ some r
    → is_requested r.status ≡ false
    → approve id now db ≡ err conflict
unfolding approve
approve_refused id now db r e q = ground (arith, e, q)

-- An approval that returns was of a refund that is REQUESTED and is APPROVED afterwards. The
-- refund's amount is debited to its booking, and no other balance moves. A second approval is
-- refused.
pub approve_effect :
    (id now : ℕ) (db db' : Db)
    → approve id now db ≡ ok (tt, db')
    → (r : Refund) × (find_refund id db ≡ some r)
      × (is_requested r.status ≡ true)
      × (find_refund id db' ≡ some (record r { status = RefundStatus.approved }))
      × ((b : ℕ)
          → balance_of b db'.ledger
            ≡ balance_of b db.ledger +ℤ (if r.booking_id == b then r.amount_paise else pos 0))
      × ((later : ℕ) → approve id later db' ≡ err conflict)
approve_effect id now db db' h =
    let (r, e, q, made) = approve_inv id now db db' h in
    let entry =
      entry_row db.next_id
        (plain_entry r.booking_id LedgerEntryType.refund_approved r.amount_paise now) in
    let again =
      refund_updated id RefundStatus.approved
        (after_rows
          (plain_entry r.booking_id LedgerEntryType.refund_approved r.amount_paise now ∷ []) db)
        r e in
    (
      r,
      e,
      q,
      rw made again,
      λ b. rw made (balance_of-snoc b db.ledger entry),
      λ later. rw made (approve_refused id later (approved_db r id now db) _ again refl),
    )
