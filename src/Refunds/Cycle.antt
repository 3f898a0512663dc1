-- ===== src/Refunds/Cycle.antt =====
-- Whole runs of apps/api/src/postsales/refund.service.ts: a refund that is approved, paid and
-- bounced, and two requests for the same money.
use openestate.Base.{
  ℕ, ◌<◌, ◌≡◌, refl, ap₂, ◌∙◌, arith, Bool, true, false, some, List, [], ◌∷◌, ◌==◌, ==_refl,
  if◌then◌else◌, find?-new, find?-update_where, ok, All, Bool-cases, inl, inr,
}
use openestate.Base.Int.{ℤ, pos, neg, ◌+ℤ◌, ltb_ℤ, int_laws}
use openestate.Database.{
  Refund, PaymentVoucher, RefundStatus, ReceiptMode, is_requested, Db, Tx, ◌>>=◌, ◌>>◌,
  LedgerEntryType,
}
use openestate.Ledger.{balance_of, entry_row}
use openestate.Ledger.Balance.{balance_of-append, balance_of-snoc, rows_from, after_rows}
use openestate.Refunds.{
  find_refund, find_voucher, plain_entry, approve, pay, voucher_bounced, bounce_charge_of,
  bounce_entries,
}
use openestate.Refunds.Lifecycle.{
  approved_db, approve_step, issued_voucher, paid_db, pay_step, bounced_db, bounce_step,
  refund_updated,
}

-- No voucher has the id that the next row gets.
abbrev pub VouchersBelow : Db → Type 0
VouchersBelow db = All (λ (v : PaymentVoucher). v.id < db.next_id) db.vouchers

below_new :
    (n m : ℕ) (vs : List PaymentVoucher)
    → n < m
    → All (λ (v : PaymentVoucher). v.id < n) vs
    → All (λ (v : PaymentVoucher). (v.id == m) ≡ false) vs
below_new n m [] h k = tt
below_new n m (v ∷ vs) h (k, ks) = (ground arith, below_new n m vs h ks)

-- What a bounce charges: nothing unless the configured charge is above zero.
abbrev pub surcharge : ℤ → ℤ
surcharge charge = if ltb_ℤ (pos 0) charge then charge else pos 0

balance_of-bounce :
    (b now id : ℕ) (v : PaymentVoucher) (charge : ℤ)
    → balance_of b (rows_from id (bounce_entries v charge now))
      ≡ (if v.booking_id == b then neg v.amount_paise +ℤ surcharge charge else pos 0)
balance_of-bounce b now id v charge = elim (Bool-cases (v.booking_id == b)) [
  | inl p ↦ elim (Bool-cases (ltb_ℤ (pos 0) charge)) [
    | inl q ↦ rw (p, q, p) (omega int_laws)
    | inr q ↦ rw (p, q) (omega int_laws)
  ]
  | inr p ↦ elim (Bool-cases (ltb_ℤ (pos 0) charge)) [
    | inl q ↦ rw (p, q, p) (omega int_laws)
    | inr q ↦ rw (p, q) (omega int_laws)
  ]
]

cycle_sum :
    (t : Bool) (x a c : ℤ)
    → x +ℤ (if t then a else pos 0) +ℤ (if t then neg a +ℤ c else pos 0)
      ≡ x +ℤ (if t then c else pos 0)
cycle_sum true x a c = omega int_laws
cycle_sum false x a c = omega int_laws

-- Approve, pay and bounce one refund.
abbrev pub approve_pay_bounce : ℕ → ℕ → ReceiptMode → ℕ → Tx (Unit {0})
approve_pay_bounce id now mode later = do
  approve id now
  v ← pay id mode
  voucher_bounced v.id later

-- A refund that is REQUESTED can be approved, paid, and its cheque can bounce. Afterwards it is
-- APPROVED again, so that it can be paid anew. The balance of its booking is back where it was
-- before the approval, but for the bounce charge, and every other balance is untouched.
pub approve_pay_bounce_effect :
    (id now later : ℕ) (mode : ReceiptMode) (db : Db) (r : Refund)
    → find_refund id db ≡ some r
    → is_requested r.status ≡ true
    → VouchersBelow db
    → (db' : Db) × (approve_pay_bounce id now mode later db ≡ ok (tt, db'))
      × (find_refund id db' ≡ some (record r { status = RefundStatus.approved }))
      × ((b : ℕ)
          → balance_of b db'.ledger
            ≡ balance_of b db.ledger
              +ℤ (if r.booking_id == b then surcharge (bounce_charge_of db.config) else pos 0))
approve_pay_bounce_effect id now later mode db r e q below =
    let r1 : Refund = record r { status = RefundStatus.approved } in
    let r2 : Refund = record r { status = RefundStatus.paid } in
    let db1 = approved_db r id now db in
    let e1 =
      refund_updated id RefundStatus.approved
        (after_rows
          (plain_entry r.booking_id LedgerEntryType.refund_approved r.amount_paise now ∷ []) db)
        r e in
    let v = issued_voucher r1 id mode db1 in
    let db2 = paid_db r1 id mode db1 in
    let e2 : find_refund id db2 ≡ some r2 =
      find?-update_where (λ x. x.id == id) (λ x. record x { status = RefundStatus.paid })
        (λ x. refl) db1.refunds e1 in
    let found : find_voucher v.id db2 ≡ some v =
      find?-new (λ x. x.id == v.id) db.vouchers v
        (below_new db.next_id db1.next_id db.vouchers (omega arith) below) (==_refl v.id) in
    let db3 = bounced_db v later db2 in
    let charge = bounce_charge_of db.config in
    let entry =
      entry_row db.next_id
        (plain_entry r.booking_id LedgerEntryType.refund_approved r.amount_paise now) in
    let e3 : find_refund id db3 ≡ some r1 = refund_updated id RefundStatus.approved db2 r2 e2 in
    (
      db3,
      rw (
        approve_step id now db r e q,
        ◌>>=◌,
        pay_step id mode db1 r1 e1 refl,
        bounce_step later db2 v found refl,
      ),
      e3,
      λ b.
          balance_of-append b db1.ledger (rows_from db2.next_id (bounce_entries v charge later))
          ∙ ap₂ ◌+ℤ◌ (balance_of-snoc b db.ledger entry)
              (balance_of-bounce b later db2.next_id v charge)
          ∙ cycle_sum (r.booking_id == b) (balance_of b db.ledger) r.amount_paise
              (surcharge charge),
    )
