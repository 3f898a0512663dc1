-- ===== src/Reversals/Certificate.antt =====
-- `recordTdsCertificate` of apps/api/src/postsales/receipt.service.ts: the certificate of a deduction
-- clears what stayed receivable, once.
use openestate.Base.{
  ℕ, suc, ◌≡◌, arith, Bool, true, false, some, List, [], ◌∷◌, ◌++◌, ◌==◌, ==_refl, if◌then◌else◌,
  ok, err, conflict, any, Bool-cases, Option-cases, inl, inr,
}
use openestate.Base.Int.{pos, neg, ◌+ℤ◌}
use openestate.Database.{TdsCertificate, TdsDeduction, Db, ◌>>=◌}
use openestate.Ledger.{balance_of, entry_row, append_entry, post_one}
use openestate.Ledger.Balance.{balance_of-snoc}
use openestate.Reversals.{find_deduction, certificate_entry, record_tds_certificate}

abbrev pub has_certificate : ℕ → Db → Bool
has_certificate id db = any (λ (c : TdsCertificate). c.tds_deduction_id == id) db.tds_certificates

abbrev pub certified_db : ℕ → ℕ → TdsDeduction → Db → Db
certified_db id date d db =
    append_entry (entry_row db.next_id (certificate_entry d date)) (record db {
      next_id = suc db.next_id;
      tds_certificates =
          db.tds_certificates
          ++ record {
            tds_deduction_id = id;
            certificate_date = date;
            adjustment_ledger_entry_id = db.next_id;
          }
            ∷ [];
    })

any-last :
    {A : Type 0} (p : A → Bool) (xs : List A) (y : A) → p y ≡ true → any p (xs ++ y ∷ []) ≡ true
any-last p [] y h = rw (any, h)
any-last p (x ∷ xs) y h = elim (Bool-cases (p x)) [
  | inl c ↦ rw (any, c)
  | inr c ↦ rw (any, c) (any-last p xs y h)
]

record_tds_certificate_by :
    (id date : ℕ) (db : Db) (d : TdsDeduction)
    → find_deduction id db ≡ some d
    → has_certificate id db ≡ false
    → record_tds_certificate id date db ≡ ok (tt, certified_db id date d db)
unfolding record_tds_certificate post_one
record_tds_certificate_by id date db d e c = rw (e, ◌>>=◌, c)

record_tds_certificate_inv :
    (id date : ℕ) (db db' : Db)
    → record_tds_certificate id date db ≡ ok (tt, db')
    → (d : TdsDeduction) × (find_deduction id db ≡ some d)
      × (has_certificate id db ≡ false)
      × (db' ≡ certified_db id date d db)
unfolding record_tds_certificate
record_tds_certificate_inv id date db db' h = elim (Option-cases (find_deduction id db)) [
  | inl e ↦ ground (arith, e)
  | inr (d, e) ↦ elim (Bool-cases (has_certificate id db)) [
    | inl c ↦ ground (arith, e, c)
    | inr c ↦ let by = record_tds_certificate_by id date db d e c in (d, e, c, cc)
  ]
]

-- A deduction that has a certificate gets no other.
record_tds_certificate_refused :
    (id date : ℕ) (db : Db) (d : TdsDeduction)
    → find_deduction id db ≡ some d
    → has_certificate id db ≡ true
    → record_tds_certificate id date db ≡ err conflict
unfolding record_tds_certificate
record_tds_certificate_refused id date db d e c = ground (arith, e, c)

-- A certificate that is recorded is of a deduction that had none. It credits the deducted amount
-- to the deduction's booking and moves no other balance, and a second certificate of the same
-- deduction is refused.
pub record_tds_certificate_effect :
    (id date : ℕ) (db db' : Db)
    → record_tds_certificate id date db ≡ ok (tt, db')
    → (d : TdsDeduction) × (find_deduction id db ≡ some d)
      × (has_certificate id db ≡ false)
      × ((b : ℕ)
          → balance_of b db'.ledger
            ≡ balance_of b db.ledger +ℤ (if d.booking_id == b then neg d.deducted_paise else pos 0))
      × ((later : ℕ) → record_tds_certificate id later db' ≡ err conflict)
record_tds_certificate_effect id date db db' h =
    let (d, e, c, made) = record_tds_certificate_inv id date db db' h in
    let entry = entry_row db.next_id (certificate_entry d date) in
    (
      d,
      e,
      c,
      λ b. rw made (balance_of-snoc b db.ledger entry),
      λ later.
          let again : has_certificate id db' ≡ true = rw made (
            any-last (λ (c : TdsCertificate). c.tds_deduction_id == id) db.tds_certificates
              (record {
                tds_deduction_id = id;
                certificate_date = date;
                adjustment_ledger_entry_id = db.next_id;
              })
              (==_refl id)) in
          record_tds_certificate_refused id later db' d (rw made e) again,
    )
