-- ===== src/Interest/Again.antt =====
-- `accrueForBooking` of apps/api/src/postsales/interest.service.ts: it returns, posts what it says,
-- and posts nothing when it runs again for the same date.
use openestate.Base.{
  ℕ, suc, ◌≡◌, refl, ap, ◌∙◌, true, false, Option, none, some, List, [], ◌∷◌, ◌++◌, ◌==◌, ==_refl,
  if◌then◌else◌, select, ok, All, find?, Bool-cases, inl, inr,
}
use openestate.Base.Int.{pos, ◌+ℤ◌, ◌≤ℤ◌}
use openestate.Database.{Booking, Installment, InterestRule, InterestAccrual, Db, ◌>>=◌}
use openestate.Ledger.{balance_of, entry_row, append_entry, post_one}
use openestate.Ledger.Balance.{balance_of-snoc}
use openestate.Refunds.{find_booking}
use openestate.Interest.{
  AccrualResult, prior_accruals, delta_for, interest_entry, accrual_row, accrue_one, accrue_all,
  accrue_by, find_rule, is_overdue, accrue_for_booking,
}
use openestate.Interest.Cursor.{accrues_more, due_now, due_now-own, due_now-append}
use openestate.Interest.Accrual.{nothing, Accrued, stays, both, sum_results}

module _ (b as_of : ℕ) (rule : InterestRule) where
  -- The rows after one accrual.
  abbrev accrued_db : Installment → Db → Db
  accrued_db i db =
      let prior = prior_accruals i.id db.interest_accruals in
      append_entry
        (entry_row db.next_id (interest_entry b i.id (delta_for rule as_of i prior) as_of))
        (record db {
          next_id = suc db.next_id;
          interest_accruals =
              db.interest_accruals ++ accrual_row b rule as_of i prior db.next_id ∷ [];
        })

  abbrev one_result : Installment → Db → AccrualResult
  one_result i db = record {
    posted_paise = delta_for rule as_of i (prior_accruals i.id db.interest_accruals);
    installments_accrued = 1;
  }

  accrue_one_due :
      (i : Installment) (db : Db)
      → due_now rule as_of i db.interest_accruals ≡ true
      → accrue_one b rule as_of i db ≡ ok (one_result i db, accrued_db i db)
  unfolding accrue_one post_one
  accrue_one_due i db e = rw e

  accrue_one_quiet :
      (i : Installment) (db : Db)
      → due_now rule as_of i db.interest_accruals ≡ false
      → accrue_one b rule as_of i db ≡ ok (nothing, db)
  unfolding accrue_one
  accrue_one_quiet i db e = rw e

  accrued_db-Accrued :
      (i : Installment) (db : Db)
      → due_now rule as_of i db.interest_accruals ≡ true
      → Accrued b as_of (one_result i db) db (accrued_db i db)
  accrued_db-Accrued i db e =
      let prior = prior_accruals i.id db.interest_accruals in
      record {
        rows = accrual_row b rule as_of i prior db.next_id ∷ [];
        appended = refl;
        at_date = (refl, tt);
        same_installments = refl;
        same_bookings = refl;
        same_rules = refl;
        not_negative = accrues_more rule as_of i prior e;
        balances = λ k.
            balance_of-snoc k db.ledger
              (entry_row db.next_id (interest_entry b i.id (delta_for rule as_of i prior) as_of));
      }

  -- One round returns, and the installment has nothing more to accrue.
  accrue_one_returns :
      (i : Installment) (db : Db)
      → (r : AccrualResult) × (db' : Db) × (accrue_one b rule as_of i db ≡ ok (r, db'))
        × Accrued b as_of r db db'
        × (due_now rule as_of i db'.interest_accruals ≡ false)
  accrue_one_returns i db = elim (Bool-cases (due_now rule as_of i db.interest_accruals)) [
    | inl e ↦
        let prior = prior_accruals i.id db.interest_accruals in
        (
          one_result i db,
          accrued_db i db,
          accrue_one_due i db e,
          accrued_db-Accrued i db e,
          due_now-own rule as_of i db.interest_accruals
              (accrual_row b rule as_of i prior db.next_id) (==_refl i.id) refl,
        )
    | inr e ↦ (nothing, db, accrue_one_quiet i db e, stays b as_of db, e)
  ]

  abbrev Quiet : List InterestAccrual → Installment → Type 0
  Quiet accruals i = due_now rule as_of i accruals ≡ false

  -- What is quiet stays so.
  Accrued-Quiet :
      (r : AccrualResult) (db db' : Db) (i : Installment)
      → Accrued b as_of r db db'
      → Quiet db.interest_accruals i
      → Quiet db'.interest_accruals i
  Accrued-Quiet r db db' i h q =
      ap (due_now rule as_of i) h.appended
      ∙ due_now-append rule as_of i db.interest_accruals h.rows h.at_date q

  accrue_all_returns :
      (is : List Installment) (db : Db)
      → (r : AccrualResult) × (db' : Db) × (accrue_all b rule as_of is db ≡ ok (r, db'))
        × Accrued b as_of r db db'
        × All (Quiet db'.interest_accruals) is
  unfolding accrue_all
  accrue_all_returns [] db = (nothing, db, refl, stays b as_of db, tt)
  accrue_all_returns (i ∷ is) db =
      let (r, db1, e, h, q) = accrue_one_returns i db in
      let (s, db2, e', h', qs) = accrue_all_returns is db1 in
      (
        sum_results r s,
        db2,
        rw (e, ◌>>=◌, e'),
        both b as_of r s db db1 db2 h h',
        (Accrued-Quiet s db1 db2 i h' q, qs),
      )

  accrue_all-Quiet :
      (is : List Installment) (db : Db)
      → All (Quiet db.interest_accruals) is
      → accrue_all b rule as_of is db ≡ ok (nothing, db)
  unfolding accrue_all ◌+ℤ◌
  accrue_all-Quiet [] db h = refl
  accrue_all-Quiet (i ∷ is) db (q, qs) =
      rw (accrue_one_quiet i db q, ◌>>=◌, accrue_all-Quiet is db qs)

-- The run for a booking, whatever rule it has: it returns, and a second run finds nothing.
accrue_by_returns :
    (b as_of : ℕ) (rule : Option InterestRule) (db : Db)
    → (r : AccrualResult) × (db' : Db) × (accrue_by b as_of rule db ≡ ok (r, db'))
      × Accrued b as_of r db db'
      × (accrue_by b as_of rule db' ≡ ok (nothing, db'))
unfolding accrue_by
accrue_by_returns b as_of none db = (nothing, db, refl, stays b as_of db, refl)
accrue_by_returns b as_of (some rule) db =
    let is = select (is_overdue b as_of) db.installments in
    let (r, db1, e, h, quiet) = accrue_all_returns b as_of rule is db in
    (
      r,
      db1,
      e,
      h,
      ap (λ (xs : List Installment). accrue_all b rule as_of (select (is_overdue b as_of) xs) db1)
            h.same_installments
          ∙ accrue_all-Quiet b as_of rule is db1 quiet,
    )

accrue_for_booking_by :
    (b as_of : ℕ) (db : Db) (booking : Booking)
    → find_booking b db ≡ some booking
    → accrue_for_booking b as_of db ≡ accrue_by b as_of (find_rule booking.interest_rule_id db) db
unfolding accrue_for_booking
accrue_for_booking_by b as_of db booking e = rw (e, ◌>>=◌)

find_rule-same :
    (id : Option ℕ) (db db' : Db)
    → db'.interest_rules ≡ db.interest_rules
    → find_rule id db' ≡ find_rule id db
find_rule-same none db db' h = refl
find_rule-same (some id) db db' h = ap (find? (λ (r : InterestRule). r.id == id)) h

-- An accrual for a booking that exists returns, and running it again for the same date posts
-- nothing and leaves the rows as they are. What it posted is zero or more, is added to the
-- balance of the booking, and no other balance moves.
pub accrue_again :
    (b as_of : ℕ) (db : Db) (booking : Booking)
    → find_booking b db ≡ some booking
    → (r : AccrualResult) × (db' : Db) × (accrue_for_booking b as_of db ≡ ok (r, db'))
      × (accrue_for_booking b as_of db'
          ≡ ok (record { posted_paise = pos 0; installments_accrued = 0 }, db'))
      × (pos 0 ≤ℤ r.posted_paise)
      × ((k : ℕ)
          → balance_of k db'.ledger
            ≡ balance_of k db.ledger +ℤ (if b == k then r.posted_paise else pos 0))
accrue_again b as_of db booking e =
    let rule = find_rule booking.interest_rule_id db in
    let (r, db', first, h, again) = accrue_by_returns b as_of rule db in
    let still : find_booking b db' ≡ some booking =
      ap (find? (λ (x : Booking). x.id == b)) h.same_bookings ∙ e in
    (
      r,
      db',
      accrue_for_booking_by b as_of db booking e ∙ first,
      accrue_for_booking_by b as_of db' booking still
          ∙ ap (λ (o : Option InterestRule). accrue_by b as_of o db')
              (find_rule-same booking.interest_rule_id db db' h.same_rules)
          ∙ again,
      h.not_negative,
      h.balances,
    )
