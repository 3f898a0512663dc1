-- ===== src/Interest/Accrual.antt =====
-- `accrueForBooking` of apps/api/src/postsales/interest.service.ts: it returns, posts what it says,
-- and posts nothing when it runs again for the same date.
use openestate.Base.{
  ℕ, ◌+◌, ◌≡◌, refl, sym, ap, ◌∙◌, Bool, true, false, List, [], ◌++◌, ◌==◌, if◌then◌else◌, All,
  All-append, append_assoc, append-nil,
}
use openestate.Base.Int.{ℤ, pos, ◌+ℤ◌, ◌≤ℤ◌, int_laws}
use openestate.Database.{InterestAccrual, Db}
use openestate.Ledger.{balance_of}
use openestate.Interest.{AccrualResult}

abbrev pub nothing : AccrualResult
nothing = record { posted_paise = pos 0; installments_accrued = 0 }

abbrev pub sum_results : AccrualResult → AccrualResult → AccrualResult
sum_results r s = record {
  posted_paise = r.posted_paise +ℤ s.posted_paise;
  installments_accrued = r.installments_accrued + s.installments_accrued;
}

module _ (b as_of : ℕ) where
  -- From one state of the rows to another, a result was posted and accruals up to the date added.
  pub record Accrued (r : AccrualResult) (db db' : Db) : Type 0 where
    pub rows : List InterestAccrual
    pub appended : db'.interest_accruals ≡ db.interest_accruals ++ rows
    pub at_date : All (λ (a : InterestAccrual). a.period_end ≡ as_of) rows
    pub same_installments : db'.installments ≡ db.installments
    pub same_bookings : db'.bookings ≡ db.bookings
    pub same_rules : db'.interest_rules ≡ db.interest_rules
    pub not_negative : pos 0 ≤ℤ r.posted_paise
    pub balances :
        (k : ℕ)
        → balance_of k db'.ledger
          ≡ balance_of k db.ledger +ℤ (if b == k then r.posted_paise else pos 0)

  no_change : (k : Bool) (x : ℤ) → x ≡ x +ℤ (if k then pos 0 else pos 0)
  no_change true x = omega int_laws
  no_change false x = omega int_laws

  pub stays : (db : Db) → Accrued nothing db db
  stays db = record {
    rows = [];
    appended = sym (append-nil db.interest_accruals);
    at_date = tt;
    same_installments = refl;
    same_bookings = refl;
    same_rules = refl;
    not_negative = omega int_laws;
    balances = λ k. no_change (b == k) (balance_of k db.ledger);
  }

  added :
      (k : Bool) (x x1 x2 p q : ℤ)
      → x1 ≡ x +ℤ (if k then p else pos 0)
      → x2 ≡ x1 +ℤ (if k then q else pos 0)
      → x2 ≡ x +ℤ (if k then p +ℤ q else pos 0)
  added true x x1 x2 p q h h' = rw (h', h) (omega int_laws)
  added false x x1 x2 p q h h' = rw (h', h) (omega int_laws)

  pub both :
      (r s : AccrualResult) (db db1 db2 : Db)
      → Accrued r db db1
      → Accrued s db1 db2
      → Accrued (sum_results r s) db db2
  both r s db db1 db2 h h' = record {
    rows = h.rows ++ h'.rows;
    appended =
        h'.appended
        ∙ ap (λ xs. xs ++ h'.rows) h.appended
        ∙ append_assoc db.interest_accruals h.rows h'.rows;
    at_date =
        All-append (λ (a : InterestAccrual). a.period_end ≡ as_of) h.rows h'.rows h.at_date
          h'.at_date;
    same_installments = h'.same_installments ∙ h.same_installments;
    same_bookings = h'.same_bookings ∙ h.same_bookings;
    same_rules = h'.same_rules ∙ h.same_rules;
    not_negative = omega (int_laws, h.not_negative, h'.not_negative);
    balances = λ k.
        added (b == k) (balance_of k db.ledger) (balance_of k db1.ledger) (balance_of k db2.ledger)
          r.posted_paise s.posted_paise (h.balances k) (h'.balances k);
  }
