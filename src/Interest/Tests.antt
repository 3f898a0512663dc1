-- ===== src/Interest/Tests.antt =====
-- The theorem on interest at booking 7, a year after its installments were due, at 18% a year.
use openestate.Base.{
  ℕ, ◌+◌, ◌*◌, ◌≡◌, refl, false, some, [], ◌∷◌, ◌==◌, if◌then◌else◌, ok, err, Result,
}
use openestate.Base.Int.{ℤ, pos, neg, ◌+ℤ◌, ◌-ℤ◌, ◌*ℤ◌, ◌≤ℤ◌}
use openestate.Database.{Booking, InterestRule, Db}
use openestate.Interest.{
  AccrualResult, accrual_delta, accrue_one, accrue_all, accrue_by, accrue_for_booking,
}
use openestate.Interest.Again.{accrue_again}
use openestate.Ledger.{balance_of, post_one}
use openestate.Money.{round_quot}
use openestate.Samples.{booked_db, booking_7}

-- 18% of 5000 paise for 365 days, and for 73.
fixtures :
    (accrual_delta (pos 5000) 1800 365 ≡ pos 900) × (accrual_delta (pos 5000) 1800 73 ≡ pos 180)
unfolding round_quot ◌*ℤ◌
fixtures = (refl, refl)

abbrev rule_18 : InterestRule
rule_18 = record { id = 40; is_compound = false; rate_percent = 1800 }

abbrev late_booking : Booking
late_booking = record booking_7 { interest_rule_id = some 40 }

abbrev late_db : Db
late_db = record booked_db { bookings = late_booking ∷ []; interest_rules = rule_18 ∷ [] }

abbrev a_year_later : ℕ
a_year_later = 1_700_000_000_000 + 365 * 86_400_000

abbrev posted_of : Result (AccrualResult × Db) → ℤ
posted_of (err e) = pos 0
posted_of (ok (r, db')) = r.posted_paise

-- 900 paise on the first installment and 720 on the second.
a_year : posted_of (accrue_for_booking 7 a_year_later late_db) ≡ pos 1620
unfolding accrue_for_booking accrue_by accrue_all accrue_one post_one round_quot ◌*ℤ◌ ◌-ℤ◌ ◌+ℤ◌ neg
a_year = refl

accrue_again_example :
    (r : AccrualResult) × (db' : Db) × (accrue_for_booking 7 a_year_later late_db ≡ ok (r, db'))
    × (accrue_for_booking 7 a_year_later db'
        ≡ ok (record { posted_paise = pos 0; installments_accrued = 0 }, db'))
    × (pos 0 ≤ℤ r.posted_paise)
    × ((k : ℕ)
        → balance_of k db'.ledger
          ≡ balance_of k late_db.ledger +ℤ (if 7 == k then r.posted_paise else pos 0))
accrue_again_example = accrue_again 7 a_year_later late_db late_booking refl
