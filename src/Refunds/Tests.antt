-- ===== src/Refunds/Tests.antt =====
-- The theorems on refunds at a booking that is overpaid by 400 paise.
use openestate.Base.{
  ℕ, ◌≡◌, refl, true, arith, ok, err, conflict, bad_request, none, some, ◌==◌, if◌then◌else◌,
}
use openestate.Base.Int.{pos, neg, ◌+ℤ◌}
use openestate.Database.{Db, Refund, RefundStatus, cash, is_requested}
use openestate.Ledger.{balance_of, post}
use openestate.Refunds.{find_refund, request, approve}
use openestate.Refunds.Lifecycle.{approved_db, approve_effect}
use openestate.Refunds.Cycle.{approve_pay_bounce, approve_pay_bounce_effect, surcharge}
use openestate.Refunds.Requests.{
  requested_refund, requested_db, request_twice, request_twice_overdraws,
}
use openestate.Samples.{overpaid_db, open_refund, booking_7}

too_much : request 7 (pos 401) none overpaid_db ≡ err bad_request
unfolding request neg ◌+ℤ◌
too_much = refl

abbrev approved_sample : Db
approved_sample = approved_db open_refund 21 5 overpaid_db

approved : approve 21 5 overpaid_db ≡ ok (tt, approved_sample)
unfolding approve post
approved = refl

approve_effect_example :
    (r : Refund) × (find_refund 21 overpaid_db ≡ some r)
    × (is_requested r.status ≡ true)
    × (find_refund 21 approved_sample ≡ some (record r { status = RefundStatus.approved }))
    × ((b : ℕ)
        → balance_of b approved_sample.ledger
          ≡ balance_of b overpaid_db.ledger
            +ℤ (if r.booking_id == b then r.amount_paise else pos 0))
    × ((later : ℕ) → approve 21 later approved_sample ≡ err conflict)
approve_effect_example = approve_effect 21 5 overpaid_db approved_sample approved

approve_pay_bounce_effect_example :
    (db' : Db) × (approve_pay_bounce 21 5 cash 9 overpaid_db ≡ ok (tt, db'))
    × (find_refund 21 db' ≡ some (record open_refund { status = RefundStatus.approved }))
    × ((b : ℕ)
        → balance_of b db'.ledger
          ≡ balance_of b overpaid_db.ledger +ℤ (if 7 == b then surcharge (pos 250) else pos 0))
approve_pay_bounce_effect_example =
    approve_pay_bounce_effect 21 5 9 cash overpaid_db open_refund refl refl tt

abbrev requested_sample : Db
requested_sample = requested_db 7 (pos 400) none overpaid_db

abbrev new_refund : Refund
new_refund = requested_refund 7 (pos 400) none overpaid_db

request_twice_overdraws_example :
    (db' : Db) × (request_twice 7 (pos 400) 5 overpaid_db ≡ ok (tt, db'))
    × (balance_of 7 db'.ledger ≡ pos 400)
unfolding ◌+ℤ◌
request_twice_overdraws_example =
    request_twice_overdraws 7 399 5 overpaid_db booking_7 refl refl (omega arith)
