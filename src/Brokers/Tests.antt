-- ===== src/Brokers/Tests.antt =====
-- A broker with two bookings: the attribution of a payment, the tax on it, a clawback, and the
-- theorems at these rows.
use openestate.Base.{
  ℕ, ◌≡◌, ◌<◌, refl, arith, true, false, not, ◌&&◌, some, ◌==◌, if◌then◌else◌, ok, err, conflict,
}
use openestate.Base.Int.{pos, negsuc, neg, ◌+ℤ◌, ◌-ℤ◌, ◌*ℤ◌, ◌≤ℤ◌, pos_part, neg_part}
use openestate.Money.{percent_of, round_quot, allocate}
use openestate.Cancellations.{cancel}
use openestate.Cancellations.Samples.{
  booking_with_broker, brokered_db, plain_cancellation, brokered_cancellation,
  cancelled_brokered_db, cancel_brokered,
}
use openestate.Brokers.Rows.{
  BrokerRows, CommissionPayment, is_approved, find_payment, find_broker, balance, create_entry,
  sum_where, of_booking, of_both,
}
use openestate.Brokers.Requests.{approve}
use openestate.Brokers.Attribution.{attribute, outstanding_bookings, by_booking, add_entry}
use openestate.Brokers.Payments.{pay, with_payment, tds_shares, post_shares, post_share}
use openestate.Brokers.Paid.{pay_effect, pay_returns}
use openestate.Brokers.Clawback.{
  policy_of, net_paid, handle_booking_cancelled, reverse_unearned, recover_paid, post_clawback,
}
use openestate.Brokers.Noc.{
  noc_approved, is_inactive, assert_approved_or_auto_approve, cancel_booking,
}
use openestate.Brokers.Clawed.{recovered, handle_booking_cancelled_effect, cancel_booking_effect}
use openestate.Brokers.Samples.{
  payment_9, rows_5, taxed_db, by_neft, paid_5, owing_5, paid_owing_5, clawed_5, reversed_5,
}

paid_neft : pay 9 40 by_neft taxed_db rows_5 ≡ ok paid_5
unfolding pay attribute outstanding_bookings by_booking add_entry tds_shares post_shares post_share
    create_entry allocate percent_of round_quot neg ◌+ℤ◌ ◌-ℤ◌ ◌*ℤ◌
paid_neft = refl

pay_effect_example :
    (payment : CommissionPayment) × (find_payment 9 rows_5 ≡ some payment)
    × (is_approved payment.status ≡ true)
    × (0 < pos_part payment.amount_paise)
    × (find_payment 9 paid_5 ≡ some (with_payment by_neft payment))
    × ((x : ℕ)
        → balance x paid_5
          ≡ balance x rows_5 -ℤ (if payment.broker_id == x then payment.amount_paise else pos 0))
    × ((x b : ℕ)
        → (neg_part (sum_where (of_both x b) paid_5.entries)
            ≡ neg_part (sum_where (of_both x b) rows_5.entries))
          × (sum_where (of_both x b) paid_5.entries ≤ℤ sum_where (of_both x b) rows_5.entries))
pay_effect_example = pay_effect 9 40 by_neft taxed_db rows_5 paid_5 paid_neft

covered_9 : payment_9.amount_paise ≤ℤ balance 5 rows_5
unfolding balance ◌+ℤ◌
covered_9 = omega arith

pay_returns_example : (rows' : BrokerRows) × (pay 9 40 by_neft taxed_db rows_5 ≡ ok rows')
pay_returns_example =
    pay_returns 9 40 by_neft taxed_db rows_5 payment_9 refl refl (omega arith) covered_9

paid_though_owing : pay 9 40 by_neft brokered_db owing_5 ≡ ok paid_owing_5
unfolding pay attribute outstanding_bookings by_booking add_entry tds_shares post_shares post_share
    create_entry neg ◌+ℤ◌ ◌-ℤ◌
paid_though_owing = refl

owing_balances : (balance 5 owing_5 ≡ negsuc 449) × (balance 5 paid_owing_5 ≡ negsuc 949)
unfolding balance ◌+ℤ◌
owing_balances = (refl, refl)

-- A payment is not approved twice.
approved_twice : approve 9 rows_5 ≡ err conflict
unfolding approve
approved_twice = refl

clawed : handle_booking_cancelled 40 7 5 paid_5 ≡ ok clawed_5
unfolding handle_booking_cancelled reverse_unearned recover_paid post_clawback create_entry neg ◌+ℤ◌
    ◌-ℤ◌
clawed = refl

handle_booking_cancelled_effect_example :
    (rows' : BrokerRows) × (handle_booking_cancelled 40 7 5 paid_5 ≡ ok rows')
    × ((c : ℕ)
        → sum_where (of_booking c) rows'.entries ≡ (
            if 7 == c
            then recovered (policy_of paid_5.config) (net_paid 7 paid_5.entries)
            else sum_where (of_booking c) paid_5.entries))
    × (net_paid 7 rows'.entries ≡ net_paid 7 paid_5.entries)
    × (rows'.nocs ≡ paid_5.nocs)
handle_booking_cancelled_effect_example = handle_booking_cancelled_effect 40 7 5 paid_5

-- The recovered amount is below zero.
recovered_950 : recovered (policy_of paid_5.config) (net_paid 7 paid_5.entries) ≡ negsuc 949
unfolding neg ◌+ℤ◌
recovered_950 = refl

cancelled_whole :
    cancel_booking 7 plain_cancellation 5 brokered_db rows_5
    ≡ ok (brokered_cancellation, cancelled_brokered_db, reversed_5)
unfolding cancel_booking assert_approved_or_auto_approve handle_booking_cancelled reverse_unearned
    recover_paid post_clawback create_entry neg ◌+ℤ◌ ◌-ℤ◌
cancelled_whole = rw cancel_brokered

cancel_booking_effect_example :
    (cancel 7 plain_cancellation 5 brokered_db ≡ ok (brokered_cancellation, cancelled_brokered_db))
    × ((not (noc_approved 7 rows_5) && not (is_inactive (find_broker 5 rows_5))) ≡ false)
    × (noc_approved 7 reversed_5 ≡ true)
    × (sum_where (of_booking 7) reversed_5.entries
        ≡ recovered (policy_of rows_5.config) (net_paid 7 rows_5.entries))
cancel_booking_effect_example =
    cancel_booking_effect 7 5 5 plain_cancellation brokered_db cancelled_brokered_db rows_5
      reversed_5 booking_with_broker brokered_cancellation refl refl cancelled_whole
