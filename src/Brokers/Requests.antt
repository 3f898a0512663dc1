-- ===== src/Brokers/Requests.antt =====
-- apps/api/src/commission/commission-payment.service.ts: a payment of commission is requested, and
-- approved or rejected. None of these touches the ledger.
use openestate.Base.{
  ℕ, suc, not, none, [], ◌∷◌, ◌++◌, ◌==◌, update_where, Result, ok, not_found, bad_request,
  conflict, ◌>>=◌, or_throw, throw_if,
}
use openestate.Base.Int.{ℤ, ltb_ℤ}
use openestate.Brokers.Rows.{
  BrokerRows, CommissionPayment, CommissionPaymentStatus, is_requested, find_broker, find_payment,
  balance_in_tx,
}

abbrev pub new_payment : ℕ → ℕ → ℤ → CommissionPayment
new_payment id broker_id amount_paise = record {
  id = id;
  broker_id = broker_id;
  amount_paise = amount_paise;
  status = CommissionPaymentStatus.requested;
  mode = none;
  paid_at = none;
}

pub request : ℕ → ℤ → BrokerRows → Result BrokerRows
unfolding balance_in_tx
request broker_id amount_paise rows = do
  _ ← or_throw (find_broker broker_id rows) not_found
  _ ← throw_if (ltb_ℤ (balance_in_tx broker_id rows) amount_paise) bad_request
  ok (record rows {
    next_id = suc rows.next_id;
    payments = rows.payments ++ new_payment rows.next_id broker_id amount_paise ∷ [];
  })

-- `tx.commissionPayment.update({ where: { id }, data })`
abbrev pub update_payment : ℕ → (CommissionPayment → CommissionPayment) → BrokerRows → BrokerRows
update_payment id f rows = record rows { payments = update_where (λ p. p.id == id) f rows.payments }

abbrev pub with_status : CommissionPaymentStatus → CommissionPayment → CommissionPayment
with_status status p = record p { status = status }

unfoldable pub approve : ℕ → BrokerRows → Result BrokerRows
approve payment_id rows = do
  payment ← or_throw (find_payment payment_id rows) not_found
  _ ← throw_if (not (is_requested payment.status)) conflict
  ok (update_payment payment_id (with_status CommissionPaymentStatus.approved) rows)

pub reject : ℕ → BrokerRows → Result BrokerRows
reject payment_id rows = do
  payment ← or_throw (find_payment payment_id rows) not_found
  _ ← throw_if (not (is_requested payment.status)) conflict
  ok (update_payment payment_id (with_status CommissionPaymentStatus.rejected) rows)
