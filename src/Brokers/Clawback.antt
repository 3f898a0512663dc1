-- ===== src/Brokers/Clawback.antt =====
-- apps/api/src/commission/commission.service.ts, `handleBookingCancelled`: the commission of a
-- cancelled booking is taken back. Texts of reasons are left out: `has_reason` says whether there
-- is one.
use openestate.Base.{
  throw_if, ℕ, Bool, true, not, ◌&&◌, Option, none, some, List, if◌then◌else◌, Result, ok,
  bad_request, ◌>>=◌,
}
use openestate.Base.Int.{ℤ, pos, neg, ltb_ℤ, eqb_ℤ}
use openestate.Brokers.Rows.{
  BrokerRows, CommissionConfig, ClawbackPolicy, recover, write_off, CommissionEntry,
  CommissionEntryType, clawback_reversal, clawback_recovery, clawback_writeoff, is_payment,
  is_writeoff, EntryData, create_entry, sum_where, of_booking,
}

-- `config?.commissionClawbackPolicy ?? RECOVER`
abbrev pub policy_of : Option CommissionConfig → ClawbackPolicy
policy_of none = recover
policy_of (some c) = c.clawback_policy

abbrev pub clawback_entry : ℕ → ℕ → CommissionEntryType → ℤ → EntryData
clawback_entry broker_id booking_id entry_type amount = record {
  broker_id = broker_id;
  booking_id = booking_id;
  entry_type = entry_type;
  signed_amount_paise = amount;
  milestone_percent = none;
}

unfoldable pub post_clawback :
    ℕ → ℕ → ℕ → CommissionEntryType → ℤ → Bool → BrokerRows → Result BrokerRows
unfolding create_entry
post_clawback now broker_id booking_id entry_type amount has_reason rows = do
  _ ← throw_if (is_writeoff entry_type && not has_reason) bad_request
  ok (create_entry now (clawback_entry broker_id booking_id entry_type amount) rows)

-- What was disbursed: the payments, with their signs turned.
abbrev pub net_paid : ℕ → List CommissionEntry → ℤ
net_paid booking_id entries =
    neg (sum_where (λ e. of_booking booking_id e && is_payment e.entry_type) entries)

-- `if (outstandingForBooking !== 0n)`
unfoldable pub reverse_unearned : ℕ → ℕ → ℕ → ℤ → BrokerRows → Result BrokerRows
unfolding post_clawback
reverse_unearned now broker_id booking_id outstanding rows =
    if eqb_ℤ outstanding (pos 0)
    then ok rows
    else post_clawback now broker_id booking_id clawback_reversal (neg outstanding) true rows

-- `if (netPaid > 0n)`
unfoldable pub recover_paid : ℕ → ℕ → ℕ → ClawbackPolicy → ℤ → BrokerRows → Result BrokerRows
unfolding post_clawback
recover_paid now broker_id booking_id policy paid rows =
    if ltb_ℤ (pos 0) paid
    then elim policy [
      | write_off ↦ post_clawback now broker_id booking_id clawback_writeoff (pos 0) true rows
      | recover ↦ post_clawback now broker_id booking_id clawback_recovery (neg paid) true rows
    ]
    else ok rows

unfoldable pub handle_booking_cancelled : ℕ → ℕ → ℕ → BrokerRows → Result BrokerRows
unfolding reverse_unearned recover_paid
handle_booking_cancelled now booking_id broker_id rows = do
  let outstanding = sum_where (of_booking booking_id) rows.entries
  let paid = net_paid booking_id rows.entries
  reversed ← reverse_unearned now broker_id booking_id outstanding rows
  recover_paid now broker_id booking_id (policy_of rows.config) paid reversed
