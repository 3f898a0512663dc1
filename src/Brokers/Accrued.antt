-- ===== src/Brokers/Accrued.antt =====
-- `accrueForBooking` (apps/api/src/commission/commission.service.ts): a second accrual adds nothing.
use openestate.Base.{◌≡◌}
use openestate.Brokers.Rows.{BrokerRows}

-- The rows that decide an accrual, but for the ledger.
abbrev SameTerms : BrokerRows → BrokerRows → Type 0
SameTerms a rows =
    (a.snapshots ≡ rows.snapshots) × (a.rules ≡ rows.rules) × (a.config ≡ rows.config)
