-- ===== src/Brokers/Accrual.antt =====
-- apps/api/src/commission/commission.service.ts, `accrueForBooking`: the commission of a booking is
-- computed once, and enters the ledger on booking or milestone by milestone. A unit's project is
-- looked up by `project_of`; `none` is no unit. A share of the collection is compared in
-- hundredths of a percent. The schema keeps milestones ascending.
use openestate.Base.{
  ℕ, suc, ◌-◌, ◌*◌, ◌/◌, Bool, true, false, ◌&&◌, Option, none, some, List, [], ◌∷◌, ◌++◌, ◌==◌,
  if◌then◌else◌, find?, any, Result, ok, not_found, bad_request, ◌>>=◌, or_throw,
}
use openestate.Base.Int.{ℤ, pos, negsuc, neg, ◌*ℤ◌, pos_part, ltb_ℤ, leb_ℤ}
use openestate.Cancellations.{net_received}
use openestate.Commission.{compute_commission_paise}
use openestate.Database.{Booking, Db}
use openestate.Money.{allocate}
use openestate.Refunds.{find_booking}
use openestate.Brokers.Rows.{
  BrokerRows, BrokerBookingCommission, BrokerCommissionRule, CommissionConfig, AccrualTrigger,
  on_booking, on_collection_milestone, CommissionEntry, CommissionEntryType, is_accrual, EntryData,
  create_entry, of_booking,
}

-- `findApplicableRule`: the project's rule first, then the broker's default.
abbrev pub same_project : Option ℕ → Option ℕ → Bool
same_project none none = true
same_project (some a) (some b) = a == b
same_project _ _ = false

abbrev pub active_rule : ℕ → Option ℕ → BrokerRows → Option BrokerCommissionRule
active_rule broker_id project rows =
    find? (λ r. r.broker_id == broker_id && same_project r.project_id project && r.is_active)
      rows.rules

-- A project that is not known matches no project's rule.
abbrev pub project_rule : ℕ → Option ℕ → BrokerRows → Option BrokerCommissionRule
project_rule broker_id none rows = none
project_rule broker_id (some p) rows = active_rule broker_id (some p) rows

abbrev pub find_applicable_rule : ℕ → Option ℕ → BrokerRows → Option BrokerCommissionRule
find_applicable_rule broker_id project rows = elim (project_rule broker_id project rows) [
  | some r ↦ some r
  | none ↦ active_rule broker_id none rows
]

abbrev pub find_snapshot : ℕ → BrokerRows → Option BrokerBookingCommission
find_snapshot booking_id rows = find? (λ s. s.booking_id == booking_id) rows.snapshots

abbrev pub add_snapshot : BrokerBookingCommission → BrokerRows → BrokerRows
add_snapshot s rows = record rows { snapshots = rows.snapshots ++ s ∷ [] }

-- `ensureSnapshot`: the snapshot, and the rows with it.
unfoldable pub new_snapshot :
    Booking → ℕ → Option ℕ → BrokerRows → Result (BrokerBookingCommission × BrokerRows)
new_snapshot booking broker_id project rows = do
  found ← or_throw (find_applicable_rule broker_id project rows) bad_request
  total ← compute_commission_paise booking.agreed_price_paise found.rule found.slabs
  let s : BrokerBookingCommission = record {
    booking_id = booking.id;
    broker_id = broker_id;
    rule_id = found.id;
    total_commission_paise = total;
  }
  ok (s, add_snapshot s rows)

unfoldable pub ensure_snapshot :
    Booking → ℕ → Option ℕ → BrokerRows → Result (BrokerBookingCommission × BrokerRows)
unfolding new_snapshot
ensure_snapshot booking broker_id project rows = elim (find_snapshot booking.id rows) [
  | some s ↦ ok (s, rows)
  | none ↦ new_snapshot booking broker_id project rows
]

-- The accrual of a booking for a milestone, or for the booking as a whole.
abbrev pub same_milestone : Option ℕ → Option ℕ → Bool
same_milestone none none = true
same_milestone (some a) (some b) = a == b
same_milestone _ _ = false

abbrev pub is_accrual_of : ℕ → Option ℕ → CommissionEntry → Bool
is_accrual_of booking_id milestone e =
    of_booking booking_id e
    && is_accrual e.entry_type
    && same_milestone e.milestone_percent milestone

abbrev pub accrual_entry : ℕ → ℕ → ℤ → Option ℕ → EntryData
accrual_entry broker_id booking_id amount milestone = record {
  broker_id = broker_id;
  booking_id = booking_id;
  entry_type = CommissionEntryType.accrual;
  signed_amount_paise = amount;
  milestone_percent = milestone;
}

-- `if (existing) return existing;` and else the new entry.
unfoldable pub accrue_once : ℕ → ℕ → ℕ → ℤ → Option ℕ → BrokerRows → BrokerRows
unfolding create_entry
accrue_once now broker_id booking_id amount milestone rows =
    if any (is_accrual_of booking_id milestone) rows.entries
    then rows
    else create_entry now (accrual_entry broker_id booking_id amount milestone) rows

-- `BigInt(m - (milestones[i - 1] ?? 0))`
abbrev pub marginal_weights : ℕ → List ℕ → List ℕ
marginal_weights previous [] = []
marginal_weights previous (m ∷ milestones) = (m - previous) ∷ marginal_weights m milestones

-- BigInt division by a number above zero truncates.
abbrev pub truncated : ℤ → ℕ → ℤ
truncated (pos n) d = pos (n / d)
truncated (negsuc n) d = neg (pos (suc n / d))

-- `computeCollectedPercent`, in hundredths.
abbrev pub collected_hundredths : ℕ → ℤ → Db → ℤ
collected_hundredths booking_id agreed_price db =
    if leb_ℤ agreed_price (pos 0)
    then pos 0
    else truncated (net_received booking_id db *ℤ pos 10_000) (pos_part agreed_price)

-- The loop over the milestones: the ones above what is collected are passed over.
unfoldable pub accrue_milestones : ℕ → ℕ → ℕ → ℤ → List ℕ → List ℤ → BrokerRows → BrokerRows
unfolding accrue_once
accrue_milestones now broker_id booking_id collected [] shares rows = rows
accrue_milestones now broker_id booking_id collected (m ∷ ms) [] rows = rows
accrue_milestones now broker_id booking_id collected (m ∷ ms) (s ∷ shares) rows =
    accrue_milestones now broker_id booking_id collected ms shares (
      if ltb_ℤ collected (pos (100 * m))
      then rows
      else accrue_once now broker_id booking_id s (some m) rows)

-- `rule?.milestonesJson ?? []`
abbrev pub milestones_of : ℕ → BrokerRows → List ℕ
milestones_of rule_id rows = elim (find? (λ r. r.id == rule_id) rows.rules) [
  | none ↦ []
  | some r ↦ elim r.milestones [ none ↦ [] | some ms ↦ ms ]
]

abbrev pub no_milestones : List ℕ → Bool
no_milestones [] = true
no_milestones (m ∷ ms) = false

unfoldable pub accrue_on_milestones :
    ℕ → ℕ → Booking → BrokerBookingCommission → Db → BrokerRows → Result BrokerRows
unfolding accrue_milestones allocate
accrue_on_milestones now broker_id booking snapshot db rows =
    let milestones = milestones_of snapshot.rule_id rows in
    let collected = collected_hundredths booking.id booking.agreed_price_paise db in
    if no_milestones milestones then ok rows else (do
      shares ← allocate snapshot.total_commission_paise (marginal_weights 0 milestones)
      ok (accrue_milestones now broker_id booking.id collected milestones shares rows))

-- `config?.commissionAccrualTrigger ?? ON_BOOKING`
abbrev pub trigger_of : Option CommissionConfig → AccrualTrigger
trigger_of none = on_booking
trigger_of (some c) = c.accrual_trigger

unfoldable pub accrue_for_booking : (ℕ → Option ℕ) → ℕ → ℕ → Db → BrokerRows → Result BrokerRows
unfolding ensure_snapshot accrue_once accrue_on_milestones
accrue_for_booking project_of now booking_id db rows = do
  booking ← or_throw (find_booking booking_id db) not_found
  elim booking.broker_id [
    | none ↦ ok rows
    | some broker_id ↦ do
      (snapshot, with_snapshot) ←
          ensure_snapshot booking broker_id (project_of booking.unit_id) rows
      elim (trigger_of rows.config) [
        | on_booking ↦ ok (
            accrue_once now broker_id booking.id snapshot.total_commission_paise none with_snapshot)
        | on_collection_milestone ↦
            accrue_on_milestones now broker_id booking snapshot db with_snapshot
      ]
  ]
