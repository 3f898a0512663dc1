-- ===== src/Brokers/Payments.antt =====
-- `pay` (apps/api/src/commission/commission-payment.service.ts): the payment leaves the ledger
-- booking by booking, and tax under section 194-H is withheld from it. The notification that
-- follows the commit is left out.
use openestate.Base.{
  ℕ, Bool, true, false, not, ◌&&◌, Option, none, some, List, [], ◌∷◌, map, if◌then◌else◌, Result,
  ok, not_found, bad_request, conflict, ◌>>=◌, or_throw, throw_if,
}
use openestate.Base.Int.{ℤ, pos, neg, ◌-ℤ◌, pos_part, ltb_ℤ, leb_ℤ}
use openestate.Database.{ReceiptMode, TdsRule, TdsSection, section_194_ia, section_194_h, Db}
use openestate.Money.{percent_of, allocate}
use openestate.Receipts.{in_force, latest}
use openestate.Brokers.Rows.{
  BrokerRows, CommissionPayment, CommissionPaymentStatus, CommissionEntryType, is_approved,
  find_payment, EntryData, create_entry,
}
use openestate.Brokers.Requests.{update_payment}
use openestate.Brokers.Attribution.{GrossAllocation, outstanding_bookings, attribute, is_empty}

-- `PayCommissionPaymentDto`
pub record PayCommission : Type 0 where
  pub mode : ReceiptMode
  pub payment_date : ℕ

abbrev pub is_194_h : TdsSection → Bool
is_194_h section_194_h = true
is_194_h section_194_ia = false

-- The rule of section 194-H in force, and the tax on the gross amount.
abbrev pub tds_of : Option TdsRule → ℤ → ℤ
tds_of none amount = pos 0
tds_of (some rule) amount =
    if leb_ℤ rule.threshold_paise amount then percent_of amount rule.rate_percent else pos 0

abbrev pub rule_194_h : ℕ → Db → Option TdsRule
rule_194_h date db = latest (λ r. is_194_h r.section && in_force date r) db.tds_rules none

-- `tdsShares`: the weights are the gross allocations, which are above zero.
unfoldable pub tds_shares : ℤ → List GrossAllocation → Result (List ℤ)
unfolding allocate
tds_shares tds allocations =
    if ltb_ℤ (pos 0) tds
    then allocate tds (map (λ a. pos_part a.gross_paise) allocations)
    else ok (map (λ _. pos 0) allocations)

abbrev pub paid_entry : ℕ → CommissionEntryType → ℤ → ℕ → EntryData
paid_entry broker_id entry_type amount booking_id = record {
  broker_id = broker_id;
  booking_id = booking_id;
  entry_type = entry_type;
  signed_amount_paise = amount;
  milestone_percent = none;
}

-- The body of the posting loop: the payment, and the tax where there is some.
unfoldable pub post_share : ℕ → ℕ → GrossAllocation → ℤ → BrokerRows → BrokerRows
unfolding create_entry
post_share broker_id now a tds rows =
    let net = neg (a.gross_paise -ℤ tds) in
    let paid =
      create_entry now (paid_entry broker_id CommissionEntryType.payment net a.booking_id) rows in
    if ltb_ℤ (pos 0) tds
    then create_entry now
        (paid_entry broker_id CommissionEntryType.tds_withheld (neg tds) a.booking_id) paid
    else paid

unfoldable pub post_shares : ℕ → ℕ → List GrossAllocation → List ℤ → BrokerRows → BrokerRows
unfolding post_share
post_shares broker_id now [] shares rows = rows
post_shares broker_id now (a ∷ allocations) [] rows = rows
post_shares broker_id now (a ∷ allocations) (t ∷ shares) rows =
    post_shares broker_id now allocations shares (post_share broker_id now a t rows)

abbrev pub with_payment : PayCommission → CommissionPayment → CommissionPayment
with_payment dto p = record p {
  status = CommissionPaymentStatus.paid;
  mode = some dto.mode;
  paid_at = some dto.payment_date;
}

unfoldable pub pay : ℕ → ℕ → PayCommission → Db → BrokerRows → Result BrokerRows
unfolding outstanding_bookings attribute tds_shares post_shares
pay payment_id now dto db rows = do
  payment ← or_throw (find_payment payment_id rows) not_found
  _ ← throw_if (not (is_approved payment.status)) conflict
  let (allocations, remaining) =
      attribute (outstanding_bookings payment.broker_id rows.entries) payment.amount_paise
  _ ← throw_if (is_empty allocations) bad_request
  _ ← throw_if (ltb_ℤ (pos 0) remaining) bad_request
  let tds = tds_of (rule_194_h dto.payment_date db) payment.amount_paise
  shares ← tds_shares tds allocations
  ok (
      update_payment payment_id (with_payment dto)
        (post_shares payment.broker_id now allocations shares rows))
