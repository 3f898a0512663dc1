-- ===== src/Interest.antt =====
-- apps/api/src/postsales/interest.service.ts: interest on overdue installments. The job that runs
-- `accrueForBooking` for every booking of a company is left out.
pub mod Cursor
pub mod Accrual
pub mod Again
mod Tests
use openestate.Base.{
  ℕ, ◌-◌, ◌/◌, ◌+◌, Bool, true, false, ◌&&◌, Option, none, some, List, [], ◌∷◌, ◌++◌, ◌==◌, ltb,
  if◌then◌else◌, find?, select, not_found,
}
use openestate.Base.Int.{ℤ, pos, neg, ◌+ℤ◌, ◌-ℤ◌, ◌*ℤ◌, ltb_ℤ}
use openestate.Dates.{day_ms}
use openestate.Database.{
  LedgerEntryType, Installment, InterestRule, InterestAccrual, LedgerEntry, Db, Tx, pure, gets,
  or_fail, modify, ◌>>=◌, ◌>>◌,
}
use openestate.Ledger.{EntryInput, post_one}
use openestate.Money.{round_quot}
use openestate.Refunds.{find_booking, plain_entry}

-- The days from one UTC midnight to another; `days <= 0` is zero here.
abbrev pub days_between : ℕ → ℕ → ℕ
days_between from to = to / day_ms - from / day_ms

-- The installments that are active and due before the date; an unraised one has no due date.
abbrev pub is_overdue : ℕ → ℕ → Installment → Bool
is_overdue booking_id as_of i =
    i.booking_id == booking_id
    && i.is_active
    && elim i.due_date [ none ↦ false | some due ↦ ltb due as_of ]

abbrev pub outstanding : Installment → ℤ
outstanding i = i.amount_paise -ℤ i.allocated_paise

abbrev pub prior_accruals : ℕ → List InterestAccrual → List InterestAccrual
prior_accruals installment_id = select (λ a. a.installment_id == installment_id)

-- `orderBy: { periodEnd: 'desc' }` and the first row: the latest end.
abbrev pub latest_end : List InterestAccrual → ℕ → ℕ
latest_end [] best = best
latest_end (a ∷ as_) best = latest_end as_ (if ltb best a.period_end then a.period_end else best)

-- `inst.dueDate!`, which is there on the installments that are read.
abbrev pub due_of : Option ℕ → ℕ
due_of none = 0
due_of (some due) = due

abbrev pub cursor_of : List InterestAccrual → ℕ → ℕ
cursor_of [] due = due
cursor_of (a ∷ rest) due = latest_end rest a.period_end

abbrev pub sum_accrued : List InterestAccrual → ℤ
sum_accrued [] = pos 0
sum_accrued (a ∷ rest) = a.accrued_paise +ℤ sum_accrued rest

abbrev pub accrual_base : InterestRule → Installment → List InterestAccrual → ℤ
accrual_base rule i prior =
    if rule.is_compound then outstanding i +ℤ sum_accrued prior else outstanding i

-- The interest of a number of days; 3_650_000 is `365n * 10_000n`.
abbrev pub accrual_delta : ℤ → ℕ → ℕ → ℤ
accrual_delta base rate days = round_quot ((base *ℤ pos rate) *ℤ pos days) 3_650_000

abbrev pub delta_for : InterestRule → ℕ → Installment → List InterestAccrual → ℤ
delta_for rule as_of i prior =
    accrual_delta (accrual_base rule i prior) rule.rate_percent
      (days_between (cursor_of prior (due_of i.due_date)) as_of)

-- None of the three `continue`s of the loop is taken.
abbrev pub accrues : InterestRule → ℕ → Installment → List InterestAccrual → Bool
accrues rule as_of i prior =
    ltb_ℤ (pos 0) (outstanding i)
    && ltb 0 (days_between (cursor_of prior (due_of i.due_date)) as_of)
    && ltb_ℤ (pos 0) (delta_for rule as_of i prior)

pub record AccrualResult : Type 0 where
  pub posted_paise : ℤ
  pub installments_accrued : ℕ

abbrev pub interest_entry : ℕ → ℕ → ℤ → ℕ → EntryInput
interest_entry booking_id installment_id delta as_of = record {
  booking_id = booking_id;
  entry_type = LedgerEntryType.interest;
  signed_amount_paise = delta;
  installment_id = some installment_id;
  receipt_id = none;
  reversal_of_entry_id = none;
  effective_date = as_of;
}

abbrev pub accrual_row :
    ℕ → InterestRule → ℕ → Installment → List InterestAccrual → ℕ → InterestAccrual
accrual_row booking_id rule as_of i prior entry_id = record {
  booking_id = booking_id;
  installment_id = i.id;
  period_start = cursor_of prior (due_of i.due_date);
  period_end = as_of;
  principal_paise = accrual_base rule i prior;
  accrued_paise = delta_for rule as_of i prior;
  ledger_entry_id = entry_id;
}

-- One round of the loop that accrues.
abbrev pub post_accrual :
    ℕ → InterestRule → ℕ → Installment → List InterestAccrual → Tx AccrualResult
post_accrual booking_id rule as_of i prior = do
  entry ← post_one (interest_entry booking_id i.id (delta_for rule as_of i prior) as_of)
  modify (λ db. record db {
    interest_accruals =
        db.interest_accruals ++ accrual_row booking_id rule as_of i prior entry.id ∷ [];
  })
  pure (record { posted_paise = delta_for rule as_of i prior; installments_accrued = 1 })

-- One round of the loop.
accrue_one : ℕ → InterestRule → ℕ → Installment → Tx AccrualResult
accrue_one booking_id rule as_of i = do
  prior ← gets (λ db. prior_accruals i.id db.interest_accruals)
  if accrues rule as_of i prior
      then post_accrual booking_id rule as_of i prior
      else pure (record { posted_paise = pos 0; installments_accrued = 0 })

accrue_all : ℕ → InterestRule → ℕ → List Installment → Tx AccrualResult
accrue_all booking_id rule as_of [] =
    pure (record { posted_paise = pos 0; installments_accrued = 0 })
accrue_all booking_id rule as_of (i ∷ rest) = do
  one ← accrue_one booking_id rule as_of i
  others ← accrue_all booking_id rule as_of rest
  pure (record {
    posted_paise = one.posted_paise +ℤ others.posted_paise;
    installments_accrued = one.installments_accrued + others.installments_accrued;
  })

abbrev pub find_rule : Option ℕ → Db → Option InterestRule
find_rule none db = none
find_rule (some id) db = find? (λ r. r.id == id) db.interest_rules

accrue_by : ℕ → ℕ → Option InterestRule → Tx AccrualResult
accrue_by booking_id as_of none = pure (record { posted_paise = pos 0; installments_accrued = 0 })
accrue_by booking_id as_of (some rule) = do
  installments ← gets (λ db. select (is_overdue booking_id as_of) db.installments)
  accrue_all booking_id rule as_of installments

pub accrue_for_booking : ℕ → ℕ → Tx AccrualResult
accrue_for_booking booking_id as_of = do
  found ← gets (find_booking booking_id)
  booking ← or_fail found not_found
  rule ← gets (find_rule booking.interest_rule_id)
  accrue_by booking_id as_of rule

-- A credit; the accruals stay as they are.
pub waive_interest : ℕ → ℤ → ℕ → Tx ℕ
waive_interest booking_id amount_paise effective_date = do
  found ← gets (find_booking booking_id)
  booking ← or_fail found not_found
  entry ←
      post_one
        (plain_entry booking_id LedgerEntryType.interest_waiver (neg amount_paise) effective_date)
  pure entry.id
