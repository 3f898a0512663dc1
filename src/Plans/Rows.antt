-- ===== src/Plans/Rows.antt =====
-- The tables that payment plans read and write. A percentage is its number of thousandths, which
-- is what `Math.round(Number(percent) * 1000)` gives. The labels are left out,
-- and so is the flag `isActive` of an installment, which nothing clears.
use openestate.Base.{
  ℕ, suc, ◌+◌, ◌*◌, Bool, true, false, ◌&&◌, Option, List, [], ◌∷◌, ◌++◌, ◌==◌, find?,
}
use openestate.Base.Int.{ℤ, pos}
use openestate.Dates.{day_ms}

-- `MILESTONE_TYPE`
pub data MilestoneType : Type 0 where
  date_linked stage_linked : MilestoneType

abbrev pub is_stage_linked : MilestoneType → Bool
is_stage_linked stage_linked = true
is_stage_linked date_linked = false

-- The booking with the project of its unit.
pub record PlanBooking : Type 0 where
  pub id : ℕ
  pub agreed_price_paise : ℤ
  pub booking_date : ℕ
  pub project_id : ℕ

pub record PlanMilestone : Type 0 where
  pub seq : ℕ
  pub milestone_type : MilestoneType
  pub percent_thousandths : ℕ
  pub due_offset_days : ℕ
  pub grace_days_after_raise : ℕ

-- A template with its milestones, in the order of `seq`.
pub record PlanTemplate : Type 0 where
  pub id : ℕ
  pub milestones : List PlanMilestone

pub record PaymentPlan : Type 0 where
  pub id : ℕ
  pub booking_id : ℕ
  pub template_id : Option ℕ
  pub version : ℕ
  pub is_active : Bool

pub record PlanInstallment : Type 0 where
  pub id : ℕ
  pub booking_id : ℕ
  pub plan_id : ℕ
  pub seq : ℕ
  pub milestone_type : MilestoneType
  pub milestone_seq : Option ℕ
  pub due_date : Option ℕ
  pub stage_raise_id : Option ℕ
  pub amount_paise : ℤ
  pub allocated_paise : ℤ

pub record StageRaise : Type 0 where
  pub id : ℕ
  pub project_id : ℕ
  pub template_id : ℕ
  pub milestone_seq : ℕ
  pub stage_completed_on : ℕ

-- The rows of one company.
pub record PlanRows : Type 0 where
  pub next_id : ℕ
  pub bookings : List PlanBooking
  pub projects : List ℕ
  pub templates : List PlanTemplate
  pub plans : List PaymentPlan
  pub installments : List PlanInstallment
  pub stage_raises : List StageRaise

abbrev pub find_plan_booking : ℕ → PlanRows → Option PlanBooking
find_plan_booking id rows = find? (λ b. b.id == id) rows.bookings

abbrev pub find_template : ℕ → PlanRows → Option PlanTemplate
find_template id rows = find? (λ t. t.id == id) rows.templates

-- `{ bookingId, isActive: true }`
abbrev pub active_for : ℕ → PaymentPlan → Bool
active_for booking_id p = p.booking_id == booking_id && p.is_active

abbrev pub active_plan : ℕ → PlanRows → Option PaymentPlan
active_plan booking_id rows = find? (active_for booking_id) rows.plans

abbrev pub in_plan : ℕ → PlanInstallment → Bool
in_plan plan_id i = i.plan_id == plan_id

-- `addDays`
abbrev pub add_days : ℕ → ℕ → ℕ
add_days date days = date + days * day_ms

-- `computeRaisedDueDate`
abbrev pub compute_raised_due_date : ℕ → ℕ → ℕ
compute_raised_due_date stage_completed_on grace_days = stage_completed_on + grace_days * day_ms

-- `findStageRaise`
abbrev pub find_stage_raise : ℕ → ℕ → ℕ → PlanRows → Option StageRaise
find_stage_raise project_id template_id milestone_seq rows =
    find?
      (λ s.
        s.project_id == project_id
        && s.template_id == template_id
        && s.milestone_seq == milestone_seq)
      rows.stage_raises

-- `tx.installment.create({ data })`: the id is filled in, and nothing is allocated yet.
unfoldable pub create_installment : PlanInstallment → PlanRows → PlanRows
create_installment i rows = record rows {
  next_id = suc rows.next_id;
  installments = rows.installments ++ record i { id = rows.next_id; allocated_paise = pos 0 } ∷ [];
}
