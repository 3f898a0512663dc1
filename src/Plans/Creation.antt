-- ===== src/Plans/Creation.antt =====
-- `instantiateFromTemplate` and `createCustomPlan` (apps/api/src/postsales/payment-plan.service.ts).
use openestate.Base.{
  ℕ, suc, Bool, true, false, not, ◌&&◌, Option, none, some, List, [], ◌∷◌, ◌++◌, ◌==◌, any, select,
  map, update_where, Result, ok, not_found, bad_request, ◌>>=◌, or_throw, throw_if,
}
use openestate.Base.Int.{ℤ, pos, ltb_ℤ}
use openestate.Money.{allocate}
use openestate.Plans.Rows.{
  date_linked, stage_linked, PlanBooking, PlanMilestone, PaymentPlan, PlanInstallment, StageRaise,
  PlanRows, find_plan_booking, find_template, active_for, active_plan, in_plan, add_days,
  compute_raised_due_date, find_stage_raise, create_installment,
}
use openestate.Plans.Amounts.{InstallmentInput, resolve_amounts}

-- `allocatedPaise > 0n`
abbrev pub has_allocation : PlanInstallment → Bool
has_allocation i = ltb_ℤ (pos 0) i.allocated_paise

abbrev pub deactivated : PaymentPlan → PaymentPlan
deactivated p = record p { is_active = false }

-- One round of the loop of `deactivateExistingPlans`.
abbrev pub drop_plan : ℕ → PlanRows → PlanRows
drop_plan plan_id rows = record rows {
  plans = update_where (λ p. p.id == plan_id) deactivated rows.plans;
  installments = select (λ i. not (in_plan plan_id i)) rows.installments;
}

-- The loop: `p.installments` are those of the plan when the loop starts.
unfoldable pub deactivate_plans : List PaymentPlan → PlanRows → Result PlanRows
deactivate_plans [] rows = ok rows
deactivate_plans (p ∷ plans) rows = do
  _ ← throw_if (any (λ i. in_plan p.id i && has_allocation i) rows.installments) bad_request
  deactivate_plans plans (drop_plan p.id rows)

unfoldable pub deactivate_existing_plans : ℕ → PlanRows → Result PlanRows
unfolding deactivate_plans
deactivate_existing_plans booking_id rows =
    deactivate_plans (select (active_for booking_id) rows.plans) rows

-- `tx.paymentPlan.create`
abbrev pub new_plan : ℕ → ℕ → Option ℕ → PaymentPlan
new_plan id booking_id template_id = record {
  id = id;
  booking_id = booking_id;
  template_id = template_id;
  version = 1;
  is_active = true;
}

abbrev pub add_plan : ℕ → Option ℕ → PlanRows → PlanRows
add_plan booking_id template_id rows = record rows {
  next_id = suc rows.next_id;
  plans = rows.plans ++ new_plan rows.next_id booking_id template_id ∷ [];
}

-- The row of a milestone; a stage that was raised before is due at once.
abbrev pub raised_due : Option StageRaise → PlanMilestone → Option ℕ
raised_due none m = none
raised_due (some s) m = some (compute_raised_due_date s.stage_completed_on m.grace_days_after_raise)

abbrev pub raise_id : Option StageRaise → Option ℕ
raise_id none = none
raise_id (some s) = some s.id

abbrev pub milestone_installment :
    PlanBooking → ℕ → ℕ → PlanRows → PlanMilestone → ℤ → PlanInstallment
milestone_installment booking template_id plan_id rows m amount =
    let existing = find_stage_raise booking.project_id template_id m.seq rows in
    record {
      id = 0;
      booking_id = booking.id;
      plan_id = plan_id;
      seq = m.seq;
      milestone_type = m.milestone_type;
      milestone_seq = some m.seq;
      due_date = elim m.milestone_type [
        | stage_linked ↦ raised_due existing m
        | date_linked ↦ some (add_days booking.booking_date m.due_offset_days)
      ];
      stage_raise_id = elim m.milestone_type [
        | stage_linked ↦ raise_id existing
        | date_linked ↦ none
      ];
      amount_paise = amount;
      allocated_paise = pos 0;
    }

unfoldable pub create_milestones :
    PlanBooking → ℕ → ℕ → List PlanMilestone → List ℤ → PlanRows → PlanRows
unfolding create_installment
create_milestones booking template_id plan_id [] amounts rows = rows
create_milestones booking template_id plan_id (m ∷ ms) [] rows = rows
create_milestones booking template_id plan_id (m ∷ ms) (a ∷ amounts) rows =
    create_milestones booking template_id plan_id ms amounts
      (create_installment (milestone_installment booking template_id plan_id rows m a) rows)

abbrev pub no_milestone : List PlanMilestone → Bool
no_milestone [] = true
no_milestone (m ∷ ms) = false

-- `loadActivePlanInTx` throws where no plan is active; the rows are what is stored.
unfoldable pub load_active_plan : ℕ → PlanRows → Result PlanRows
load_active_plan booking_id rows = do _ ← or_throw (active_plan booking_id rows) not_found; ok rows

unfoldable pub instantiate_from_template : ℕ → ℕ → PlanRows → Result PlanRows
unfolding deactivate_existing_plans create_milestones allocate load_active_plan
instantiate_from_template booking_id template_id rows = do
  booking ← or_throw (find_plan_booking booking_id rows) not_found
  template ← or_throw (find_template template_id rows) not_found
  _ ← throw_if (no_milestone template.milestones) bad_request
  cleared ← deactivate_existing_plans booking_id rows
  amounts ←
      allocate booking.agreed_price_paise (map (λ m. m.percent_thousandths) template.milestones)
  load_active_plan booking_id (
      create_milestones booking template_id cleared.next_id template.milestones amounts
        (add_plan booking_id (some template_id) cleared))

-- The row of a listed installment.
abbrev pub listed_installment : ℕ → ℕ → ℕ → InstallmentInput → ℤ → PlanInstallment
listed_installment booking_id plan_id seq inst amount = record {
  id = 0;
  booking_id = booking_id;
  plan_id = plan_id;
  seq = seq;
  milestone_type = date_linked;
  milestone_seq = none;
  due_date = some inst.due_date;
  stage_raise_id = none;
  amount_paise = amount;
  allocated_paise = pos 0;
}

-- The loop over the listed installments; `seq` numbers them.
unfoldable pub create_listed : ℕ → ℕ → ℕ → List InstallmentInput → List ℤ → PlanRows → PlanRows
unfolding create_installment
create_listed booking_id plan_id seq [] amounts rows = rows
create_listed booking_id plan_id seq (inst ∷ rest) [] rows = rows
create_listed booking_id plan_id seq (inst ∷ rest) (a ∷ amounts) rows =
    create_listed booking_id plan_id (suc seq) rest amounts
      (create_installment (listed_installment booking_id plan_id seq inst a) rows)

unfoldable pub create_custom_plan : ℕ → List InstallmentInput → PlanRows → Result PlanRows
unfolding deactivate_existing_plans create_listed resolve_amounts load_active_plan
create_custom_plan booking_id installments rows = do
  booking ← or_throw (find_plan_booking booking_id rows) not_found
  cleared ← deactivate_existing_plans booking_id rows
  amounts ← resolve_amounts installments booking.agreed_price_paise
  load_active_plan booking_id (
      create_listed booking_id cleared.next_id 1 installments amounts
        (add_plan booking_id none cleared))
