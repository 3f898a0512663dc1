-- ===== src/Plans/Created.antt =====
-- The two ways to create a plan in apps/api/src/postsales/payment-plan.service.ts, and the schedule
-- that they leave.
use openestate.Base.{
  ℕ, ◌<◌, ◌≡◌, ap, ◌∙◌, arith, false, Option, none, some, List, ==_refl, bind_inv, or_throw_inv,
  throw_if, map, length-map, All, All-map, Distinct, find?, find?-new, ok, or_throw, not_found,
  bad_request,
}
use openestate.Base.Int.{ℤ, pos, ◌+ℤ◌, neg_part, int_laws}
use openestate.Money.{allocate}
use openestate.Money.Allocation.{allocate_inv}
use openestate.Plans.Rows.{
  PlanBooking, PaymentPlan, PlanRows, find_plan_booking, find_template, active_for, active_plan,
  in_plan,
}
use openestate.Plans.Amounts.{InstallmentInput, resolve_amounts}
use openestate.Plans.Creation.{
  deactivate_existing_plans, new_plan, add_plan, create_milestones, no_milestone,
  instantiate_from_template, create_listed, create_custom_plan, load_active_plan,
}
use openestate.Plans.Sums.{
  plan_sum, plan_sum-none, create_milestones-plan_sum, create_milestones-plans,
  create_listed-plan_sum, create_listed-plans, resolve_amounts_inv,
}
use openestate.Plans.Cleared.{Cleared, deactivate_existing_plans-Cleared}

-- Installments carry plan ids below the counter, ids of their own, and no negative allocation.
abbrev pub WellKept : PlanRows → Type 0
WellKept rows =
    All (λ i. i.plan_id < rows.next_id) rows.installments
    × Distinct (map (λ i. i.id) rows.installments)
    × All (λ i. neg_part i.allocated_paise ≡ 0) rows.installments

-- The booking has an active plan, whose installments add up to its price.
abbrev pub Scheduled : ℕ → PlanBooking → PlanRows → Type 0
Scheduled booking_id booking rows =
    (plan : PaymentPlan) × (active_plan booking_id rows ≡ some plan)
    × (plan_sum plan.id rows.installments ≡ booking.agreed_price_paise)

pub load_active_plan_inv :
    (booking_id : ℕ) (rows rows' : PlanRows)
    → load_active_plan booking_id rows ≡ ok rows'
    → rows ≡ rows'
unfolding load_active_plan
load_active_plan_inv booking_id rows rows' h =
    let (_, _, h1) = bind_inv (or_throw (active_plan booking_id rows) not_found) _ rows' h in cc

-- The new plan is the active one, and has no installment yet.
fresh_plan :
    (booking_id : ℕ) (template_id : Option ℕ) (rows cleared : PlanRows)
    → All (λ i. i.plan_id < rows.next_id) rows.installments
    → Cleared booking_id rows cleared
    → (find? (active_for booking_id) (add_plan booking_id template_id cleared).plans
        ≡ some (new_plan cleared.next_id booking_id template_id))
      × (plan_sum cleared.next_id cleared.installments ≡ pos 0)
fresh_plan booking_id template_id rows cleared below (none_active, kept, same) = (
  find?-new (active_for booking_id) cleared.plans (new_plan cleared.next_id booking_id template_id)
      none_active (rw (==_refl booking_id)),
  plan_sum-none cleared.next_id cleared.installments (
      kept (λ i. in_plan cleared.next_id i ≡ false)
        (All-map (λ i l. rw same (ground (arith, l))) rows.installments below)),
)

zero_first : (x : ℤ) → pos 0 +ℤ x ≡ x
zero_first x = omega int_laws

pub instantiate-Scheduled :
    (booking_id template_id : ℕ) (rows rows' : PlanRows)
    → WellKept rows
    → instantiate_from_template booking_id template_id rows ≡ ok rows'
    → (booking : PlanBooking) × (find_plan_booking booking_id rows ≡ some booking)
      × Scheduled booking_id booking rows'
unfolding instantiate_from_template
instantiate-Scheduled booking_id template_id rows rows' (below, _, _) h =
    let (booking, b, h1) =
      bind_inv (or_throw (find_plan_booking booking_id rows) not_found) _ rows' h in
    let (template, _, h2) =
      bind_inv (or_throw (find_template template_id rows) not_found) _ rows' h1 in
    let (_, _, h3) =
      bind_inv (throw_if (no_milestone template.milestones) bad_request) _ rows' h2 in
    let (cleared, c, h4) = bind_inv (deactivate_existing_plans booking_id rows) _ rows' h3 in
    let weights = map (λ m. m.percent_thousandths) template.milestones in
    let (amounts, a, h5) = bind_inv (allocate booking.agreed_price_paise weights) _ rows' h4 in
    let after =
      create_milestones booking template_id cleared.next_id template.milestones amounts
        (add_plan booking_id (some template_id) cleared) in
    let made = load_active_plan_inv booking_id after rows' h5 in
    let (whole, len) = allocate_inv booking.agreed_price_paise weights amounts a in
    let (active, empty) =
      fresh_plan booking_id (some template_id) rows cleared below
        (deactivate_existing_plans-Cleared booking_id rows cleared c) in
    (
      booking,
      or_throw_inv (find_plan_booking booking_id rows) not_found booking b,
      rw (← made) (
        new_plan cleared.next_id booking_id (some template_id),
        ap (find? (active_for booking_id)) (
              create_milestones-plans booking template_id cleared.next_id template.milestones
                amounts (add_plan booking_id (some template_id) cleared))
            ∙ active,
        create_milestones-plan_sum booking template_id cleared.next_id template.milestones amounts
              (add_plan booking_id (some template_id) cleared)
              (len ∙ length-map (λ m. m.percent_thousandths) template.milestones)
            ∙ rw (empty, whole) (zero_first booking.agreed_price_paise),
      ),
    )

pub custom-Scheduled :
    (booking_id : ℕ) (listed : List InstallmentInput) (rows rows' : PlanRows)
    → WellKept rows
    → create_custom_plan booking_id listed rows ≡ ok rows'
    → (booking : PlanBooking) × (find_plan_booking booking_id rows ≡ some booking)
      × Scheduled booking_id booking rows'
unfolding create_custom_plan
custom-Scheduled booking_id listed rows rows' (below, _, _) h =
    let (booking, b, h1) =
      bind_inv (or_throw (find_plan_booking booking_id rows) not_found) _ rows' h in
    let (cleared, c, h2) = bind_inv (deactivate_existing_plans booking_id rows) _ rows' h1 in
    let (amounts, a, h3) =
      bind_inv (resolve_amounts listed booking.agreed_price_paise) _ rows' h2 in
    let start = add_plan booking_id none cleared in
    let made =
      load_active_plan_inv booking_id
        (create_listed booking_id cleared.next_id 1 listed amounts start) rows' h3 in
    let (whole, len) = resolve_amounts_inv listed booking.agreed_price_paise amounts a in
    let (active, empty) =
      fresh_plan booking_id none rows cleared below
        (deactivate_existing_plans-Cleared booking_id rows cleared c) in
    (
      booking,
      or_throw_inv (find_plan_booking booking_id rows) not_found booking b,
      rw (← made) (
        new_plan cleared.next_id booking_id none,
        ap (find? (active_for booking_id))
              (create_listed-plans booking_id cleared.next_id 1 listed amounts start)
            ∙ active,
        create_listed-plan_sum booking_id cleared.next_id 1 listed amounts start len
            ∙ rw (empty, whole) (zero_first booking.agreed_price_paise),
      ),
    )
