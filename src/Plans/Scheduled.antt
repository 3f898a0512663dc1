-- ===== src/Plans/Scheduled.antt =====
-- The operations of apps/api/src/postsales/payment-plan.service.ts keep the schedule of a booking
-- equal to its agreed price.
use openestate.Base.{ℕ, ◌≡◌, some, List, ok}
use openestate.Plans.Rows.{PlanBooking, PlanRows, find_plan_booking}
use openestate.Plans.Amounts.{InstallmentInput}
use openestate.Plans.Creation.{instantiate_from_template, create_custom_plan}
use openestate.Plans.Edit.{edit_plan}
use openestate.Plans.Created.{WellKept, Scheduled, instantiate-Scheduled, custom-Scheduled}
use openestate.Plans.Edited.{edit-Scheduled}

-- The three operations that write a schedule.
pub data Schedules (booking_id : ℕ) : PlanRows → PlanRows → Type 0 where
  instantiates :
      {rows rows' : PlanRows} (template_id : ℕ)
      → instantiate_from_template booking_id template_id rows ≡ ok rows'
      → Schedules booking_id rows rows'
  customizes :
      {rows rows' : PlanRows} (listed : List InstallmentInput)
      → create_custom_plan booking_id listed rows ≡ ok rows'
      → Schedules booking_id rows rows'
  edits :
      {rows rows' : PlanRows} (listed : List InstallmentInput)
      → edit_plan booking_id listed rows ≡ ok rows'
      → Schedules booking_id rows rows'

-- Where installments are well kept, every creation of a plan from a template, creation of a custom
-- plan and edit of a plan that returns leaves the booking with an active plan, and the amounts of
-- that plan's installments add up to the agreed price of the booking exactly.
pub Schedules-Scheduled :
    (booking_id : ℕ) (rows rows' : PlanRows)
    → WellKept rows
    → Schedules booking_id rows rows'
    → (booking : PlanBooking) × (find_plan_booking booking_id rows ≡ some booking)
      × Scheduled booking_id booking rows'
Schedules-Scheduled booking_id rows rows' w (instantiates template_id h) =
    instantiate-Scheduled booking_id template_id rows rows' w h
Schedules-Scheduled booking_id rows rows' w (customizes listed h) =
    custom-Scheduled booking_id listed rows rows' w h
Schedules-Scheduled booking_id rows rows' w (edits listed h) =
    edit-Scheduled booking_id listed rows rows' w h
