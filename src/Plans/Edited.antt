-- ===== src/Plans/Edited.antt =====
-- `editPlan` (apps/api/src/postsales/payment-plan.service.ts) and the schedule that it leaves.
use openestate.Base.{
  ℕ, suc, ◌≡◌, refl, ap, ◌∙◌, some, List, ◌==◌, ==_refl, bind_inv, or_throw_inv, throw_if, find?,
  find?-update_kept, ok, or_throw, not_found, bad_request,
}
use openestate.Base.Int.{ℤ, pos, ◌+ℤ◌, ◌-ℤ◌, ltb_ℤ, int_laws}
use openestate.Plans.Rows.{
  PlanBooking, PaymentPlan, PlanRows, find_plan_booking, active_for, active_plan,
}
use openestate.Plans.Amounts.{InstallmentInput, resolve_amounts}
use openestate.Plans.Creation.{create_listed}
use openestate.Plans.Edit.{
  installments_of, frozen_of, amount_sum, delete_unpaid, max_seq, bump_version, edit_plan,
}
use openestate.Plans.Sums.{create_listed-plan_sum, create_listed-plans, resolve_amounts_inv}
use openestate.Plans.Kept.{singled, kept_sum, unpaid_in}
use openestate.Plans.Created.{WellKept, Scheduled, load_active_plan_inv}

bumped_active :
    (booking_id : ℕ) (plan : PaymentPlan) (rows : PlanRows)
    → active_plan booking_id rows ≡ some plan
    → active_plan booking_id (bump_version plan.id rows)
      ≡ some (record plan { version = suc plan.version })
bumped_active booking_id plan rows h =
    find?-update_kept (active_for booking_id) (λ p. p.id == plan.id)
      (λ p. record p { version = suc p.version }) (λ p. refl) rows.plans
    ∙ rw (h, ==_refl plan.id) refl

rest_and_frozen : (price frozen : ℤ) → frozen +ℤ (price -ℤ frozen) ≡ price
rest_and_frozen price frozen = omega int_laws

pub edit-Scheduled :
    (booking_id : ℕ) (listed : List InstallmentInput) (rows rows' : PlanRows)
    → WellKept rows
    → edit_plan booking_id listed rows ≡ ok rows'
    → (booking : PlanBooking) × (find_plan_booking booking_id rows ≡ some booking)
      × Scheduled booking_id booking rows'
unfolding edit_plan
edit-Scheduled booking_id listed rows rows' (_, apart, allocated) h =
    let (booking, b, h1) =
      bind_inv (or_throw (find_plan_booking booking_id rows) not_found) _ rows' h in
    let (plan, p, h2) = bind_inv (or_throw (active_plan booking_id rows) not_found) _ rows' h1 in
    let frozen = frozen_of (installments_of plan.id rows) in
    let residual = booking.agreed_price_paise -ℤ amount_sum frozen in
    let (_, _, h3) = bind_inv (throw_if (ltb_ℤ residual (pos 0)) bad_request) _ rows' h2 in
    let (amounts, a, h4) = bind_inv (resolve_amounts listed residual) _ rows' h3 in
    let start = delete_unpaid plan.id rows in
    let filled = create_listed booking_id plan.id (suc (max_seq frozen 0)) listed amounts start in
    let made = load_active_plan_inv booking_id (bump_version plan.id filled) rows' h4 in
    let (whole, len) = resolve_amounts_inv listed residual amounts a in
    let left =
      kept_sum plan.id (unpaid_in plan.id rows.installments) rows.installments
        (singled plan.id rows.installments apart) allocated in
    let found = or_throw_inv (active_plan booking_id rows) not_found plan p in
    (
      booking,
      or_throw_inv (find_plan_booking booking_id rows) not_found booking b,
      rw (← made) (
        record plan { version = suc plan.version },
        bumped_active booking_id plan filled (
            ap (find? (active_for booking_id))
              (create_listed-plans booking_id plan.id (suc (max_seq frozen 0)) listed amounts start)
            ∙ found),
        create_listed-plan_sum booking_id plan.id (suc (max_seq frozen 0)) listed amounts start len
            ∙ rw (left, whole) (rest_and_frozen booking.agreed_price_paise (amount_sum frozen)),
      ),
    )
