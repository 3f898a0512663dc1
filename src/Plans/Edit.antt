-- ===== src/Plans/Edit.antt =====
-- `editPlan` (apps/api/src/postsales/payment-plan.service.ts): installments with an allocation are
-- frozen, the unpaid ones are replaced.
use openestate.Base.{
  ℕ, suc, Bool, not, List, [], ◌∷◌, ◌==◌, ltb, any, select, map, update_where, if◌then◌else◌,
  Result, not_found, bad_request, ◌>>=◌, or_throw, throw_if,
}
use openestate.Base.Int.{ℤ, pos, ◌-ℤ◌, ltb_ℤ, eqb_ℤ, sum_ℤ}
use openestate.Plans.Rows.{PlanInstallment, PlanRows, find_plan_booking, active_plan, in_plan}
use openestate.Plans.Amounts.{InstallmentInput, resolve_amounts}
use openestate.Plans.Creation.{has_allocation, create_listed, load_active_plan}

-- `plan.installments`
abbrev pub installments_of : ℕ → PlanRows → List PlanInstallment
installments_of plan_id rows = select (in_plan plan_id) rows.installments

abbrev pub frozen_of : List PlanInstallment → List PlanInstallment
frozen_of installments = select has_allocation installments

-- `allocatedPaise === 0n`
abbrev pub is_unpaid : PlanInstallment → Bool
is_unpaid i = eqb_ℤ i.allocated_paise (pos 0)

abbrev pub amount_sum : List PlanInstallment → ℤ
amount_sum installments = sum_ℤ (map (λ i. i.amount_paise) installments)

-- `{ id: { in: unpaid.map((i) => i.id) } }`
abbrev pub id_in : List PlanInstallment → PlanInstallment → Bool
id_in unpaid i = any (λ u. u.id == i.id) unpaid

abbrev pub delete_unpaid : ℕ → PlanRows → PlanRows
delete_unpaid plan_id rows = record rows {
  installments =
      select (λ i. not (id_in (select is_unpaid (installments_of plan_id rows)) i))
        rows.installments;
}

-- `frozen.reduce((mx, i) => Math.max(mx, i.seq), 0)`
abbrev pub max_seq : List PlanInstallment → ℕ → ℕ
max_seq [] mx = mx
max_seq (i ∷ rest) mx = max_seq rest (if ltb mx i.seq then i.seq else mx)

abbrev pub bump_version : ℕ → PlanRows → PlanRows
bump_version plan_id rows = record rows {
  plans =
      update_where (λ p. p.id == plan_id) (λ p. record p { version = suc p.version }) rows.plans;
}

unfoldable pub edit_plan : ℕ → List InstallmentInput → PlanRows → Result PlanRows
unfolding resolve_amounts create_listed load_active_plan
edit_plan booking_id installments rows = do
  booking ← or_throw (find_plan_booking booking_id rows) not_found
  plan ← or_throw (active_plan booking_id rows) not_found
  let frozen = frozen_of (installments_of plan.id rows)
  let residual = booking.agreed_price_paise -ℤ amount_sum frozen
  _ ← throw_if (ltb_ℤ residual (pos 0)) bad_request
  amounts ← resolve_amounts installments residual
  load_active_plan booking_id (
      bump_version plan.id (
        create_listed booking_id plan.id (suc (max_seq frozen 0)) installments amounts
          (delete_unpaid plan.id rows)))
