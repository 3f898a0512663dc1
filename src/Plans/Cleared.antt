-- ===== src/Plans/Cleared.antt =====
-- `deactivateExistingPlans` (apps/api/src/postsales/payment-plan.service.ts): afterwards no plan of the
-- booking is active.
use openestate.Base.{
  All-select, ℕ, ◌≡◌, refl, sym, subst, arith, false, not, ◌&&◌, List, [], ◌∷◌, ◌==◌, any, select,
  select-hit, select-miss, update_where, update_where-hit, update_where-miss, Bool-cases, bind_inv,
  throw_if, bad_request, inl, inr, All, All-map, ok, ==_refl,
}
use openestate.Plans.Rows.{PaymentPlan, PlanInstallment, PlanRows, active_for, in_plan}
use openestate.Plans.Creation.{
  has_allocation, deactivated, drop_plan, deactivate_plans, deactivate_existing_plans,
}

-- What is active of the booking is still to be dropped.
abbrev Remaining : ℕ → List PaymentPlan → List PaymentPlan → Type 0
Remaining booking_id left plans =
    All (λ q. (active_for booking_id q && not (any (λ p. q.id == p.id) left)) ≡ false) plans

-- Dropping a plan takes its id off what remains.
Remaining-drop :
    (booking_id : ℕ) (p : PaymentPlan) (left plans : List PaymentPlan)
    → Remaining booking_id (p ∷ left) plans
    → Remaining booking_id left (update_where (λ q. q.id == p.id) deactivated plans)
Remaining-drop booking_id p left [] h = tt
Remaining-drop booking_id p left (q ∷ plans) (h, hs) = elim (Bool-cases (q.id == p.id)) [
  | inl c ↦
      subst (Remaining booking_id left)
        (sym (update_where-hit (λ x. x.id == p.id) deactivated q plans c))
        (ground arith, Remaining-drop booking_id p left plans hs)
  | inr c ↦
      subst (Remaining booking_id left)
        (sym (update_where-miss (λ x. x.id == p.id) deactivated q plans c))
        (ground (arith, c, h), Remaining-drop booking_id p left plans hs)
]

-- What the clearing leaves: no active plan of the booking, some of the installments, the counter.
abbrev pub Cleared : ℕ → PlanRows → PlanRows → Type 1
Cleared booking_id rows rows' =
    (All (λ q. active_for booking_id q ≡ false) rows'.plans)
    × ((P : PlanInstallment → Type 0) → All P rows.installments → All P rows'.installments)
    × (rows'.next_id ≡ rows.next_id)

deactivate_plans-Cleared :
    (booking_id : ℕ) (left : List PaymentPlan) (rows rows' : PlanRows)
    → Remaining booking_id left rows.plans
    → deactivate_plans left rows ≡ ok rows'
    → Cleared booking_id rows rows'
unfolding deactivate_plans
deactivate_plans-Cleared booking_id [] rows rows' h e =
    let same : rows ≡ rows' = cc in
    rw (← same) (All-map (λ q k. ground (arith, k)) rows.plans h, (λ P k. k), refl)
deactivate_plans-Cleared booking_id (p ∷ left) rows rows' h e =
    let (_, _, e1) =
      bind_inv
        (throw_if (any (λ i. in_plan p.id i && has_allocation i) rows.installments) bad_request) _
        rows' e in
    let (none_active, kept, same) =
      deactivate_plans-Cleared booking_id left (drop_plan p.id rows) rows'
        (Remaining-drop booking_id p left rows.plans h) e1 in
    (
      none_active,
      (λ P k. kept P (All-select (λ i. not (in_plan p.id i)) P rows.installments k)),
      same,
    )

Remaining-more :
    (booking_id : ℕ) (p : PaymentPlan) (left plans : List PaymentPlan)
    → Remaining booking_id left plans
    → Remaining booking_id (p ∷ left) plans
Remaining-more booking_id p left plans h = All-map (λ q k. ground (arith, k)) plans h

-- At the start, every active plan of the booking is to be dropped.
Remaining-start :
    (booking_id : ℕ) (plans : List PaymentPlan)
    → Remaining booking_id (select (active_for booking_id) plans) plans
Remaining-start booking_id [] = tt
Remaining-start booking_id (q ∷ plans) = elim (Bool-cases (active_for booking_id q)) [
  | inl c ↦
      subst (λ left. Remaining booking_id left (q ∷ plans))
        (sym (select-hit (active_for booking_id) q plans c))
        (
          ground (arith, c, ==_refl q.id),
          Remaining-more booking_id q (select (active_for booking_id) plans) plans
              (Remaining-start booking_id plans),
        )
  | inr c ↦
      subst (λ left. Remaining booking_id left (q ∷ plans))
        (sym (select-miss (active_for booking_id) q plans c))
        (ground (arith, c), Remaining-start booking_id plans)
]

pub deactivate_existing_plans-Cleared :
    (booking_id : ℕ) (rows rows' : PlanRows)
    → deactivate_existing_plans booking_id rows ≡ ok rows'
    → Cleared booking_id rows rows'
unfolding deactivate_existing_plans
deactivate_existing_plans-Cleared booking_id rows rows' e =
    deactivate_plans-Cleared booking_id (select (active_for booking_id) rows.plans) rows rows'
      (Remaining-start booking_id rows.plans) e
