-- ===== src/Plans/Sums.antt =====
-- The amounts of the installments of a plan, and what the creating loops
-- (apps/api/src/postsales/payment-plan.service.ts) add to them.
use openestate.Base.{
  ℕ, suc, ◌≡◌, refl, sym, ap, ◌∙◌, arith, false, not, ◌&&◌, List, [], ◌∷◌, ◌++◌, ==_refl, any,
  if◌then◌else◌, Bool-cases, Option-cases, bind_inv, throw_if, throw_if_inv, inl, inr, length, All,
  ok, bad_request,
}
use openestate.Base.Int.{ℤ, pos, ◌+ℤ◌, eqb_ℤ, sum_ℤ, eq_of_parts, int_laws}
use openestate.Money.Allocation.{allocate_inv}
use openestate.Plans.Rows.{
  PlanBooking, PlanMilestone, PlanInstallment, PlanRows, in_plan, create_installment,
}
use openestate.Plans.Amounts.{
  InstallmentInput, has_percent, has_amount, percents_of, amounts_of, by_percent, by_amount,
  resolve_amounts,
}
use openestate.Plans.Creation.{
  create_milestones, milestone_installment, create_listed, listed_installment,
}

abbrev pub plan_part : ℕ → PlanInstallment → ℤ
plan_part plan_id i = if in_plan plan_id i then i.amount_paise else pos 0

-- The sum of the amounts of a plan.
abbrev pub plan_sum : ℕ → List PlanInstallment → ℤ
plan_sum plan_id [] = pos 0
plan_sum plan_id (i ∷ rest) = plan_part plan_id i +ℤ plan_sum plan_id rest

plan_sum-snoc :
    (plan_id : ℕ) (is : List PlanInstallment) (i : PlanInstallment)
    → plan_sum plan_id (is ++ i ∷ []) ≡ plan_sum plan_id is +ℤ plan_part plan_id i
plan_sum-snoc plan_id [] i = omega int_laws
plan_sum-snoc plan_id (x ∷ is) i = rw (plan_sum-snoc plan_id is i) (omega int_laws)

pub plan_sum-none :
    (plan_id : ℕ) (is : List PlanInstallment)
    → All (λ i. in_plan plan_id i ≡ false) is
    → plan_sum plan_id is ≡ pos 0
plan_sum-none plan_id [] h = refl
plan_sum-none plan_id (i ∷ is) (h, hs) = rw (h, plan_sum-none plan_id is hs) (omega int_laws)

create_installment-plan_sum :
    (plan_id : ℕ) (i : PlanInstallment) (rows : PlanRows)
    → i.plan_id ≡ plan_id
    → plan_sum plan_id (create_installment i rows).installments
      ≡ plan_sum plan_id rows.installments +ℤ i.amount_paise
unfolding create_installment
create_installment-plan_sum plan_id i rows h =
    plan_sum-snoc plan_id rows.installments _ ∙ rw (h, ==_refl plan_id)

pub create_milestones-plan_sum :
    (booking : PlanBooking) (template_id plan_id : ℕ) (ms : List PlanMilestone) (amounts : List ℤ)
    (rows : PlanRows)
    → length amounts ≡ length ms
    → plan_sum plan_id (create_milestones booking template_id plan_id ms amounts rows).installments
      ≡ plan_sum plan_id rows.installments +ℤ sum_ℤ amounts
unfolding create_milestones
create_milestones-plan_sum booking template_id plan_id [] [] rows h = omega int_laws
create_milestones-plan_sum booking template_id plan_id [] (a ∷ amounts) rows h =
    absurd (omega (arith, h))
create_milestones-plan_sum booking template_id plan_id (m ∷ ms) [] rows h =
    absurd (omega (arith, h))
create_milestones-plan_sum booking template_id plan_id (m ∷ ms) (a ∷ amounts) rows h =
    let i = milestone_installment booking template_id plan_id rows m a in
    rw
      (
        create_milestones-plan_sum booking template_id plan_id ms amounts
            (create_installment i rows) (omega (arith, h)),
        create_installment-plan_sum plan_id i rows refl,
      )
      (omega int_laws)

pub create_listed-plan_sum :
    (booking_id plan_id seq : ℕ) (listed : List InstallmentInput) (amounts : List ℤ)
    (rows : PlanRows)
    → length amounts ≡ length listed
    → plan_sum plan_id (create_listed booking_id plan_id seq listed amounts rows).installments
      ≡ plan_sum plan_id rows.installments +ℤ sum_ℤ amounts
unfolding create_listed
create_listed-plan_sum booking_id plan_id seq [] [] rows h = omega int_laws
create_listed-plan_sum booking_id plan_id seq [] (a ∷ amounts) rows h = absurd (omega (arith, h))
create_listed-plan_sum booking_id plan_id seq (inst ∷ rest) [] rows h = absurd (omega (arith, h))
create_listed-plan_sum booking_id plan_id seq (inst ∷ rest) (a ∷ amounts) rows h =
    let i = listed_installment booking_id plan_id seq inst a in
    rw
      (
        create_listed-plan_sum booking_id plan_id (suc seq) rest amounts (create_installment i rows)
            (omega (arith, h)),
        create_installment-plan_sum plan_id i rows refl,
      )
      (omega int_laws)

-- The loops touch no plan.
pub create_milestones-plans :
    (booking : PlanBooking) (template_id plan_id : ℕ) (ms : List PlanMilestone) (amounts : List ℤ)
    (rows : PlanRows)
    → (create_milestones booking template_id plan_id ms amounts rows).plans ≡ rows.plans
unfolding create_milestones create_installment
create_milestones-plans booking template_id plan_id [] amounts rows = refl
create_milestones-plans booking template_id plan_id (m ∷ ms) [] rows = refl
create_milestones-plans booking template_id plan_id (m ∷ ms) (a ∷ amounts) rows =
    create_milestones-plans booking template_id plan_id ms amounts
      (create_installment (milestone_installment booking template_id plan_id rows m a) rows)

pub create_listed-plans :
    (booking_id plan_id seq : ℕ) (listed : List InstallmentInput) (amounts : List ℤ)
    (rows : PlanRows)
    → (create_listed booking_id plan_id seq listed amounts rows).plans ≡ rows.plans
unfolding create_listed create_installment
create_listed-plans booking_id plan_id seq [] amounts rows = refl
create_listed-plans booking_id plan_id seq (inst ∷ rest) [] rows = refl
create_listed-plans booking_id plan_id seq (inst ∷ rest) (a ∷ amounts) rows =
    create_listed-plans booking_id plan_id (suc seq) rest amounts
      (create_installment (listed_installment booking_id plan_id seq inst a) rows)

percents_of-length :
    (listed : List InstallmentInput) (ws : List ℕ)
    → percents_of listed ≡ ok ws
    → length ws ≡ length listed
unfolding percents_of
percents_of-length [] ws h = let same : [] ≡ ws = cc in rw (← same)
percents_of-length (i ∷ rest) ws h =
    let (ps, e, h1) = bind_inv (percents_of rest) _ ws h in
    elim (Option-cases i.percent_thousandths) [
      | inl n ↦ absurd (ground (arith, n))
      | inr (p, n) ↦
          let same : p ∷ ps ≡ ws = ground (arith, n) in
          sym (ap length same) ∙ ap suc (percents_of-length rest ps e)
    ]

amounts_of-length :
    (listed : List InstallmentInput) (amounts : List ℤ)
    → amounts_of listed ≡ ok amounts
    → length amounts ≡ length listed
unfolding amounts_of
amounts_of-length [] amounts h = let same : [] ≡ amounts = cc in rw (← same)
amounts_of-length (i ∷ rest) amounts h =
    let (as_, e, h1) = bind_inv (amounts_of rest) _ amounts h in
    elim (Option-cases i.amount_paise) [
      | inl n ↦ absurd (ground (arith, n))
      | inr (a, n) ↦
          let same : a ∷ as_ ≡ amounts = ground (arith, n) in
          sym (ap length same) ∙ ap suc (amounts_of-length rest as_ e)
    ]

equal : (a b : ℤ) → not (eqb_ℤ a b) ≡ false → a ≡ b
equal a b h = eq_of_parts a b (ground (arith, h))

-- Amounts that are resolved number the installments and add up to the total.
pub resolve_amounts_inv :
    (listed : List InstallmentInput) (total : ℤ) (amounts : List ℤ)
    → resolve_amounts listed total ≡ ok amounts
    → (sum_ℤ amounts ≡ total) × (length amounts ≡ length listed)
unfolding resolve_amounts by_percent by_amount
resolve_amounts_inv listed total amounts h =
    let (_, _, h1) =
      bind_inv (throw_if (any has_percent listed && any has_amount listed) bad_request) _ amounts
        h in
    elim (Bool-cases (any has_percent listed)) [
      | inl c ↦
          let h2 = rw (c, if◌then◌else◌) at h1 in
          let (ws, e, h3) = bind_inv (percents_of listed) _ amounts h2 in
          let (s, l) = allocate_inv total ws amounts h3 in (s, l ∙ percents_of-length listed ws e)
      | inr c ↦
          let h2 = rw (c, if◌then◌else◌) at h1 in
          let (as_, e, h3) = bind_inv (amounts_of listed) _ amounts h2 in
          let (u, t, h4) =
            bind_inv (throw_if (not (eqb_ℤ (sum_ℤ as_) total)) bad_request) _ amounts h3 in
          let same : as_ ≡ amounts = cc in
          let checked = throw_if_inv (not (eqb_ℤ (sum_ℤ as_) total)) bad_request u t in
          (
            sym (ap sum_ℤ same) ∙ equal (sum_ℤ as_) total checked,
            sym (ap length same) ∙ amounts_of-length listed as_ e,
          )
    ]
