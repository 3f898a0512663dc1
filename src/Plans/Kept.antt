-- ===== src/Plans/Kept.antt =====
-- `editPlan` (apps/api/src/postsales/payment-plan.service.ts) deletes the unpaid installments of the
-- plan: what is left of it is what is frozen.
use openestate.Base.{
  ℕ, ◌≡◌, refl, sym, ap, subst, ◌∙◌, arith, Bool, true, false, not, List, [], ◌∷◌, ◌==◌, ==_refl,
  any, select, select-hit, select-miss, if◌then◌else◌, Bool-cases, inl, inr, map, All, Distinct,
}
use openestate.Base.Int.{neg_part, int_laws}
use openestate.Plans.Rows.{PlanInstallment, in_plan}
use openestate.Plans.Creation.{has_allocation}
use openestate.Plans.Edit.{is_unpaid, amount_sum, id_in}
use openestate.Plans.Sums.{plan_sum}

abbrev pub unpaid_in : ℕ → List PlanInstallment → List PlanInstallment
unpaid_in plan_id is = select is_unpaid (select (in_plan plan_id) is)

-- An id that no installment has is no unpaid one's.
id_absent :
    (plan_id k : ℕ) (is : List PlanInstallment)
    → All (λ j. (k == j) ≡ false) (map (λ i. i.id) is)
    → any (λ u. u.id == k) (unpaid_in plan_id is) ≡ false
id_absent plan_id k [] h = refl
id_absent plan_id k (i ∷ is) (h, hs) = elim (Bool-cases (in_plan plan_id i)) [
  | inr c ↦ rw (select, c) (id_absent plan_id k is hs)
  | inl c ↦ elim (Bool-cases (is_unpaid i)) [
    | inr d ↦ rw (select, c, select, d) (id_absent plan_id k is hs)
    | inl d ↦ rw (select, c, select, d) (ground (arith, h, id_absent plan_id k is hs))
  ]
]

clash : (b : Bool) → b ≡ false → ¬ (b ≡ true)
clash b h k = cc

skipped :
    (plan_id : ℕ) (i : PlanInstallment) (is : List PlanInstallment)
    → in_plan plan_id i ≡ true
    → is_unpaid i ≡ false
    → unpaid_in plan_id (i ∷ is) ≡ unpaid_in plan_id is
skipped plan_id i is c d =
    ap (select is_unpaid) (select-hit (in_plan plan_id) i is c)
    ∙ select-miss is_unpaid i (select (in_plan plan_id) is) d

taken_in :
    (plan_id : ℕ) (i : PlanInstallment) (is : List PlanInstallment)
    → in_plan plan_id i ≡ true
    → is_unpaid i ≡ true
    → unpaid_in plan_id (i ∷ is) ≡ i ∷ unpaid_in plan_id is
taken_in plan_id i is c d =
    ap (select is_unpaid) (select-hit (in_plan plan_id) i is c)
    ∙ select-hit is_unpaid i (select (in_plan plan_id) is) d

-- In the plan, the ids of the unpaid ones single them out.
abbrev pub Singled : ℕ → List PlanInstallment → PlanInstallment → Type 0
Singled plan_id unpaid i = in_plan plan_id i ≡ true → id_in unpaid i ≡ is_unpaid i

-- Another installment with an id of its own changes nothing for the others.
Singled-more :
    (plan_id : ℕ) (i : PlanInstallment) (unpaid is : List PlanInstallment)
    → All (λ j. (i.id == j) ≡ false) (map (λ x. x.id) is)
    → All (Singled plan_id unpaid) is
    → All (Singled plan_id (i ∷ unpaid)) is
Singled-more plan_id i unpaid [] h k = tt
Singled-more plan_id i unpaid (x ∷ is) (h, hs) (k, ks) =
    ((λ c. rw (any, h) (k c)), Singled-more plan_id i unpaid is hs ks)

pub singled :
    (plan_id : ℕ) (is : List PlanInstallment)
    → Distinct (map (λ i. i.id) is)
    → All (Singled plan_id (unpaid_in plan_id is)) is
singled plan_id [] h = tt
singled plan_id (i ∷ is) (new, h) =
    let later = singled plan_id is h in
    let rest = unpaid_in plan_id is in
    elim (Bool-cases (in_plan plan_id i)) [
      | inr c ↦
          subst (λ u. All (Singled plan_id u) (i ∷ is))
            (sym (ap (select is_unpaid) (select-miss (in_plan plan_id) i is c)))
            ((λ d. absurd (clash (in_plan plan_id i) c d)), later)
      | inl c ↦ elim (Bool-cases (is_unpaid i)) [
        | inr d ↦
            subst (λ u. All (Singled plan_id u) (i ∷ is)) (sym (skipped plan_id i is c d))
              ((λ _. id_absent plan_id i.id is new ∙ sym d), later)
        | inl d ↦
            subst (λ u. All (Singled plan_id u) (i ∷ is)) (sym (taken_in plan_id i is c d))
              ((λ _. rw (any, ==_refl i.id, d)), Singled-more plan_id i rest is new later)
      ]
    ]

-- What is left of the plan once its unpaid installments are gone.
pub kept_sum :
    (plan_id : ℕ) (unpaid is : List PlanInstallment)
    → All (Singled plan_id unpaid) is
    → All (λ i. neg_part i.allocated_paise ≡ 0) is
    → plan_sum plan_id (select (λ i. not (id_in unpaid i)) is)
      ≡ amount_sum (select has_allocation (select (in_plan plan_id) is))
kept_sum plan_id unpaid [] h k = refl
kept_sum plan_id unpaid (i ∷ is) (h, hs) (k, ks) =
    let later = kept_sum plan_id unpaid is hs ks in
    elim (Bool-cases (in_plan plan_id i)) [
      | inr c ↦ elim (Bool-cases (id_in unpaid i)) [
        | inl d ↦ rw (select, c, select, d) later
        | inr d ↦ rw (select, c, select, d) (rw (c, later) (omega int_laws))
      ]
      | inl c ↦
          let which = h c in
          elim (Bool-cases (is_unpaid i)) [
            | inl d ↦
                let off : has_allocation i ≡ false = ground (arith, d, k) in
                rw (select, which, d, select, c, off) later
            | inr d ↦
                let on : has_allocation i ≡ true = ground (arith, d, k) in
                rw (select, which, d, select, c, on) (rw (if◌then◌else◌, later))
          ]
    ]
