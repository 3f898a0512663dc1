-- ===== src/Plans/Raised.antt =====
-- `raiseStage` (apps/api/src/postsales/stage-raise.service.ts) when the stage was raised before.
use openestate.Base.{
  find?-added, ℕ, ◌≡◌, refl, ap, ◌∙◌, arith, Bool, true, false, not, ◌&&◌, some, List, [], ◌∷◌,
  ◌==◌, ==_refl, any, sym, update_where, update_where-hit, update_where-miss, Bool-cases,
  Option-cases, inl, inr, ok, bind_inv, or_throw, or_throw_inv, throw_if, throw_if_inv, not_found,
  bad_request,
}
use openestate.Plans.Rows.{
  is_stage_linked, PlanMilestone, StageRaise, PlanRows, compute_raised_due_date, find_stage_raise,
}
use openestate.Plans.Stages.{
  RaiseStage, find_milestone, new_raise, ensure_raise, is_raisable, raised, raise_all, raise_stage,
}

update_twice :
    {A : Type 0} (q : A → Bool) (f g : A → A)
    → ((x : A) → q (f x) ≡ false)
    → (xs : List A) → update_where q g (update_where q f xs) ≡ update_where q f xs
update_twice q f g off [] = refl
update_twice q f g off (x ∷ xs) = elim (Bool-cases (q x)) [
  | inl c ↦
      ap (update_where q g) (update_where-hit q f x xs c)
      ∙ update_where-miss q g (f x) (update_where q f xs) (off x)
      ∙ ap (λ r. f x ∷ r) (update_twice q f g off xs)
      ∙ sym (update_where-hit q f x xs c)
  | inr c ↦
      ap (update_where q g) (update_where-miss q f x xs c)
      ∙ update_where-miss q g x (update_where q f xs) c
      ∙ ap (λ r. x ∷ r) (update_twice q f g off xs)
      ∙ sym (update_where-miss q f x xs c)
]

-- A raise on rows that hold the raise already.
raise_held :
    (project_id due date : ℕ) (dto : RaiseStage) (rows : PlanRows) (milestone : PlanMilestone)
    (stage : StageRaise)
    → any (λ p. p == project_id) rows.projects ≡ true
    → find_milestone dto.template_id dto.milestone_seq rows ≡ some milestone
    → is_stage_linked milestone.milestone_type ≡ true
    → find_stage_raise project_id dto.template_id dto.milestone_seq rows ≡ some stage
    → raise_stage project_id
        (record dto { stage_completed_on = date })
        (raise_all project_id dto due stage.id rows)
      ≡ ok (raise_all project_id dto due stage.id rows)
unfolding raise_stage ensure_raise
raise_held project_id due date dto rows milestone stage p m l s =
    rw (p, m, l, ensure_raise, s)
      (ap (λ is. ok (record rows { installments = is }))
        (update_twice (is_raisable project_id dto rows) (raised due stage.id)
          (raised
            (compute_raised_due_date stage.stage_completed_on milestone.grace_days_after_raise)
            stage.id)
          (λ i. ground arith) rows.installments))

-- Afterwards the raise is there, and the other tables are as before.
ensured :
    (project_id : ℕ) (dto : RaiseStage) (rows : PlanRows)
    → let (stage, after) = ensure_raise project_id dto rows in
      (find_stage_raise project_id dto.template_id dto.milestone_seq after ≡ some stage)
      × (after.projects ≡ rows.projects)
      × (after.templates ≡ rows.templates)
unfolding ensure_raise
ensured project_id dto rows =
    elim (Option-cases (find_stage_raise project_id dto.template_id dto.milestone_seq rows)) [
      | inl h ↦
          rw (ensure_raise, h)
            (
              find?-added
                  (λ s.
                    s.project_id == project_id
                    && s.template_id == dto.template_id
                    && s.milestone_seq == dto.milestone_seq)
                  rows.stage_raises (new_raise rows.next_id project_id dto) h
                  (rw (==_refl project_id, ==_refl dto.template_id, ==_refl dto.milestone_seq)),
              refl,
              refl,
            )
      | inr (s, h) ↦ rw (ensure_raise, h) (h, refl, refl)
    ]

same_milestone :
    (template_id seq : ℕ) (rows after : PlanRows)
    → after.templates ≡ rows.templates
    → find_milestone template_id seq after ≡ find_milestone template_id seq rows
same_milestone template_id seq rows after h = rw h refl

-- Raising a stage again, with whatever date, returns and changes nothing: the date of the first raise
-- stays, and no installment is left to raise.
pub raise_stage_again :
    (project_id date : ℕ) (dto : RaiseStage) (rows rows' : PlanRows)
    → raise_stage project_id dto rows ≡ ok rows'
    → raise_stage project_id (record dto { stage_completed_on = date }) rows' ≡ ok rows'
unfolding raise_stage
raise_stage_again project_id date dto rows rows' h =
    let known = any (λ p. p == project_id) rows.projects in
    let found = find_milestone dto.template_id dto.milestone_seq rows in
    let (_, p, h1) = bind_inv (throw_if (not known) not_found) _ rows' h in
    let (milestone, m, h2) = bind_inv (or_throw found not_found) _ rows' h1 in
    let (_, l, h3) =
      bind_inv (throw_if (not (is_stage_linked milestone.milestone_type)) bad_request) _ rows' h2 in
    let (stage, after) = ensure_raise project_id dto rows in
    let (held, projects, templates) = ensured project_id dto rows in
    let due = compute_raised_due_date stage.stage_completed_on milestone.grace_days_after_raise in
    let made : raise_all project_id dto due stage.id after ≡ rows' = cc in
    rw (← made) (
      raise_held project_id due date dto after milestone stage
        (ap (any (λ p. p == project_id)) projects
          ∙ ground (arith, throw_if_inv (not known) not_found tt p))
        (same_milestone dto.template_id dto.milestone_seq rows after templates
          ∙ or_throw_inv found not_found milestone m)
        (ground
          (arith, throw_if_inv (not (is_stage_linked milestone.milestone_type)) bad_request tt l))
        held)
