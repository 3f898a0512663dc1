-- ===== src/Plans/Stages.antt =====
-- `raiseStage` (apps/api/src/postsales/stage-raise.service.ts): the installments of a construction
-- stage become due, for all bookings of a project.
use openestate.Base.{
  ℕ, suc, Bool, true, false, not, ◌&&◌, Option, none, some, [], ◌∷◌, ◌++◌, ◌==◌, any, find?,
  update_where, Result, ok, not_found, bad_request, ◌>>=◌, or_throw, throw_if,
}
use openestate.Plans.Rows.{
  is_stage_linked, PlanMilestone, PlanInstallment, StageRaise, PlanRows, find_template,
  compute_raised_due_date, find_stage_raise,
}

-- `RaiseStageDto`
pub record RaiseStage : Type 0 where
  pub template_id : ℕ
  pub milestone_seq : ℕ
  pub stage_completed_on : ℕ

abbrev pub find_milestone : ℕ → ℕ → PlanRows → Option PlanMilestone
find_milestone template_id seq rows = elim (find_template template_id rows) [
  | none ↦ none
  | some t ↦ find? (λ m. m.seq == seq) t.milestones
]

abbrev pub new_raise : ℕ → ℕ → RaiseStage → StageRaise
new_raise id project_id dto = record {
  id = id;
  project_id = project_id;
  template_id = dto.template_id;
  milestone_seq = dto.milestone_seq;
  stage_completed_on = dto.stage_completed_on;
}

-- The raise that there is, or a new one, and the rows with it.
unfoldable pub ensure_raise : ℕ → RaiseStage → PlanRows → StageRaise × PlanRows
ensure_raise project_id dto rows =
    elim (find_stage_raise project_id dto.template_id dto.milestone_seq rows) [
      | some s ↦ (s, rows)
      | none ↦ (
        new_raise rows.next_id project_id dto,
        record rows {
          next_id = suc rows.next_id;
          stage_raises = rows.stage_raises ++ new_raise rows.next_id project_id dto ∷ [];
        },
      )
    ]

abbrev pub is_null : Option ℕ → Bool
is_null none = true
is_null (some x) = false

abbrev pub is_seq : Option ℕ → ℕ → Bool
is_seq none seq = false
is_seq (some s) seq = s == seq

-- `plan: { isActive: true, templateId }` and `booking: { unit: { projectId } }`
abbrev pub plan_uses : ℕ → ℕ → PlanRows → Bool
plan_uses template_id plan_id rows =
    any (λ p. p.id == plan_id && p.is_active && is_seq p.template_id template_id) rows.plans

abbrev pub booking_in : ℕ → ℕ → PlanRows → Bool
booking_in project_id booking_id rows =
    any (λ b. b.id == booking_id && b.project_id == project_id) rows.bookings

abbrev pub is_raisable : ℕ → RaiseStage → PlanRows → PlanInstallment → Bool
is_raisable project_id dto rows i =
    is_stage_linked i.milestone_type
    && is_seq i.milestone_seq dto.milestone_seq
    && is_null i.due_date
    && plan_uses dto.template_id i.plan_id rows
    && booking_in project_id i.booking_id rows

abbrev pub raised : ℕ → ℕ → PlanInstallment → PlanInstallment
raised due raise_id i = record i { due_date = some due; stage_raise_id = some raise_id }

-- The bulk update.
abbrev pub raise_all : ℕ → RaiseStage → ℕ → ℕ → PlanRows → PlanRows
raise_all project_id dto due raise_id rows = record rows {
  installments =
      update_where (is_raisable project_id dto rows) (raised due raise_id) rows.installments;
}

unfoldable pub raise_stage : ℕ → RaiseStage → PlanRows → Result PlanRows
unfolding ensure_raise
raise_stage project_id dto rows = do
  _ ← throw_if (not (any (λ p. p == project_id) rows.projects)) not_found
  milestone ← or_throw (find_milestone dto.template_id dto.milestone_seq rows) not_found
  _ ← throw_if (not (is_stage_linked milestone.milestone_type)) bad_request
  let (stage, with_raise) = ensure_raise project_id dto rows
  let due = compute_raised_due_date stage.stage_completed_on milestone.grace_days_after_raise
  ok (raise_all project_id dto due stage.id with_raise)
