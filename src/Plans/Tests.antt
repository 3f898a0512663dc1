-- ===== src/Plans/Tests.antt =====
-- A booking at 1,000 paise with a plan of two installments, the first of which is paid.
use openestate.Base.{ℕ, ◌≡◌, refl, arith, true, none, some, [], ◌∷◌, ok, err, bad_request}
use openestate.Base.Int.{pos, ◌-ℤ◌, ◌+ℤ◌}
use openestate.Plans.Rows.{
  date_linked, stage_linked, PlanBooking, PlanMilestone, PlanInstallment, StageRaise, PlanRows,
  find_plan_booking, create_installment,
}
use openestate.Plans.Amounts.{InstallmentInput, resolve_amounts, by_amount, amounts_of}
use openestate.Plans.Creation.{create_listed, load_active_plan}
use openestate.Plans.Edit.{edit_plan}
use openestate.Plans.Stages.{RaiseStage, raise_stage, ensure_raise}
use openestate.Plans.Raised.{raise_stage_again}
use openestate.Plans.Created.{Scheduled}
use openestate.Plans.Scheduled.{edits, Schedules-Scheduled}

abbrev home : PlanBooking
home = record { id = 1; agreed_price_paise = pos 1000; booking_date = 7; project_id = 5 }

abbrev paid_part : PlanInstallment
paid_part = record {
  id = 11;
  booking_id = 1;
  plan_id = 3;
  seq = 1;
  milestone_type = date_linked;
  milestone_seq = none;
  due_date = some 9;
  stage_raise_id = none;
  amount_paise = pos 400;
  allocated_paise = pos 400;
}

abbrev open_part : PlanInstallment
open_part = record paid_part { id = 12; seq = 2; amount_paise = pos 600; allocated_paise = pos 0 }

abbrev slab_raise : StageRaise
slab_raise = record {
  id = 30;
  project_id = 5;
  template_id = 2;
  milestone_seq = 1;
  stage_completed_on = 6;
}

abbrev before : PlanRows
before = record {
  next_id = 50;
  bookings = home ∷ [];
  projects = 5 ∷ [];
  templates = [];
  plans = record { id = 3; booking_id = 1; template_id = none; version = 1; is_active = true } ∷ [];
  installments = paid_part ∷ open_part ∷ [];
  stage_raises = slab_raise ∷ [];
}

abbrev part : ℕ → InstallmentInput
part amount = record { due_date = 20; amount_paise = some (pos amount); percent_thousandths = none }

abbrev after : PlanRows
after = record before {
  next_id = 52;
  plans = record { id = 3; booking_id = 1; template_id = none; version = 2; is_active = true } ∷ [];
  installments =
      paid_part
      ∷ record open_part { id = 50; due_date = some 20; amount_paise = pos 250 }
      ∷ record open_part { id = 51; seq = 3; due_date = some 20; amount_paise = pos 350 }
      ∷ [];
}

edit_plan_test : edit_plan 1 (part 250 ∷ part 350 ∷ []) before ≡ ok after
unfolding edit_plan resolve_amounts by_amount amounts_of create_listed create_installment
    load_active_plan ◌-ℤ◌ ◌+ℤ◌
edit_plan_test = refl

-- A percentage and an amount do not mix.
mixed_refused :
    edit_plan 1
      (part 250 ∷ record (part 0) { amount_paise = none; percent_thousandths = some 1000 } ∷ [])
      before
    ≡ err bad_request
unfolding edit_plan resolve_amounts ◌-ℤ◌ ◌+ℤ◌
mixed_refused = refl

Schedules-Scheduled_example :
    (booking : PlanBooking) × (find_plan_booking 1 before ≡ some booking)
    × Scheduled 1 booking after
Schedules-Scheduled_example =
    Schedules-Scheduled 1 before after
      ((omega arith, (omega arith, tt)), ((refl, tt), (tt, tt)), (refl, (refl, tt)))
      (edits (part 250 ∷ part 350 ∷ []) edit_plan_test)

-- A plan whose installment waits for a stage, before and after the stage is raised.
abbrev slab : PlanMilestone
slab = record {
  seq = 1;
  milestone_type = stage_linked;
  percent_thousandths = 100_000;
  due_offset_days = 0;
  grace_days_after_raise = 2;
}

abbrev site : PlanRows
site = record before {
  templates = record { id = 2; milestones = slab ∷ [] } ∷ [];
  plans =
      record { id = 3; booking_id = 1; template_id = some 2; version = 1; is_active = true } ∷ [];
  installments =
      record open_part { milestone_type = stage_linked; milestone_seq = some 1; due_date = none }
      ∷ [];
  stage_raises = [];
}

abbrev slab_done : RaiseStage
slab_done = record { template_id = 2; milestone_seq = 1; stage_completed_on = 6 }

abbrev raised_site : PlanRows
raised_site = record site {
  next_id = 51;
  installments =
      record open_part {
        milestone_type = stage_linked;
        milestone_seq = some 1;
        due_date = some 172_800_006;
        stage_raise_id = some 50;
      }
      ∷ [];
  stage_raises = record slab_raise { id = 50 } ∷ [];
}

raise_stage_test : raise_stage 5 slab_done site ≡ ok raised_site
unfolding raise_stage ensure_raise
raise_stage_test = refl

raise_stage_again_example :
    raise_stage 5 (record slab_done { stage_completed_on = 90 }) raised_site ≡ ok raised_site
raise_stage_again_example = raise_stage_again 5 90 slab_done site raised_site raise_stage_test
