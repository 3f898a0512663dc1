-- ===== src/Commission/Tests.antt =====
-- packages/shared/src/commission.ts: tests, and the theorems at concrete inputs.
use openestate.Base.{◌≡◌, refl, arith, ok, none, some, List, [], ◌∷◌}
use openestate.Base.Int.{ℤ, pos}
use openestate.Commission.{
  CommissionSlab, CommissionRule, slab, match_commission_slab, validate_slab_contiguity, valid,
  not_contiguous, compute_commission_paise,
}
use openestate.Commission.Slabs.{InSlab, match_commission_slab_total}
use openestate.Commission.Rates.{AtMostWhole, InRange, compute_commission_range}

abbrev low_slab : CommissionSlab
low_slab = record { seq = 1; from_paise = pos 0; to_paise = some (pos 5000); rate_percent = 100 }

abbrev top_slab : CommissionSlab
top_slab = record { seq = 2; from_paise = pos 5000; to_paise = none; rate_percent = 250 }

-- Out of order on purpose.
abbrev table : List CommissionSlab
table = top_slab ∷ low_slab ∷ []

abbrev slab_rule : CommissionRule
slab_rule = record { commission_type = slab; flat_percent_hundredths = none; flat_paise = none }

table_valid : validate_slab_contiguity table ≡ valid
unfolding validate_slab_contiguity
table_valid = refl

gap_found :
    validate_slab_contiguity (low_slab ∷ record top_slab { from_paise = pos 6000 } ∷ [])
    ≡ not_contiguous
unfolding validate_slab_contiguity
gap_found = refl

-- A basis on a boundary belongs to the higher slab.
boundary : match_commission_slab (pos 5000) table ≡ ok top_slab
unfolding match_commission_slab
boundary = refl

match_commission_slab_total_example :
    (s : CommissionSlab) × (match_commission_slab (pos 7000) table ≡ ok s)
    × AtMostWhole s
    × InSlab (pos 7000) s
match_commission_slab_total_example =
    match_commission_slab_total AtMostWhole (pos 7000) table table_valid (omega arith) (omega arith)

compute_commission_range_example :
    (c : ℤ) × (compute_commission_paise (pos 7000) slab_rule table ≡ ok c) × InRange (pos 7000) c
compute_commission_range_example =
    compute_commission_range (pos 7000) slab_rule table (omega arith) (omega arith) table_valid
      (omega arith)
