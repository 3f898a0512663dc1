-- ===== src/Area/Tests.antt =====
-- packages/shared/src/area.ts: tests, and the theorems at concrete inputs.
use openestate.Base.{◌≡◌, refl, ok}
use openestate.Base.Int.{ℤ, pos, negsuc, ◌*ℤ◌}
use openestate.Money.{rounded_div}
use openestate.Area.{
  sqft, sqyd, sqm, acre, area_scale, sqft_per_unit_scaled, div_round_half_up,
  convert_to_sqft_scaled, convert_from_sqft_scaled, compute_base_amount_paise,
}
use openestate.Area.Conversion.{div_round_half_up_lem, convert_round_trip}
use openestate.Area.Pricing.{matched, matched_units, whole_units}

-- 0.372 acre is 16,204.32 square feet.
acres : convert_to_sqft_scaled (pos 372_000) acre ≡ ok (pos 16_204_320_000)
unfolding convert_to_sqft_scaled sqft_per_unit_scaled div_round_half_up ◌*ℤ◌
acres = refl

-- One and a half square metres at 100.01 rupees each.
metres : compute_base_amount_paise (matched (pos 10_001) (pos 1_500_000) sqm) ≡ ok (pos 15_002)
unfolding compute_base_amount_paise sqft_per_unit_scaled div_round_half_up ◌*ℤ◌
metres = refl

div_round_half_up_lem_example :
    div_round_half_up (negsuc 6) (pos 2) ≡ rounded_div (negsuc 6) (pos 2)
div_round_half_up_lem_example = div_round_half_up_lem (negsuc 6) (pos 2) two_ne
  where
    two_ne : ¬ (pos 2 ≡ pos 0)
    two_ne e = cc

convert_round_trip_example :
    (in_sqft : ℤ) × (convert_to_sqft_scaled (pos 1_234_567) sqm ≡ ok in_sqft)
    × (convert_from_sqft_scaled in_sqft sqm ≡ ok (pos 1_234_567))
convert_round_trip_example = convert_round_trip (pos 1_234_567) sqm

matched_units_example :
    compute_base_amount_paise (matched (pos 10_001) (pos 1_500_000) sqm)
    ≡ div_round_half_up (pos 10_001 *ℤ pos 1_500_000) (pos area_scale)
matched_units_example = matched_units (pos 10_001) (pos 1_500_000) sqm

whole_units_example :
    (convert_to_sqft_scaled (pos 372_000) acre ≡ ok (pos 372_000 *ℤ pos 43_560))
    × (compute_base_amount_paise (record {
      rate_paise = pos 99;
      rate_unit = sqyd;
      land_area_entered_scaled = pos 372_000;
      land_area_entered_unit = acre;
    })
        ≡ compute_base_amount_paise (record {
          rate_paise = pos 99;
          rate_unit = sqyd;
          land_area_entered_scaled = pos 372_000 *ℤ pos 43_560;
          land_area_entered_unit = sqft;
        }))
whole_units_example = whole_units (pos 99) (pos 372_000) acre sqyd 43_560 refl
