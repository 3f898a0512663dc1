-- ===== src/Area.antt =====
-- packages/shared/src/area.ts: land areas as integers scaled by 10^6, and the price of a plot.
-- The decimal strings of `toAreaScaled` and the display formatters are not modelled here.
pub mod Conversion
pub mod Pricing
mod Tests
use openestate.Base.{
  ℕ, suc, ◌+◌, ◌*◌, ◌/◌, ◌%◌, Bool, true, false, not, leb, if◌then◌else◌, Result, ok, err, thrown,
}
use openestate.Base.Int.{ℤ, pos, negsuc, neg, ◌*ℤ◌, magnitude, ltb_ℤ}

pub data AreaUnit : Type 0 where
  sqft sqyd sqm acre gunta : AreaUnit

abbrev pub area_scale : ℕ
area_scale = 1_000_000

abbrev pub sqft_scale : ℕ
sqft_scale = 10_000_000_000

pub sqft_per_unit_scaled : AreaUnit → ℕ
sqft_per_unit_scaled sqft = 10_000_000_000
sqft_per_unit_scaled sqyd = 90_000_000_000
sqft_per_unit_scaled gunta = 10_890_000_000_000
sqft_per_unit_scaled acre = 435_600_000_000_000
sqft_per_unit_scaled sqm = 107_639_104_167

-- `a !== b` on Booleans.
abbrev differ : Bool → Bool → Bool
differ true b = not b
differ false b = b

-- `rounded` of two magnitudes.
round_magnitudes : ℕ → ℕ → ℕ
round_magnitudes abs_num abs_den =
    let quotient = abs_num / abs_den in
    let remainder = abs_num % abs_den in
    if leb abs_den (remainder * 2) then quotient + 1 else quotient

round_signed : ℤ → ℤ → ℤ
unfolding round_magnitudes
round_signed num den =
    let negative = differ (ltb_ℤ num (pos 0)) (ltb_ℤ den (pos 0)) in
    let rounded = pos (round_magnitudes (magnitude num) (magnitude den)) in
    if negative then neg rounded else rounded

pub div_round_half_up : ℤ → ℤ → Result ℤ
unfolding round_signed
div_round_half_up num den = if leb (magnitude den) 0 then err thrown else ok (round_signed num den)

pub convert_to_sqft_scaled : ℤ → AreaUnit → Result ℤ
convert_to_sqft_scaled entered_scaled entered_unit =
    let numerator = entered_scaled *ℤ pos (sqft_per_unit_scaled entered_unit) in
    div_round_half_up numerator (pos sqft_scale)

pub convert_from_sqft_scaled : ℤ → AreaUnit → Result ℤ
convert_from_sqft_scaled sqft_scaled target_unit =
    let numerator = sqft_scaled *ℤ pos sqft_scale in
    div_round_half_up numerator (pos (sqft_per_unit_scaled target_unit))

-- The argument of `computeBaseAmountPaise`.
pub record PricingArgs : Type 0 where
  pub rate_paise : ℤ
  pub rate_unit : AreaUnit
  pub land_area_entered_scaled : ℤ
  pub land_area_entered_unit : AreaUnit

pub compute_base_amount_paise : PricingArgs → Result ℤ
compute_base_amount_paise args =
    let numerator =
      args.rate_paise
      *ℤ args.land_area_entered_scaled
      *ℤ pos (sqft_per_unit_scaled args.land_area_entered_unit) in
    let denominator = pos area_scale *ℤ pos (sqft_per_unit_scaled args.rate_unit) in
    div_round_half_up numerator denominator
