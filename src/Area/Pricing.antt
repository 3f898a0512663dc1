-- ===== src/Area/Pricing.antt =====
-- `computeBaseAmountPaise` (packages/shared/src/area.ts): what a matched unit and a whole-number
-- unit ratio make of the price.
use openestate.Base.{ℕ, suc, ◌+◌, ◌*◌, ◌≤◌, ◌≡◌, refl, ap, ◌∙◌, arith, ok, Option, none, some}
use openestate.Base.Int.{ℤ, pos, negsuc, neg, ◌*ℤ◌, pos-mul, neg-mul, negsuc-neg, *ℤ_assoc}
use openestate.Money.{half_up, round_quot}
use openestate.Money.Rounding.{half_up_bounds, half_up_unique, round_quot-neg}
use openestate.Area.{
  AreaUnit, sqft, sqyd, sqm, acre, gunta, area_scale, sqft_per_unit_scaled, div_round_half_up,
  PricingArgs, compute_base_amount_paise, convert_to_sqft_scaled, sqft_scale,
}
use openestate.Area.Conversion.{div_round_half_up-suc, half_up-mul}

mul_mono : (a b f : ℕ) → a ≤ b → a * f ≤ b * f
mul_mono a b f h = grind arith

-- A common factor of numerator and denominator cancels before rounding.
half_up-cancel : (n d f : ℕ) → half_up (n * suc f) (suc (d * suc f + f)) ≡ half_up n (suc d)
half_up-cancel n d f =
    let q = half_up n (suc d) in
    let (lo, hi) = half_up_bounds n d in
    let lo' = mul_mono (2 * (q * suc d)) (2 * n + suc d) (suc f) lo in
    let hi' = mul_mono (suc (2 * n)) (2 * (q * suc d) + suc d) (suc f) hi in
    half_up_unique (n * suc f) (d * suc f + f) q (omega (arith, lo')) (omega (arith, hi'))

cancel_pos :
    (n d f : ℕ)
    → round_quot (pos n *ℤ pos (suc f)) (suc (d * suc f + f)) ≡ round_quot (pos n) (suc d)
unfolding round_quot
cancel_pos n d f = rw (pos-mul n (suc f)) (ap pos (half_up-cancel n d f))

round_quot-cancel :
    (n : ℤ) (d f : ℕ) → round_quot (n *ℤ pos (suc f)) (suc (d * suc f + f)) ≡ round_quot n (suc d)
round_quot-cancel (pos n) d f = cancel_pos n d f
round_quot-cancel (negsuc n) d f = rw (
  negsuc-neg n,
  neg-mul (pos (suc n)) (pos (suc f)),
  round_quot-neg (pos (suc n) *ℤ pos (suc f)) (d * suc f + f),
  round_quot-neg (pos (suc n)) d,
  cancel_pos (suc n) d f,
)

cancel_factor :
    (n : ℤ) (d f : ℕ)
    → div_round_half_up (n *ℤ pos (suc f)) (pos (suc d) *ℤ pos (suc f))
      ≡ div_round_half_up n (pos (suc d))
cancel_factor n d f =
    let e : suc d * suc f ≡ suc (d * suc f + f) = omega arith in
    rw (
      pos-mul (suc d) (suc f),
      e,
      div_round_half_up-suc (n *ℤ pos (suc f)) (d * suc f + f),
      div_round_half_up-suc n d,
      round_quot-cancel n d f,
    )

-- The price of an area that was entered in the unit of the rate.
abbrev pub matched : ℤ → ℤ → AreaUnit → PricingArgs
matched rate entered unit = record {
  rate_paise = rate;
  rate_unit = unit;
  land_area_entered_scaled = entered;
  land_area_entered_unit = unit;
}

-- Where the area is entered in the unit of the rate, the unit's factor cancels exactly: the
-- price is the rate times the area, rounded once, and is the same for every unit.
pub matched_units :
    (rate entered : ℤ) (unit : AreaUnit)
    → compute_base_amount_paise (matched rate entered unit)
      ≡ div_round_half_up (rate *ℤ entered) (pos area_scale)
unfolding compute_base_amount_paise sqft_per_unit_scaled
matched_units rate entered sqft = cancel_factor (rate *ℤ entered) 999_999 9_999_999_999
matched_units rate entered sqyd = cancel_factor (rate *ℤ entered) 999_999 89_999_999_999
matched_units rate entered sqm = cancel_factor (rate *ℤ entered) 999_999 107_639_104_166
matched_units rate entered acre = cancel_factor (rate *ℤ entered) 999_999 435_599_999_999_999
matched_units rate entered gunta = cancel_factor (rate *ℤ entered) 999_999 10_889_999_999_999

round_quot-mul : (x : ℤ) (d : ℕ) → round_quot (x *ℤ pos (suc d)) (suc d) ≡ x
round_quot-mul (pos n) d = unfold round_quot in rw (pos-mul n (suc d)) (ap pos (half_up-mul n d))
round_quot-mul (negsuc n) d =
    rw
      (
        negsuc-neg n,
        neg-mul (pos (suc n)) (pos (suc d)),
        round_quot-neg (pos (suc n) *ℤ pos (suc d)) d,
      )
      (ap neg (unfold round_quot in rw (pos-mul (suc n) (suc d)) (ap pos (half_up-mul (suc n) d))))

-- How many square feet make up one unit, where that is a whole number.
abbrev pub whole_factor : AreaUnit → Option ℕ
whole_factor sqft = some 1
whole_factor sqyd = some 9
whole_factor sqm = none
whole_factor acre = some 43_560
whole_factor gunta = some 1_089

factor_scaled :
    (unit : AreaUnit) (k : ℕ)
    → whole_factor unit ≡ some k
    → sqft_per_unit_scaled unit ≡ k * sqft_scale
unfolding sqft_per_unit_scaled
factor_scaled unit k h = ground arith

-- For a unit of a whole number of square feet the conversion is exact, and the price of the
-- entered area is the price of the converted one, whatever the unit of the rate.
pub whole_units :
    (rate entered : ℤ) (unit rate_unit : AreaUnit) (k : ℕ)
    → whole_factor unit ≡ some k
    → (convert_to_sqft_scaled entered unit ≡ ok (entered *ℤ pos k))
      × (compute_base_amount_paise (record {
        rate_paise = rate;
        rate_unit = rate_unit;
        land_area_entered_scaled = entered;
        land_area_entered_unit = unit;
      })
          ≡ compute_base_amount_paise (record {
            rate_paise = rate;
            rate_unit = rate_unit;
            land_area_entered_scaled = entered *ℤ pos k;
            land_area_entered_unit = sqft;
          }))
unfolding compute_base_amount_paise convert_to_sqft_scaled
whole_units rate entered unit rate_unit k h =
    let e = factor_scaled unit k h in
    let one = factor_scaled sqft 1 refl in
    (
      rw (e, ← pos-mul k sqft_scale, ← *ℤ_assoc entered (pos k) (pos sqft_scale))
          (div_round_half_up-suc (entered *ℤ pos k *ℤ pos sqft_scale) 9_999_999_999
            ∙ ap ok (round_quot-mul (entered *ℤ pos k) 9_999_999_999)),
      rw (
        e,
        one,
        ← pos-mul k sqft_scale,
        ← *ℤ_assoc (rate *ℤ entered) (pos k) (pos sqft_scale),
        *ℤ_assoc rate entered (pos k),
      ),
    )
