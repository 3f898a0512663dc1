-- ===== src/Area/Conversion.antt =====
-- The rounding of packages/shared/src/area.ts is that of `roundedDiv`, and converting an area to
-- square feet and back returns the area that was entered, for every unit.
use openestate.Base.{ℕ, zero, suc, ◌+◌, ◌*◌, ◌/◌, ◌<◌, ◌≡◌, ◌≢◌, refl, ap, ◌∙◌, arith, ok}
use openestate.Base.Int.{ℤ, pos, negsuc, neg, ◌*ℤ◌, pos-mul, neg-mul, negsuc-neg, pos_part}
use openestate.Money.{half_up, round_quot, rounded_div}
use openestate.Money.Rounding.{half_up_bounds, half_up_unique, half_up-zero, round_quot-neg}
use openestate.Area.{
  AreaUnit, sqft, sqyd, sqm, acre, gunta, sqft_per_unit_scaled, round_magnitudes, div_round_half_up,
  convert_to_sqft_scaled, convert_from_sqft_scaled,
}
use native.Mathlib.Nat.{div-add-mod', mod-lt}

round_magnitudes-half_up : (n d : ℕ) → round_magnitudes n (suc d) ≡ half_up n (suc d)
unfolding round_magnitudes
round_magnitudes-half_up n d =
    let e = div-add-mod' n (suc d) in
    let l = mod-lt n {m = suc d} (omega arith) in
    ground (arith, e, l, half_up_unique n d (n / suc d), half_up_unique n d (n / suc d + 1))

-- Except at a denominator of zero, `divRoundHalfUp` is `roundedDiv`.
pub div_round_half_up_lem : (n d : ℤ) → d ≢ pos 0 → div_round_half_up n d ≡ rounded_div n d
unfolding div_round_half_up rounded_div neg round_quot
div_round_half_up_lem n (pos zero) h = absurd (h refl)
div_round_half_up_lem (pos n) (pos (suc d)) h = ground (arith, round_magnitudes-half_up n d)
div_round_half_up_lem (negsuc n) (pos (suc d)) h =
    ground (arith, round_magnitudes-half_up (suc n) d)
div_round_half_up_lem (pos zero) (negsuc d) h =
    ground (arith, round_magnitudes-half_up 0 d, half_up-zero d)
div_round_half_up_lem (pos (suc n)) (negsuc d) h =
    ground (arith, round_magnitudes-half_up (suc n) d)
div_round_half_up_lem (negsuc n) (negsuc d) h = ground (arith, round_magnitudes-half_up (suc n) d)

-- With a positive denominator, both signs of the numerator at once.
pub div_round_half_up-suc :
    (n : ℤ) (d : ℕ) → div_round_half_up n (pos (suc d)) ≡ ok (round_quot n (suc d))
unfolding rounded_div
div_round_half_up-suc n d =
    div_round_half_up_lem n (pos (suc d)) (λ e. absurd (omega (arith, ap pos_part e)))

-- A factor above the scale loses nothing: the nearest multiple leads back.
round_back : (f s : ℕ) → s < f → (x : ℕ) → half_up (half_up (x * suc f) (suc s) * suc s) (suc f) ≡ x
round_back f s h x =
    let y = half_up (x * suc f) (suc s) in
    let (lo, hi) = half_up_bounds (x * suc f) s in
    half_up_unique (y * suc s) f x (omega (arith, hi)) (omega (arith, lo))

pub half_up-mul : (x d : ℕ) → half_up (x * suc d) (suc d) ≡ x
half_up-mul x d = half_up_unique (x * suc d) d x (omega arith) (omega arith)

round_same : (d x : ℕ) → half_up (half_up (x * suc d) (suc d) * suc d) (suc d) ≡ x
round_same d x = rw (half_up-mul x d) (half_up-mul x d)

-- The same for signed numbers.
back_pos :
    (f s x : ℕ)
    → half_up (half_up (x * suc f) (suc s) * suc s) (suc f) ≡ x
    → round_quot (round_quot (pos x *ℤ pos (suc f)) (suc s) *ℤ pos (suc s)) (suc f) ≡ pos x
unfolding round_quot
back_pos f s x h = rw (pos-mul x (suc f), pos-mul (half_up (x * suc f) (suc s)) (suc s)) (ap pos h)

back_signed :
    (f s : ℕ)
    → ((x : ℕ) → half_up (half_up (x * suc f) (suc s) * suc s) (suc f) ≡ x)
    → (x : ℤ) → round_quot (round_quot (x *ℤ pos (suc f)) (suc s) *ℤ pos (suc s)) (suc f) ≡ x
back_signed f s h (pos x) = back_pos f s x (h x)
back_signed f s h (negsuc x) =
    let y = round_quot (pos (suc x) *ℤ pos (suc f)) (suc s) in
    rw (
      negsuc-neg x,
      neg-mul (pos (suc x)) (pos (suc f)),
      round_quot-neg (pos (suc x) *ℤ pos (suc f)) s,
      neg-mul y (pos (suc s)),
      round_quot-neg (y *ℤ pos (suc s)) f,
      back_pos f s (suc x) (h (suc x)),
    )

-- The round trip for any factor and scale with the property above.
convert_by :
    (f s : ℕ)
    → ((x : ℕ) → half_up (half_up (x * suc f) (suc s) * suc s) (suc f) ≡ x)
    → (x : ℤ)
    → (y : ℤ) × (div_round_half_up (x *ℤ pos (suc f)) (pos (suc s)) ≡ ok y)
      × (div_round_half_up (y *ℤ pos (suc s)) (pos (suc f)) ≡ ok x)
convert_by f s h x =
    let y = round_quot (x *ℤ pos (suc f)) (suc s) in
    (
      y,
      div_round_half_up-suc (x *ℤ pos (suc f)) s,
      div_round_half_up-suc (y *ℤ pos (suc s)) f ∙ ap ok (back_signed f s h x),
    )

convert_above :
    (f : ℕ)
    → 9_999_999_999 < f
    → (x : ℤ)
    → (y : ℤ) × (div_round_half_up (x *ℤ pos (suc f)) (pos 10_000_000_000) ≡ ok y)
      × (div_round_half_up (y *ℤ pos 10_000_000_000) (pos (suc f)) ≡ ok x)
convert_above f h = convert_by f 9_999_999_999 (round_back f 9_999_999_999 h)

-- An area converted to square feet and back is the area that was entered, in every unit, the
-- square metre with its rounded factor included; neither conversion throws.
pub convert_round_trip :
    (entered : ℤ) (unit : AreaUnit)
    → (in_sqft : ℤ) × (convert_to_sqft_scaled entered unit ≡ ok in_sqft)
      × (convert_from_sqft_scaled in_sqft unit ≡ ok entered)
unfolding convert_to_sqft_scaled convert_from_sqft_scaled sqft_per_unit_scaled
convert_round_trip x sqft = convert_by 9_999_999_999 9_999_999_999 (round_same 9_999_999_999) x
convert_round_trip x sqyd = convert_above 89_999_999_999 (omega arith) x
convert_round_trip x sqm = convert_above 107_639_104_166 (omega arith) x
convert_round_trip x acre = convert_above 435_599_999_999_999 (omega arith) x
convert_round_trip x gunta = convert_above 10_889_999_999_999 (omega arith) x
