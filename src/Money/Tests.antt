-- ===== src/Money/Tests.antt =====
-- packages/shared/test/money.test.ts on the model, and the theorems at concrete inputs.
use openestate.Base.{
  ℕ, ◌+◌, ◌*◌, ◌≤◌, ◌≡◌, refl, arith, ok, err, range_error, true, false, List, [], ◌∷◌, map, length,
  get_or,
}
use openestate.Base.Int.{ℤ, pos, negsuc, neg, sum_ℤ, magnitude, ◌-ℤ◌, ◌*ℤ◌}
use openestate.Money.{
  rounded_div, round_quot, percent_of, allocate, sum, GstComponents, gst_components, gst_total,
}
use openestate.Money.Rounding.{off_by, rounded_div_nearest, negated, rounded_div-neg}
use openestate.Money.Allocation.{allocate-sum}
use openestate.Money.Quota.{quota, allocate-quota}
use openestate.Money.Gst.{gst_components_even, gst_components_odd}

halves :
    (rounded_div (pos 7) (pos 2) ≡ ok (pos 4)) × (rounded_div (negsuc 6) (pos 2) ≡ ok (negsuc 3))
unfolding rounded_div neg
halves = (refl, refl)

percents : (percent_of (pos 1_000_000) 1800 ≡ pos 180_000) × (percent_of (pos 1) 4900 ≡ pos 0)
unfolding percent_of round_quot ◌*ℤ◌
percents = (refl, refl)

thirds : allocate (pos 10_000) (1 ∷ 1 ∷ 1 ∷ []) ≡ ok (pos 3334 ∷ pos 3333 ∷ pos 3333 ∷ [])
unfolding allocate
thirds = refl

weighted : allocate (pos 1000) (3 ∷ 1 ∷ []) ≡ ok (pos 750 ∷ pos 250 ∷ [])
unfolding allocate
weighted = refl

-- The leftover paise goes to the largest remainder, which stands last here.
largest_remainder : allocate (pos 10) (3 ∷ 3 ∷ 5 ∷ []) ≡ ok (pos 3 ∷ pos 3 ∷ pos 4 ∷ [])
unfolding allocate
largest_remainder = refl

-- 0.25% is 25 basis points.
quarter_percent : gst_components (pos 1_000_000) 25 true ≡ err range_error
unfolding gst_components
quarter_percent = refl

rounded_div_nearest_example :
    (q : ℤ) × (rounded_div (negsuc 6) (pos 2) ≡ ok q)
    × (2 * off_by (negsuc 6) q (pos 2) ≤ magnitude (pos 2))
rounded_div_nearest_example = rounded_div_nearest (negsuc 6) (pos 2) two_ne
  where
    two_ne : ¬ (pos 2 ≡ pos 0)
    two_ne e = cc

rounded_div-neg_example :
    (rounded_div (neg (pos 7)) (pos 2) ≡ negated (rounded_div (pos 7) (pos 2)))
    × (rounded_div (pos 7) (neg (pos 2)) ≡ negated (rounded_div (pos 7) (pos 2)))
rounded_div-neg_example = rounded_div-neg (pos 7) (pos 2)

allocate-sum_example :
    (shares : List ℤ) × (allocate (negsuc 9_999) (1 ∷ 1 ∷ 1 ∷ []) ≡ ok shares)
    × (sum_ℤ shares ≡ negsuc 9_999)
    × (length shares ≡ 3)
unfolding sum
allocate-sum_example = allocate-sum (negsuc 9_999) (1 ∷ 1 ∷ 1 ∷ []) (omega arith)

allocate-quota_example :
    (shares : List ℕ) × (allocate (pos 10) (3 ∷ 3 ∷ 5 ∷ []) ≡ ok (map pos shares))
    × ((i : ℕ)
        → (quota 10 (3 ∷ 3 ∷ 5 ∷ []) i ≤ get_or shares i 0)
          × (get_or shares i 0 ≤ quota 10 (3 ∷ 3 ∷ 5 ∷ []) i + 1))
unfolding sum
allocate-quota_example = allocate-quota 10 (3 ∷ 3 ∷ 5 ∷ []) (omega arith)

gst_components_even_example :
    (intra inter : GstComponents) × (gst_components (pos 333) (2 * 900) true ≡ ok intra)
    × (gst_components (pos 333) (2 * 900) false ≡ ok inter)
    × (intra.cgst_paise ≡ intra.sgst_paise)
    × (intra.igst_paise ≡ pos 0)
    × (inter.cgst_paise ≡ pos 0)
    × (inter.sgst_paise ≡ pos 0)
    × (magnitude (gst_total inter -ℤ gst_total intra) ≤ 1)
gst_components_even_example = gst_components_even (pos 333) 900

gst_components_odd_example : gst_components (pos 333) (2 * 12 + 1) false ≡ err range_error
gst_components_odd_example = gst_components_odd (pos 333) 12 false
