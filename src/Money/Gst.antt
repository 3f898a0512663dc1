-- ===== src/Money/Gst.antt =====
-- `gstComponents` and `gstTotal` (packages/shared/src/money.ts): the intra-state halves against
-- the inter-state tax, and the rates at which neither is computed.
use openestate.Base.{
  ℕ, suc, ◌+◌, ◌*◌, ◌/◌, ◌%◌, ◌≤◌, ◌≡◌, refl, arith, ok, err, Bool, true, false, range_error,
}
use openestate.Base.Int.{
  ℤ, pos, negsuc, neg, ◌+ℤ◌, ◌-ℤ◌, ◌*ℤ◌, magnitude, int_laws, pos-mul, neg-mul, magnitude-neg,
  negsuc-neg,
}
use openestate.Money.{half_up, round_quot, percent_of, GstComponents, gst_components, gst_total}
use openestate.Money.Rounding.{half_up_bounds, round_quot-neg}

-- The two halves against the whole, on natural numbers.
halves_close :
    (n : ℕ)
    → (half_up (2 * n) 10_000 ≤ 2 * half_up n 10_000 + 1)
      × (2 * half_up n 10_000 ≤ half_up (2 * n) 10_000 + 1)
halves_close n =
    let (a, b) = half_up_bounds n 9_999 in
    let (c, d) = half_up_bounds (2 * n) 9_999 in
    (omega (arith, a, b, c, d), omega (arith, a, b, c, d))

-- How far the doubled half lies from the whole.
abbrev gap : ℤ → ℤ → ℕ
gap full half = magnitude (full -ℤ (half +ℤ half))

gap-pos : (f h : ℕ) → f ≤ 2 * h + 1 → 2 * h ≤ f + 1 → gap (pos f) (pos h) ≤ 1
unfolding ◌-ℤ◌ ◌+ℤ◌
gap-pos f h a b = ground arith

gap-neg : (f h : ℤ) → gap (neg f) (neg h) ≡ gap f h
gap-neg f h =
    let e : neg f -ℤ (neg h +ℤ neg h) ≡ neg (f -ℤ (h +ℤ h)) = omega int_laws in
    rw e (magnitude-neg (f -ℤ (h +ℤ h)))

percent_of-pos : (n bp : ℕ) → percent_of (pos n) bp ≡ pos (half_up (n * bp) 10_000)
unfolding percent_of round_quot
percent_of-pos n bp = rw (pos-mul n bp)

percent_of-neg : (a : ℤ) (bp : ℕ) → percent_of (neg a) bp ≡ neg (percent_of a bp)
unfolding percent_of
percent_of-neg a bp = rw (neg-mul a (pos bp)) (round_quot-neg (a *ℤ pos bp) 9_999)

percent_of_halves_pos : (n k : ℕ) → gap (percent_of (pos n) (2 * k)) (percent_of (pos n) k) ≤ 1
percent_of_halves_pos n k =
    let (a, b) = halves_close (n * k) in
    let e : n * (2 * k) ≡ 2 * (n * k) = omega arith in
    rw (percent_of-pos n k, percent_of-pos n (2 * k), e) (gap-pos _ (half_up (n * k) 10_000) a b)

percent_of_halves : (base : ℤ) (k : ℕ) → gap (percent_of base (2 * k)) (percent_of base k) ≤ 1
percent_of_halves (pos n) k = percent_of_halves_pos n k
percent_of_halves (negsuc n) k =
    rw
      (
        negsuc-neg n,
        percent_of-neg (pos (suc n)) (2 * k),
        percent_of-neg (pos (suc n)) k,
        gap-neg (percent_of (pos (suc n)) (2 * k)) (percent_of (pos (suc n)) k),
      )
      (percent_of_halves_pos (suc n) k)

-- At a rate of an even number of basis points both calls return. The intra-state parts are two
-- equal halves and no IGST, the inter-state parts are IGST alone, and the two totals differ by
-- at most one paise.
pub gst_components_even :
    (base : ℤ) (k : ℕ)
    → (intra inter : GstComponents) × (gst_components base (2 * k) true ≡ ok intra)
      × (gst_components base (2 * k) false ≡ ok inter)
      × (intra.cgst_paise ≡ intra.sgst_paise)
      × (intra.igst_paise ≡ pos 0)
      × (inter.cgst_paise ≡ pos 0)
      × (inter.sgst_paise ≡ pos 0)
      × (magnitude (gst_total inter -ℤ gst_total intra) ≤ 1)
unfolding gst_components gst_total
gst_components_even base k =
    let half = percent_of base k in
    let full = percent_of base (2 * k) in
    let close = percent_of_halves base k in
    let even : 2 * k % 2 ≡ 0 = omega arith in
    let halved : 2 * k / 2 ≡ k = omega arith in
    let left : pos 0 +ℤ pos 0 +ℤ full ≡ full = omega int_laws in
    let right : half +ℤ half +ℤ pos 0 ≡ half +ℤ half = omega int_laws in
    (
      record { cgst_paise = half; sgst_paise = half; igst_paise = pos 0 },
      record { cgst_paise = pos 0; sgst_paise = pos 0; igst_paise = full },
      rw (even, halved),
      rw even,
      refl,
      refl,
      refl,
      refl,
      rw (left, right) close,
    )

-- At a rate of an odd number of basis points the call throws a RangeError, intra-state or not.
pub gst_components_odd :
    (base : ℤ) (k : ℕ) (intra_state : Bool)
    → gst_components base (2 * k + 1) intra_state ≡ err range_error
unfolding gst_components
gst_components_odd base k intra_state = ground arith
