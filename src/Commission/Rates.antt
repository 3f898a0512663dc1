-- ===== src/Commission/Rates.antt =====
-- How large a commission may be (packages/shared/src/commission.ts, `percentOf` of money.ts).
use openestate.Base.{ℕ, ◌*◌, ◌≤◌, ◌≡◌, refl, arith, List, ok, All}
use openestate.Base.Int.{ℤ, pos, negsuc, ◌≤ℤ◌, pos-mul}
use openestate.Money.{half_up, round_quot, percent_of}
use openestate.Money.Rounding.{half_up_bounds}
use openestate.Commission.{
  CommissionSlab, CommissionRule, CommissionType, flat_percent, flat_amount, slab, or_else,
  validate_slab_contiguity, valid, compute_commission_paise,
}
use openestate.Commission.Slabs.{match_commission_slab_total}

-- A rate of at most 100% takes at most the whole.
half_up_share : (n bp : ℕ) → bp ≤ 10_000 → half_up (n * bp) 10_000 ≤ n
half_up_share n bp h =
    let (lo, hi) = half_up_bounds (n * bp) 9_999 in
    let m : n * bp ≤ n * 10_000 = grind arith in omega (arith, lo, m)

abbrev pub InRange : ℤ → ℤ → Type 0
InRange top x = (pos 0 ≤ℤ x) × (x ≤ℤ top)

pub percent_of_range :
    (basis : ℤ) (bp : ℕ) → pos 0 ≤ℤ basis → bp ≤ 10_000 → InRange basis (percent_of basis bp)
unfolding percent_of round_quot
percent_of_range (pos n) bp h k =
    rw (pos-mul n bp) (omega arith, omega (arith, half_up_share n bp k))
percent_of_range (negsuc n) bp h k = absurd (omega arith)

-- The rule charges no more than 100%, and its flat amount lies within the basis.
abbrev pub Moderate : ℤ → CommissionRule → Type 0
Moderate basis rule =
    (or_else rule.flat_percent_hundredths 0 ≤ 10_000)
    × InRange basis (or_else rule.flat_paise (pos 0))

abbrev pub AtMostWhole : CommissionSlab → Type 0
AtMostWhole s = s.rate_percent ≤ 10_000

-- For a basis of zero or more, a moderate rule, and an accepted slab table whose rates are at
-- most 100%, the commission is computed without an error, and lies between zero and the basis.
pub compute_commission_range :
    (basis : ℤ) (rule : CommissionRule) (slabs : List CommissionSlab)
    → pos 0 ≤ℤ basis
    → Moderate basis rule
    → validate_slab_contiguity slabs ≡ valid
    → All AtMostWhole slabs
    → (c : ℤ) × (compute_commission_paise basis rule slabs ≡ ok c) × InRange basis c
unfolding compute_commission_paise
compute_commission_range basis rule slabs h m v a = by_type rule.commission_type refl
  where
    by_type :
        (t : CommissionType)
        → rule.commission_type ≡ t
        → (c : ℤ) × (compute_commission_paise basis rule slabs ≡ ok c) × InRange basis c
    by_type flat_amount e = (or_else rule.flat_paise (pos 0), rw e, m.1)
    by_type flat_percent e =
        let bp = or_else rule.flat_percent_hundredths 0 in
        (percent_of basis bp, rw e, percent_of_range basis bp h m.0)
    by_type slab e =
        let (s, found, rate, _) = match_commission_slab_total AtMostWhole basis slabs v a h in
        (
          percent_of basis s.rate_percent,
          rw (e, found),
          percent_of_range basis s.rate_percent h rate,
        )
