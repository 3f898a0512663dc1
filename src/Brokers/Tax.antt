-- ===== src/Brokers/Tax.antt =====
-- `pay` (apps/api/src/commission/commission-payment.service.ts): the tax of section 194-H splits over
-- the allocations.
use openestate.Base.{
  ℕ, ◌<◌, ◌≡◌, refl, ◌∙◌, arith, false, List, [], ◌∷◌, if◌then◌else◌, Bool-cases, inl, inr, All,
  map, length, ok, length-map,
}
use openestate.Base.Int.{ℤ, pos, pos_part, neg_part, ltb_ℤ}
use openestate.Money.{sum}
use openestate.Money.Allocation.{allocate-NonNegative}
use openestate.Brokers.Attribution.{GrossAllocation, is_empty}
use openestate.Brokers.Shares.{Positive}
use openestate.Brokers.Payments.{tds_shares}

-- The weights of the tax shares.
abbrev weights : List GrossAllocation → List ℕ
weights allocations = map (λ a. pos_part a.gross_paise) allocations

weights-Positive :
    (allocations : List GrossAllocation)
    → All Positive allocations
    → is_empty allocations ≡ false
    → 0 < sum (weights allocations)
unfolding sum
weights-Positive [] h e = cc
weights-Positive (a ∷ allocations) ((p, _), _) e = omega (arith, p)

zeros-NonNegative :
    (allocations : List GrossAllocation)
    → All (λ s. neg_part s ≡ 0) (map (λ (a : GrossAllocation). pos 0) allocations)
zeros-NonNegative [] = tt
zeros-NonNegative (a ∷ allocations) = (refl, zeros-NonNegative allocations)

-- The tax always splits, one share of zero or more to each allocation.
pub tds_shares_returns :
    (tds : ℤ) (allocations : List GrossAllocation)
    → All Positive allocations
    → is_empty allocations ≡ false
    → (shares : List ℤ) × (tds_shares tds allocations ≡ ok shares)
      × (length shares ≡ length allocations)
      × All (λ s. neg_part s ≡ 0) shares
unfolding tds_shares
tds_shares_returns tds allocations h e = elim (Bool-cases (ltb_ℤ (pos 0) tds)) [
  | inl c ↦
      let (shares, made, _, len, low) =
        allocate-NonNegative tds (weights allocations) (ground (arith, c))
          (weights-Positive allocations h e) in
      (shares, rw (c, if◌then◌else◌) made, len ∙ length-map _ allocations, low)
  | inr c ↦ (
    map (λ _. pos 0) allocations,
    rw (c, if◌then◌else◌),
    length-map _ allocations,
    zeros-NonNegative allocations,
  )
]
