-- ===== src/Plans/Amounts.antt =====
-- `resolveAmounts` (apps/api/src/postsales/payment-plan.service.ts): the amounts of the installments
-- that a request lists.
use openestate.Base.{
  ℕ, Bool, true, false, not, ◌&&◌, Option, none, some, List, [], ◌∷◌, any, if◌then◌else◌, Result,
  ok, err, bad_request, thrown, range_error, ◌>>=◌, throw_if,
}
use openestate.Base.Int.{ℤ, eqb_ℤ, sum_ℤ}
use openestate.Money.{allocate}

-- `InstallmentInput`
pub record InstallmentInput : Type 0 where
  pub due_date : ℕ
  pub amount_paise : Option ℤ
  pub percent_thousandths : Option ℕ

abbrev pub has_percent : InstallmentInput → Bool
has_percent i = elim i.percent_thousandths [ none ↦ false | some p ↦ true ]

abbrev pub has_amount : InstallmentInput → Bool
has_amount i = elim i.amount_paise [ none ↦ false | some a ↦ true ]

-- A percentage or an amount that is missing throws.
unfoldable pub percents_of : List InstallmentInput → Result (List ℕ)
percents_of [] = ok []
percents_of (i ∷ rest) = do
  percents ← percents_of rest
  elim i.percent_thousandths [ none ↦ err range_error | some p ↦ ok (p ∷ percents) ]

unfoldable pub amounts_of : List InstallmentInput → Result (List ℤ)
amounts_of [] = ok []
amounts_of (i ∷ rest) = do
  amounts ← amounts_of rest
  elim i.amount_paise [ none ↦ err thrown | some a ↦ ok (a ∷ amounts) ]

-- Percentages are allocated over the total.
unfoldable pub by_percent : List InstallmentInput → ℤ → Result (List ℤ)
unfolding percents_of allocate
by_percent installments total = do weights ← percents_of installments; allocate total weights

-- Amounts add up to the total.
unfoldable pub by_amount : List InstallmentInput → ℤ → Result (List ℤ)
unfolding amounts_of
by_amount installments total = do
  amounts ← amounts_of installments
  _ ← throw_if (not (eqb_ℤ (sum_ℤ amounts) total)) bad_request
  ok amounts

unfoldable pub resolve_amounts : List InstallmentInput → ℤ → Result (List ℤ)
unfolding by_percent by_amount
resolve_amounts installments total = do
  _ ← throw_if (any has_percent installments && any has_amount installments) bad_request
  if any has_percent installments
      then by_percent installments total
      else by_amount installments total
