-- ===== src/Commission/Slabs.antt =====
-- A slab table that `validateSlabContiguity` accepts (packages/shared/src/commission.ts) has a
-- slab for every basis of zero or more, and `matchCommissionSlab` finds it.
use openestate.Base.{
  ◌≡◌, inl, inr, arith, true, some, List, [], ◌∷◌, ok, find?, find?-hit, find?-miss, find?-All, ◌∙◌,
  All, Bool-cases, sort_by-All,
}
use openestate.Base.Int.{ℤ, pos, ◌≤ℤ◌}
use openestate.Commission.{
  CommissionSlab, sort_slabs, seq_before, below_top, in_slab, match_commission_slab, valid,
  check_chain, check_sorted, validate_slab_contiguity,
}

chain_finds :
    (basis : ℤ) (s : CommissionSlab) (rest : List CommissionSlab)
    → check_chain (s ∷ rest) ≡ valid
    → s.from_paise ≤ℤ basis
    → (x : CommissionSlab) × (find? (in_slab basis) (s ∷ rest) ≡ some x)
unfolding check_chain
chain_finds basis s [] c h = (s, ground arith)
chain_finds basis s (t ∷ rest) c h = elim (Bool-cases (in_slab basis s)) [
  | inl e ↦ (s, find?-hit (in_slab basis) s (t ∷ rest) e)
  | inr e ↦
      let (x, found) = chain_finds basis t rest (ground arith) (ground arith) in
      (x, find?-miss (in_slab basis) s (t ∷ rest) e ∙ found)
]

sorted_finds :
    (basis : ℤ) (slabs : List CommissionSlab)
    → check_sorted slabs ≡ valid
    → pos 0 ≤ℤ basis
    → (x : CommissionSlab) × (find? (in_slab basis) slabs ≡ some x)
unfolding check_sorted
sorted_finds basis [] c h = cc
sorted_finds basis (s ∷ rest) c h = chain_finds basis s rest (ground arith) (ground arith)

-- `basis` lies in the half-open bracket of the slab.
abbrev pub InSlab : ℤ → CommissionSlab → Type 0
InSlab basis s = (s.from_paise ≤ℤ basis) × (below_top basis s.to_paise ≡ true)

-- If the check accepts a table, then for every basis of zero or more `matchCommissionSlab`
-- returns a slab: one whose bracket holds the basis, and which has whatever holds of all slabs
-- of the table.
pub match_commission_slab_total :
    (P : CommissionSlab → Type 0) (basis : ℤ) (slabs : List CommissionSlab)
    → validate_slab_contiguity slabs ≡ valid
    → All P slabs
    → pos 0 ≤ℤ basis
    → (s : CommissionSlab) × (match_commission_slab basis slabs ≡ ok s) × P s × InSlab basis s
unfolding validate_slab_contiguity match_commission_slab
match_commission_slab_total P basis slabs c all h =
    let (s, found) = sorted_finds basis (sort_slabs slabs) c h in
    let (ps, inside) =
      find?-All (in_slab basis) P (sort_slabs slabs) (sort_by-All seq_before P slabs all) found in
    (s, rw found, ps, (ground arith, ground arith))
