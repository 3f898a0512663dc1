-- ===== src/Commission.antt =====
-- packages/shared/src/commission.ts, the computation of a broker's commission: slab matching,
-- the check of a slab table, and the commission of a rule. A percentage is stored as a decimal
-- with two places, so `Math.round(Number(x) * 100)` is the stored number of hundredths: the
-- fields below hold that number, which is a rate in basis points.
pub mod Slabs
pub mod Rates
mod Tests
use openestate.Base.{
  ℕ, ◌≡◌, Bool, true, false, ◌&&◌, Option, none, some, List, [], ◌∷◌, ltb, if◌then◌else◌, Result,
  ok, err, thrown, ◌>>=◌, or_throw, sort_by, find?,
}
use openestate.Base.Int.{ℤ, pos, ltb_ℤ, leb_ℤ, eqb_ℤ}
use openestate.Money.{percent_of}

-- `CommissionSlabLike` and `CommissionSlabInput`: `none` is an unbounded top.
pub record CommissionSlab : Type 0 where
  pub seq : ℕ
  pub from_paise : ℤ
  pub to_paise : Option ℤ
  pub rate_percent : ℕ

-- `(a, b) => a.seq - b.seq`
seq_before : CommissionSlab → CommissionSlab → Bool
seq_before a b = ltb a.seq b.seq

pub sort_slabs : List CommissionSlab → List CommissionSlab
unfolding seq_before sort_by
sort_slabs slabs = sort_by seq_before slabs

-- `s.toPaise === null || basisPaise < s.toPaise`
abbrev pub below_top : ℤ → Option ℤ → Bool
below_top basis none = true
below_top basis (some to) = ltb_ℤ basis to

abbrev pub in_slab : ℤ → CommissionSlab → Bool
in_slab basis s = leb_ℤ s.from_paise basis && below_top basis s.to_paise

pub match_commission_slab : ℤ → List CommissionSlab → Result CommissionSlab
unfolding sort_slabs
match_commission_slab basis_paise slabs =
    or_throw (find? (in_slab basis_paise) (sort_slabs slabs)) thrown

-- What `validateSlabContiguity` answers; each error is one of its messages.
pub data Validity : Type 0 where
  valid : Validity
  no_slab first_not_zero inner_unbounded not_contiguous top_bounded : Validity

-- The loop over neighbours, and the last check, on the sorted slabs.
pub check_chain : List CommissionSlab → Validity
check_chain [] = valid
check_chain (s ∷ []) = elim s.to_paise [ none ↦ valid | some _ ↦ top_bounded ]
check_chain (s ∷ t ∷ rest) =
    let later = check_chain (t ∷ rest) in
    elim s.to_paise [
      | none ↦ inner_unbounded
      | some to ↦ if eqb_ℤ to t.from_paise then later else not_contiguous
    ]

pub check_sorted : List CommissionSlab → Validity
unfolding check_chain
check_sorted [] = no_slab
check_sorted (s ∷ rest) =
    if eqb_ℤ s.from_paise (pos 0) then check_chain (s ∷ rest) else first_not_zero

pub validate_slab_contiguity : List CommissionSlab → Validity
unfolding check_sorted sort_slabs
validate_slab_contiguity slabs = check_sorted (sort_slabs slabs)

pub data CommissionType : Type 0 where
  flat_percent flat_amount slab : CommissionType

-- `CommissionRuleLike`
pub record CommissionRule : Type 0 where
  pub commission_type : CommissionType
  pub flat_percent_hundredths : Option ℕ
  pub flat_paise : Option ℤ

abbrev pub or_else {ℓ} : {A : Type ℓ} → Option A → A → A
or_else none d = d
or_else (some a) d = a

slab_commission : ℤ → Result CommissionSlab → Result ℤ
slab_commission basis_paise found = do
  matched ← found
  ok (percent_of basis_paise matched.rate_percent)

unfoldable pub compute_commission_paise : ℤ → CommissionRule → List CommissionSlab → Result ℤ
unfolding slab_commission
compute_commission_paise basis_paise rule slabs = elim rule.commission_type [
  | flat_amount ↦ ok (or_else rule.flat_paise (pos 0))
  | flat_percent ↦ ok (percent_of basis_paise (or_else rule.flat_percent_hundredths 0))
  | slab ↦ slab_commission basis_paise (match_commission_slab basis_paise slabs)
]
