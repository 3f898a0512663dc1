-- ===== src/Brokers/Posting.antt =====
-- `pay` (apps/api/src/commission/commission-payment.service.ts): what the posting
-- loop adds to each sum over the commission ledger.
use openestate.Base.{
  ℕ, suc, ◌+◌, ◌≡◌, refl, ◌∙◌, arith, Bool, true, false, ◌&&◌, List, [], ◌∷◌, ◌++◌, ◌==◌,
  if◌then◌else◌, Bool-cases, inl, inr, All, length,
}
use openestate.Base.Int.{ℤ, pos, neg, ◌+ℤ◌, ◌-ℤ◌, pos_part, neg_part, ltb_ℤ, int_laws}
use openestate.Brokers.Rows.{
  CommissionEntry, BrokerRows, entry_row, create_entry, sum_where, CommissionEntryType,
}
use openestate.Brokers.Shares.{gross_for, gross_total}
use openestate.Brokers.Attribution.{GrossAllocation}
use openestate.Brokers.Shares.{gross_for, gross_total}
use openestate.Brokers.Payments.{paid_entry, post_share, post_shares}

-- A test that reads the broker and the booking of an entry.
abbrev pub by_key : (ℕ → ℕ → Bool) → CommissionEntry → Bool
by_key key e = key e.broker_id e.booking_id

pub sum_where-snoc :
    (test : CommissionEntry → Bool) (entries : List CommissionEntry) (e : CommissionEntry)
    → sum_where test (entries ++ e ∷ [])
      ≡ sum_where test entries +ℤ (if test e then e.signed_amount_paise else pos 0)
sum_where-snoc test [] e = omega int_laws
sum_where-snoc test (x ∷ entries) e = rw (sum_where-snoc test entries e) (omega int_laws)

with_tax :
    (c : Bool) (x g t : ℤ)
    → x +ℤ (if c then neg (g -ℤ t) else pos 0) +ℤ (if c then neg t else pos 0)
      ≡ x -ℤ (if c then g else pos 0)
with_tax true x g t = omega int_laws
with_tax false x g t = omega int_laws

without_tax :
    (c : Bool) (x g t : ℤ)
    → pos_part t + neg_part t ≡ 0
    → x +ℤ (if c then neg (g -ℤ t) else pos 0) ≡ x -ℤ (if c then g else pos 0)
without_tax true x g t h = omega (int_laws, h)
without_tax false x g t h = omega int_laws

module _ (key : ℕ → ℕ → Bool) (broker_id : ℕ) where
  -- What an allocation takes from the entries that the test admits.
  abbrev pub taken_part : GrossAllocation → ℤ
  taken_part a = if key broker_id a.booking_id then a.gross_paise else pos 0

  abbrev pub taken : List GrossAllocation → ℤ
  taken [] = pos 0
  taken (a ∷ allocations) = taken_part a +ℤ taken allocations

module _ (key : ℕ → ℕ → Bool) (broker_id now : ℕ) where
  -- The payment and the tax of a share add up to the share.
  post_share-sum_where :
      (a : GrossAllocation) (t : ℤ) (rows : BrokerRows)
      → neg_part t ≡ 0
      → sum_where (by_key key) (post_share broker_id now a t rows).entries
        ≡ sum_where (by_key key) rows.entries -ℤ taken_part key broker_id a
  unfolding post_share create_entry
  post_share-sum_where a t rows h =
      let first = entry_row rows.next_id now (
        paid_entry broker_id CommissionEntryType.payment (neg (a.gross_paise -ℤ t)) a.booking_id) in
      let second =
        entry_row (suc rows.next_id) now
          (paid_entry broker_id CommissionEntryType.tds_withheld (neg t) a.booking_id) in
      let test = by_key key in
      elim (Bool-cases (ltb_ℤ (pos 0) t)) [
        | inl c ↦
            rw
              (
                c,
                sum_where-snoc test (rows.entries ++ first ∷ []) second,
                sum_where-snoc test rows.entries first,
              )
              (with_tax (key broker_id a.booking_id) (sum_where test rows.entries) a.gross_paise t)
        | inr c ↦
            rw (c, sum_where-snoc test rows.entries first)
              (without_tax (key broker_id a.booking_id) (sum_where test rows.entries) a.gross_paise
                t (ground (arith, c, h)))
      ]

  pub post_shares-sum_where :
      (allocations : List GrossAllocation) (shares : List ℤ) (rows : BrokerRows)
      → length shares ≡ length allocations
      → All (λ s. neg_part s ≡ 0) shares
      → sum_where (by_key key) (post_shares broker_id now allocations shares rows).entries
        ≡ sum_where (by_key key) rows.entries -ℤ taken key broker_id allocations
  unfolding post_shares
  post_shares-sum_where [] shares rows l h = omega int_laws
  post_shares-sum_where (a ∷ allocations) [] rows l h = absurd (omega (arith, l))
  post_shares-sum_where (a ∷ allocations) (t ∷ shares) rows l (h, hs) =
      let later =
        post_shares-sum_where allocations shares (post_share broker_id now a t rows)
          (omega (arith, l)) hs in
      rw (later, post_share-sum_where a t rows h) (omega int_laws)

pub post_shares-payments :
    (broker_id now : ℕ) (allocations : List GrossAllocation) (shares : List ℤ) (rows : BrokerRows)
    → (post_shares broker_id now allocations shares rows).payments ≡ rows.payments
unfolding post_shares post_share create_entry
post_shares-payments broker_id now [] shares rows = refl
post_shares-payments broker_id now (a ∷ allocations) [] rows = refl
post_shares-payments broker_id now (a ∷ allocations) (t ∷ shares) rows =
    let later =
      post_shares-payments broker_id now allocations shares (post_share broker_id now a t rows) in
    elim (Bool-cases (ltb_ℤ (pos 0) t)) [ inl c ↦ later ∙ rw c | inr c ↦ later ∙ rw c ]

-- What a broker's payment takes from a broker, and from a booking of a broker.
pub taken_broker :
    (x broker_id : ℕ) (allocations : List GrossAllocation)
    → taken (λ k _. k == x) broker_id allocations
      ≡ (if broker_id == x then gross_total allocations else pos 0)
taken_broker x broker_id [] = ground arith
taken_broker x broker_id (a ∷ allocations) = elim (Bool-cases (broker_id == x)) [
  | inl c ↦ rw (taken_broker x broker_id allocations, c)
  | inr c ↦ rw (taken_broker x broker_id allocations, c) (omega int_laws)
]

pub taken_booking :
    (x b broker_id : ℕ) (allocations : List GrossAllocation)
    → taken (λ k y. (k == x) && (y == b)) broker_id allocations
      ≡ (if broker_id == x then gross_for b allocations else pos 0)
taken_booking x b broker_id [] = ground arith
taken_booking x b broker_id (a ∷ allocations) = elim (Bool-cases (broker_id == x)) [
  | inl c ↦ rw (taken_booking x b broker_id allocations, c)
  | inr c ↦ rw (taken_booking x b broker_id allocations, c) (omega int_laws)
]
