-- ===== src/Brokers/Milestones.antt =====
-- `accrueForBooking` (apps/api/src/commission/commission.service.ts): the loop over the
-- milestones passes over an accrual that stands in the ledger.
use openestate.Base.{
  any-append, ℕ, ◌*◌, ◌≡◌, refl, arith, Bool, true, false, Option, none, some, List, [], ◌∷◌, ◌++◌,
  ==_refl, if◌then◌else◌, Bool-cases, inl, inr, any,
}
use openestate.Base.Int.{ℤ, pos, ltb_ℤ}
use openestate.Brokers.Rows.{BrokerRows, create_entry, entry_row}
use openestate.Brokers.Accrual.{is_accrual_of, accrual_entry, accrue_once, accrue_milestones}

-- The accrual for a milestone stands in the ledger.
abbrev pub Accrued : ℕ → Option ℕ → BrokerRows → Type 0
Accrued booking_id milestone rows = any (is_accrual_of booking_id milestone) rows.entries ≡ true

pub any-snoc :
    {A : Type 0} (p : A → Bool) (xs : List A) (y : A) → p y ≡ true → any p (xs ++ y ∷ []) ≡ true
any-snoc p [] y h = ground (arith, h)
any-snoc p (x ∷ xs) y h = ground (arith, any-snoc p xs y h)

own_accrual :
    (booking_id : ℕ) (milestone : Option ℕ) (id now broker_id : ℕ) (amount : ℤ)
    → is_accrual_of booking_id milestone
        (entry_row id now (accrual_entry broker_id booking_id amount milestone))
      ≡ true
own_accrual booking_id none id now broker_id amount = rw (==_refl booking_id)
own_accrual booking_id (some m) id now broker_id amount = rw (==_refl booking_id, ==_refl m)

module _ (now broker_id booking_id : ℕ) where
  pub accrue_once-Accrued :
      (amount : ℤ) (milestone : Option ℕ) (rows : BrokerRows)
      → Accrued booking_id milestone (accrue_once now broker_id booking_id amount milestone rows)
  unfolding accrue_once create_entry
  accrue_once-Accrued amount milestone rows =
      elim (Bool-cases (any (is_accrual_of booking_id milestone) rows.entries)) [
        | inl c ↦ rw (c, if◌then◌else◌) c
        | inr c ↦
            rw (c, if◌then◌else◌)
              (any-snoc (is_accrual_of booking_id milestone) rows.entries _
                (own_accrual booking_id milestone rows.next_id now broker_id amount))
      ]

  pub accrue_once_same :
      (amount : ℤ) (milestone : Option ℕ) (rows : BrokerRows)
      → Accrued booking_id milestone rows
      → accrue_once now broker_id booking_id amount milestone rows ≡ rows
  unfolding accrue_once
  accrue_once_same amount milestone rows h = rw (h, if◌then◌else◌)

  accrue_once-keeps :
      (amount : ℤ) (milestone : Option ℕ) (b : ℕ) (other : Option ℕ) (rows : BrokerRows)
      → Accrued b other rows
      → Accrued b other (accrue_once now broker_id booking_id amount milestone rows)
  unfolding accrue_once create_entry
  accrue_once-keeps amount milestone b other rows h =
      elim (Bool-cases (any (is_accrual_of booking_id milestone) rows.entries)) [
        | inl c ↦ rw (c, if◌then◌else◌) h
        | inr c ↦ rw (c, if◌then◌else◌) (any-append (is_accrual_of b other) rows.entries _ h)
      ]

  accrue_milestones-keeps :
      (collected : ℤ) (ms : List ℕ) (shares : List ℤ) (b : ℕ) (other : Option ℕ) (rows : BrokerRows)
      → Accrued b other rows
      → Accrued b other (accrue_milestones now broker_id booking_id collected ms shares rows)
  unfolding accrue_milestones
  accrue_milestones-keeps collected [] shares b other rows h = h
  accrue_milestones-keeps collected (m ∷ ms) [] b other rows h = h
  accrue_milestones-keeps collected (m ∷ ms) (s ∷ shares) b other rows h =
      elim (Bool-cases (ltb_ℤ collected (pos (100 * m)))) [
        | inl c ↦
            rw (accrue_milestones, c) (accrue_milestones-keeps collected ms shares b other rows h)
        | inr c ↦
            rw (accrue_milestones, c)
              (accrue_milestones-keeps collected ms shares b other
                (accrue_once now broker_id booking_id s (some m) rows)
                (accrue_once-keeps s (some m) b other rows h))
      ]

-- Every milestone that is reached has its accrual.
abbrev pub AllAccrued : ℕ → ℤ → List ℕ → List ℤ → BrokerRows → Type 0
AllAccrued booking_id collected [] shares rows = Unit
AllAccrued booking_id collected (m ∷ ms) [] rows = Unit
AllAccrued booking_id collected (m ∷ ms) (s ∷ shares) rows =
    (ltb_ℤ collected (pos (100 * m)) ≡ false → Accrued booking_id (some m) rows)
    × AllAccrued booking_id collected ms shares rows

module _ (now broker_id booking_id : ℕ) (collected : ℤ) where
  pub accrue_milestones-AllAccrued :
      (ms : List ℕ) (shares : List ℤ) (rows : BrokerRows)
      → AllAccrued booking_id collected ms shares
          (accrue_milestones now broker_id booking_id collected ms shares rows)
  unfolding accrue_milestones
  accrue_milestones-AllAccrued [] shares rows = tt
  accrue_milestones-AllAccrued (m ∷ ms) [] rows = tt
  accrue_milestones-AllAccrued (m ∷ ms) (s ∷ shares) rows = (
    λ c.
        rw (accrue_milestones, c)
          (accrue_milestones-keeps now broker_id booking_id collected ms shares booking_id (some m)
            (accrue_once now broker_id booking_id s (some m) rows)
            (accrue_once-Accrued now broker_id booking_id s (some m) rows)),
    accrue_milestones-AllAccrued ms shares _,
  )

  pub accrue_milestones_same :
      (ms : List ℕ) (shares : List ℤ) (rows : BrokerRows)
      → AllAccrued booking_id collected ms shares rows
      → accrue_milestones now broker_id booking_id collected ms shares rows ≡ rows
  unfolding accrue_milestones
  accrue_milestones_same [] shares rows h = refl
  accrue_milestones_same (m ∷ ms) [] rows h = refl
  accrue_milestones_same (m ∷ ms) (s ∷ shares) rows (h, hs) =
      elim (Bool-cases (ltb_ℤ collected (pos (100 * m)))) [
        | inl c ↦ rw c (accrue_milestones_same ms shares rows hs)
        | inr c ↦
            rw (c, if◌then◌else◌, accrue_once_same now broker_id booking_id s (some m) rows (h c))
              (accrue_milestones_same ms shares rows hs)
      ]
