-- ===== src/Interest/Cursor.antt =====
-- The cursor of apps/api/src/postsales/interest.service.ts: once an accrual up to a date is recorded,
-- no installment accrues up to that date again.
use openestate.Base.{
  ℕ, ◌/◌, ◌≤◌, ◌≡◌, sym, ap, ◌∙◌, arith, Bool, true, false, ◌&&◌, List, [], ◌∷◌, ◌++◌, ◌==◌, ltb,
  if◌then◌else◌, select, All, Bool-cases, append_assoc, append-nil, inl, inr,
}
use openestate.Base.Int.{ℤ, pos, ltb_ℤ, ◌≤ℤ◌}
use openestate.Dates.{day_ms}
use openestate.Database.{Installment, InterestRule, InterestAccrual}
use openestate.Interest.{
  days_between, outstanding, prior_accruals, latest_end, cursor_of, due_of, delta_for, accrues,
}

latest_end-ge : (rows : List InterestAccrual) (best : ℕ) → best ≤ latest_end rows best
latest_end-ge [] best = omega arith
latest_end-ge (a ∷ rows) best = elim (Bool-cases (ltb best a.period_end)) [
  | inl c ↦ rw c (ground (arith, c, latest_end-ge rows a.period_end))
  | inr c ↦ rw c (latest_end-ge rows best)
]

-- The latest end is at least the end of a row that was appended.
latest_end-last :
    (rows : List InterestAccrual) (a : InterestAccrual) (best : ℕ)
    → a.period_end ≤ latest_end (rows ++ a ∷ []) best
latest_end-last [] a best = elim (Bool-cases (ltb best a.period_end)) [
  | inl c ↦ rw c (omega arith)
  | inr c ↦ rw c (ground (arith, c))
]
latest_end-last (x ∷ rows) a best =
    latest_end-last rows a (if ltb best x.period_end then x.period_end else best)

cursor_of-last :
    (rows : List InterestAccrual) (a : InterestAccrual) (due : ℕ)
    → a.period_end ≤ cursor_of (rows ++ a ∷ []) due
cursor_of-last [] a due = omega arith
cursor_of-last (x ∷ rows) a due = latest_end-last rows a x.period_end

-- From a date to one that is not later there are no days.
no_days : (from to : ℕ) → to ≤ from → days_between from to ≡ 0
no_days from to l = omega (arith, monotone)
  where
    monotone : to / day_ms ≤ from / day_ms
    monotone = omega (arith, l)

select-snoc :
    {A : Type 0} (p : A → Bool) (xs : List A) (y : A)
    → select p (xs ++ y ∷ []) ≡ (if p y then select p xs ++ y ∷ [] else select p xs)
select-snoc p [] y = elim (Bool-cases (p y)) [ inl c ↦ rw c | inr c ↦ rw c ]
select-snoc p (x ∷ xs) y = elim (Bool-cases (p x)) [
  | inl c ↦ elim (Bool-cases (p y)) [
    | inl d ↦ rw (select, c, select-snoc p xs y, d)
    | inr d ↦ rw (select, c, select-snoc p xs y, d)
  ]
  | inr c ↦ rw (select, c, select-snoc p xs y)
]

module _ (rule : InterestRule) (as_of : ℕ) (i : Installment) where
  -- Whether the loop accrues on the installment, given the accruals on record.
  abbrev pub due_now : List InterestAccrual → Bool
  due_now accruals = accrues rule as_of i (prior_accruals i.id accruals)

  no_days_no_accrual :
      (prior : List InterestAccrual)
      → days_between (cursor_of prior (due_of i.due_date)) as_of ≡ 0
      → accrues rule as_of i prior ≡ false
  no_days_no_accrual prior e = elim (Bool-cases (ltb_ℤ (pos 0) (outstanding i))) [
    | inl c ↦ rw (c, e)
    | inr c ↦ rw c
  ]

  -- An accrual of the installment up to the date, as the last on record.
  pub due_now-own :
      (accruals : List InterestAccrual) (a : InterestAccrual)
      → (a.installment_id == i.id) ≡ true
      → a.period_end ≡ as_of
      → due_now (accruals ++ a ∷ []) ≡ false
  due_now-own accruals a own at_date =
      let prior = prior_accruals i.id accruals in
      let now : prior_accruals i.id (accruals ++ a ∷ []) ≡ prior ++ a ∷ [] =
        select-snoc (λ (x : InterestAccrual). x.installment_id == i.id) accruals a
        ∙ ap (λ (t : Bool). if t then prior ++ a ∷ [] else prior) own in
      ap (accrues rule as_of i) now
      ∙ no_days_no_accrual (prior ++ a ∷ []) (
          no_days (cursor_of (prior ++ a ∷ []) (due_of i.due_date)) as_of
            (omega (arith, cursor_of-last prior a (due_of i.due_date), at_date)))

  -- One more accrual up to the date, of whichever installment.
  due_now-snoc :
      (accruals : List InterestAccrual) (a : InterestAccrual)
      → a.period_end ≡ as_of
      → due_now accruals ≡ false
      → due_now (accruals ++ a ∷ []) ≡ false
  due_now-snoc accruals a at_date e = elim (Bool-cases (a.installment_id == i.id)) [
    | inl own ↦ due_now-own accruals a own at_date
    | inr other ↦
        let prior = prior_accruals i.id accruals in
        ap (accrues rule as_of i) (
          select-snoc (λ (x : InterestAccrual). x.installment_id == i.id) accruals a
          ∙ ap (λ (t : Bool). if t then prior ++ a ∷ [] else prior) other)
        ∙ e
  ]

  pub due_now-append :
      (accruals rows : List InterestAccrual)
      → All (λ (a : InterestAccrual). a.period_end ≡ as_of) rows
      → due_now accruals ≡ false
      → due_now (accruals ++ rows) ≡ false
  due_now-append accruals [] h e = ap due_now (append-nil accruals) ∙ e
  due_now-append accruals (a ∷ rows) (h, hs) e =
      ap due_now (sym (append_assoc accruals (a ∷ []) rows))
      ∙ due_now-append (accruals ++ a ∷ []) rows hs (due_now-snoc accruals a h e)

-- An installment that accrues has interest above zero.
pub accrues_more :
    (rule : InterestRule) (as_of : ℕ) (i : Installment) (prior : List InterestAccrual)
    → accrues rule as_of i prior ≡ true
    → pos 0 ≤ℤ delta_for rule as_of i prior
accrues_more rule as_of i prior h =
    above (delta_for rule as_of i prior) (last (ltb_ℤ (pos 0) (outstanding i)) _ _ h)
  where
    last : (x y z : Bool) → (x && y && z) ≡ true → z ≡ true
    last x y z h = ground arith

    above : (d : ℤ) → ltb_ℤ (pos 0) d ≡ true → pos 0 ≤ℤ d
    above d h = ground arith
