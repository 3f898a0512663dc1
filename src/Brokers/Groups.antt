-- ===== src/Brokers/Groups.antt =====
-- The map `byBooking` of `pay` (apps/api/src/commission/commission-payment.service.ts) holds each
-- booking once, with the sum of the broker's entries on it.
use openestate.Base.{
  ℕ, suc, ◌+◌, ◌≤◌, ◌≡◌, refl, ap, ◌∙◌, arith, Bool, true, false, List, [], ◌∷◌, ◌==◌,
  if◌then◌else◌, Bool-cases, inl, inr, select, insert_by, sort_by, total, total-sort_by,
  sort_by-All, All,
}
use openestate.Base.Int.{ℤ, pos, ◌+ℤ◌, pos_part, int_laws}
use openestate.Brokers.Rows.{CommissionEntry, sum_where, of_broker, of_booking, of_both}
use openestate.Brokers.Attribution.{
  BookingTotal, add_entry, by_booking, created_before, is_outstanding, seen_before,
  outstanding_bookings,
}

abbrev group_part : ℕ → BookingTotal → ℤ
group_part b g = if g.booking_id == b then g.total else pos 0

-- The totals that the map holds for a booking.
abbrev total_for : ℕ → List BookingTotal → ℤ
total_for b [] = pos 0
total_for b (g ∷ groups) = group_part b g +ℤ total_for b groups

abbrev group_count : ℕ → List BookingTotal → ℕ
group_count b groups = total (λ g. if g.booking_id == b then 1 else 0) groups

-- What the map has outstanding for a booking.
abbrev pub owed_part : ℕ → BookingTotal → ℕ
owed_part b g = if g.booking_id == b then pos_part g.total else 0

abbrev pub owed_for : ℕ → List BookingTotal → ℕ
owed_for b groups = total (owed_part b) groups

abbrev entry_part : ℕ → CommissionEntry → ℤ
entry_part b e = if of_booking b e then e.signed_amount_paise else pos 0

add_entry-total_for :
    (b : ℕ) (e : CommissionEntry) (groups : List BookingTotal)
    → total_for b (add_entry e groups) ≡ total_for b groups +ℤ entry_part b e
unfolding add_entry
add_entry-total_for b e [] = elim (Bool-cases (e.booking_id == b)) [
  | inl c ↦ rw c (omega int_laws)
  | inr c ↦ rw c (omega int_laws)
]
add_entry-total_for b e (g ∷ groups) = elim (Bool-cases (g.booking_id == e.booking_id)) [
  | inl c ↦ elim (Bool-cases (e.booking_id == b)) [
    | inl d ↦
        let same : (g.booking_id == b) ≡ true = ground arith in rw (c, d, same) (omega int_laws)
    | inr d ↦
        let other : (g.booking_id == b) ≡ false = ground arith in rw (c, d, other) (omega int_laws)
  ]
  | inr c ↦ rw (c, add_entry-total_for b e groups) (omega int_laws)
]

add_entry-group_count :
    (b : ℕ) (e : CommissionEntry) (groups : List BookingTotal)
    → (group_count b groups ≤ 1 → group_count b (add_entry e groups) ≤ 1)
      × ((e.booking_id == b) ≡ false → group_count b (add_entry e groups) ≡ group_count b groups)
unfolding add_entry
add_entry-group_count b e [] = (λ h. ground arith, λ h. ground arith)
add_entry-group_count b e (g ∷ groups) =
    let (one, same) = add_entry-group_count b e groups in
    (λ h. ground (arith, one, same), λ h. ground (arith, same))

by_booking-total_for :
    (b : ℕ) (entries : List CommissionEntry) (groups : List BookingTotal)
    → total_for b (by_booking entries groups)
      ≡ total_for b groups +ℤ sum_where (of_booking b) entries
unfolding by_booking
by_booking-total_for b [] groups = omega int_laws
by_booking-total_for b (e ∷ entries) groups =
    rw (by_booking-total_for b entries (add_entry e groups), add_entry-total_for b e groups)
      (omega int_laws)

by_booking-group_count :
    (b : ℕ) (entries : List CommissionEntry) (groups : List BookingTotal)
    → group_count b groups ≤ 1
    → group_count b (by_booking entries groups) ≤ 1
unfolding by_booking
by_booking-group_count b [] groups h = h
by_booking-group_count b (e ∷ entries) groups h =
    by_booking-group_count b entries (add_entry e groups) ((add_entry-group_count b e groups).0 h)

pos_part-right_zero : (a : ℤ) → pos_part a + 0 ≡ pos_part (a +ℤ pos 0)
unfolding ◌+ℤ◌
pos_part-right_zero a = ground arith

pos_part-left_zero : (a : ℤ) → 0 + pos_part a ≡ pos_part (pos 0 +ℤ a)
unfolding ◌+ℤ◌
pos_part-left_zero a = ground arith

nonzero : (n : ℕ) → ¬ (suc n ≡ 0)
nonzero n h = omega (arith, h)

-- A booking that the map holds at most once owes the positive part of its total.
owed_once :
    (b : ℕ) (groups : List BookingTotal)
    → (group_count b groups ≡ 0 → (total_for b groups ≡ pos 0) × (owed_for b groups ≡ 0))
      × (group_count b groups ≤ 1 → owed_for b groups ≡ pos_part (total_for b groups))
owed_once b [] = (λ _. (refl, refl), λ _. refl)
owed_once b (g ∷ groups) =
    let (empty, once) = owed_once b groups in
    elim (Bool-cases (g.booking_id == b)) [
      | inl c ↦
          rw (c, if◌then◌else◌)
            (
              λ h. absurd (nonzero (group_count b groups) (omega (arith, h))),
              λ h. let (z, o) = empty (omega (arith, h)) in rw (z, o) (pos_part-right_zero g.total),
            )
      | inr c ↦
          rw (c, if◌then◌else◌)
            (
              λ h.
                  let (z, o) = empty (omega (arith, h)) in
                  (rw z (omega int_laws), omega (arith, o)),
              λ h. rw (once (omega (arith, h))) (pos_part-left_zero (total_for b groups)),
            )
    ]

-- The filter drops what is not outstanding.
owed_for-select :
    (b : ℕ) (groups : List BookingTotal)
    → owed_for b (select is_outstanding groups) ≡ owed_for b groups
owed_for-select b [] = refl
owed_for-select b (g ∷ groups) = ground (arith, owed_for-select b groups)

-- The order of the entries does not matter to a sum.
insert_by-sum_where :
    (test : CommissionEntry → Bool) (lt : CommissionEntry → CommissionEntry → Bool)
    (e : CommissionEntry) (entries : List CommissionEntry)
    → sum_where test (insert_by lt e entries) ≡ sum_where test (e ∷ entries)
unfolding insert_by
insert_by-sum_where test lt e [] = refl
insert_by-sum_where test lt e (s ∷ entries) = elim (Bool-cases (lt s e)) [
  | inl c ↦ rw (c, insert_by-sum_where test lt e entries) (omega int_laws)
  | inr c ↦ rw c
]

pub sort_by-sum_where :
    (test : CommissionEntry → Bool) (lt : CommissionEntry → CommissionEntry → Bool)
    (entries : List CommissionEntry)
    → sum_where test (sort_by lt entries) ≡ sum_where test entries
unfolding sort_by
sort_by-sum_where test lt [] = refl
sort_by-sum_where test lt (e ∷ entries) =
    rw (insert_by-sum_where test lt e (sort_by lt entries), sort_by-sum_where test lt entries)

sum_where-select :
    (broker_id b : ℕ) (entries : List CommissionEntry)
    → sum_where (of_booking b) (select (of_broker broker_id) entries)
      ≡ sum_where (of_both broker_id b) entries
sum_where-select broker_id b [] = refl
sum_where-select broker_id b (e ∷ entries) = elim (Bool-cases (of_broker broker_id e)) [
  | inl c ↦ rw (c, select, sum_where-select broker_id b entries)
  | inr c ↦ rw (c, select, sum_where-select broker_id b entries) (omega int_laws)
]

-- What `pay` may attribute to a booking is what the broker's entries on it leave outstanding.
pub outstanding_bookings-owed_for :
    (broker_id b : ℕ) (entries : List CommissionEntry)
    → owed_for b (outstanding_bookings broker_id entries)
      ≡ pos_part (sum_where (of_both broker_id b) entries)
unfolding outstanding_bookings
outstanding_bookings-owed_for broker_id b entries =
    let mine = sort_by created_before (select (of_broker broker_id) entries) in
    let groups = by_booking mine [] in
    let once = (owed_once b groups).1 (by_booking-group_count b mine [] (omega arith)) in
    let sums = by_booking-total_for b mine [] in
    let sorted =
      sort_by-sum_where (of_booking b) created_before (select (of_broker broker_id) entries) in
    total-sort_by (owed_part b) seen_before (select is_outstanding groups)
    ∙ owed_for-select b groups
    ∙ once
    ∙ ap pos_part {x = total_for b groups} {y = sum_where (of_both broker_id b) entries}
        (rw (sums, sorted, sum_where-select broker_id b entries) (omega int_laws))

abbrev pub Outstanding : BookingTotal → Type 0
Outstanding g = is_outstanding g ≡ true

select-All : {A : Type 0} (p : A → Bool) (xs : List A) → All (λ x. p x ≡ true) (select p xs)
select-All p [] = tt
select-All p (x ∷ xs) = elim (Bool-cases (p x)) [
  | inl c ↦ rw (c, select) (c, select-All p xs)
  | inr c ↦ rw (c, select) (select-All p xs)
]

pub outstanding_bookings-Outstanding :
    (broker_id : ℕ) (entries : List CommissionEntry)
    → All Outstanding (outstanding_bookings broker_id entries)
unfolding outstanding_bookings
outstanding_bookings-Outstanding broker_id entries =
    let mine = sort_by created_before (select (of_broker broker_id) entries) in
    sort_by-All seen_before Outstanding (select is_outstanding (by_booking mine []))
      (select-All is_outstanding (by_booking mine []))
