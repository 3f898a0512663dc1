-- ===== src/Brokers/Cover.antt =====
-- What `pay` (apps/api/src/commission/commission-payment.service.ts) may attribute covers at least
-- the broker's balance.
use openestate.Base.{
  ℕ, ◌+◌, ◌≤◌, ◌≡◌, refl, ap, arith, Bool, true, List, [], ◌∷◌, ◌==◌, Bool-cases, inl, inr, select,
  sort_by, total, total-sort_by,
}
use openestate.Base.Int.{ℤ, pos, ◌+ℤ◌, pos_part, int_laws}
use openestate.Brokers.Rows.{CommissionEntry, sum_where, of_broker}
use openestate.Brokers.Groups.{sort_by-sum_where}
use openestate.Brokers.Attribution.{
  BookingTotal, add_entry, by_booking, created_before, is_outstanding, seen_before,
  outstanding_bookings,
}

-- All totals of the map.
abbrev grand_total : List BookingTotal → ℤ
grand_total [] = pos 0
grand_total (g ∷ groups) = g.total +ℤ grand_total groups

abbrev any_entry : CommissionEntry → Bool
any_entry e = true

add_entry-grand_total :
    (e : CommissionEntry) (groups : List BookingTotal)
    → grand_total (add_entry e groups) ≡ grand_total groups +ℤ e.signed_amount_paise
unfolding add_entry
add_entry-grand_total e [] = omega int_laws
add_entry-grand_total e (g ∷ groups) = elim (Bool-cases (g.booking_id == e.booking_id)) [
  | inl c ↦ rw c (omega int_laws)
  | inr c ↦ rw (c, add_entry-grand_total e groups) (omega int_laws)
]

by_booking-grand_total :
    (entries : List CommissionEntry) (groups : List BookingTotal)
    → grand_total (by_booking entries groups) ≡ grand_total groups +ℤ sum_where any_entry entries
unfolding by_booking
by_booking-grand_total [] groups = omega int_laws
by_booking-grand_total (e ∷ entries) groups =
    rw (by_booking-grand_total entries (add_entry e groups), add_entry-grand_total e groups)
      (omega int_laws)

sum_where-select_all :
    (test : CommissionEntry → Bool) (entries : List CommissionEntry)
    → sum_where any_entry (select test entries) ≡ sum_where test entries
sum_where-select_all test [] = refl
sum_where-select_all test (e ∷ entries) = elim (Bool-cases (test e)) [
  | inl c ↦ rw (c, select, sum_where-select_all test entries)
  | inr c ↦ rw (c, select, sum_where-select_all test entries) (omega int_laws)
]

abbrev pub owed : BookingTotal → ℕ
owed g = pos_part g.total

total-select :
    (groups : List BookingTotal) → total owed (select is_outstanding groups) ≡ total owed groups
total-select [] = refl
total-select (g ∷ groups) = ground (arith, total-select groups)

+ℤ_positive : (a c : ℤ) → pos_part (a +ℤ c) ≤ pos_part a + pos_part c
unfolding ◌+ℤ◌
+ℤ_positive a c = ground arith

grand_total-le : (groups : List BookingTotal) → pos_part (grand_total groups) ≤ total owed groups
grand_total-le [] = omega arith
grand_total-le (g ∷ groups) =
    omega (arith, grand_total-le groups, +ℤ_positive g.total (grand_total groups))

-- The bookings with something outstanding cover at least the broker's balance.
pub outstanding_bookings-cover :
    (broker_id : ℕ) (entries : List CommissionEntry)
    → pos_part (sum_where (of_broker broker_id) entries)
      ≤ total owed (outstanding_bookings broker_id entries)
unfolding outstanding_bookings
outstanding_bookings-cover broker_id entries =
    let mine = sort_by created_before (select (of_broker broker_id) entries) in
    let groups = by_booking mine [] in
    let same : pos_part (grand_total groups) ≡ pos_part (sum_where (of_broker broker_id) entries) =
      ap pos_part {x = grand_total groups} {y = sum_where (of_broker broker_id) entries} (
        rw
          (
            by_booking-grand_total mine [],
            sort_by-sum_where any_entry created_before (select (of_broker broker_id) entries),
            sum_where-select_all (of_broker broker_id) entries,
          )
          (omega int_laws)) in
    omega (
      arith,
      same,
      grand_total-le groups,
      total-select groups,
      total-sort_by owed seen_before (select is_outstanding groups),
    )
