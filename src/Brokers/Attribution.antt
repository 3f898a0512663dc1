-- ===== src/Brokers/Attribution.antt =====
-- `pay` (apps/api/src/commission/commission-payment.service.ts), the attribution of a payment to
-- the broker's bookings: the booking that was seen first is paid first.
use openestate.Base.{ℕ, Bool, true, false, List, [], ◌∷◌, ◌==◌, ltb, if◌then◌else◌, select, sort_by}
use openestate.Base.Int.{ℤ, pos, ◌+ℤ◌, ◌-ℤ◌, ltb_ℤ, leb_ℤ}
use openestate.Brokers.Rows.{CommissionEntry, of_broker}

-- `orderBy: { createdAt: 'asc' }`
abbrev pub created_before : CommissionEntry → CommissionEntry → Bool
created_before a b = ltb a.created_at b.created_at

-- One entry of the map `byBooking`.
pub record BookingTotal : Type 0 where
  pub booking_id : ℕ
  pub total : ℤ
  pub first_seen : ℕ

-- One round of the loop that fills the map, which keeps the order of first insertion.
unfoldable pub add_entry : CommissionEntry → List BookingTotal → List BookingTotal
add_entry e [] =
    record {
      booking_id = e.booking_id;
      total = pos 0 +ℤ e.signed_amount_paise;
      first_seen = e.created_at;
    }
    ∷ []
add_entry e (g ∷ groups) =
    let rest = add_entry e groups in
    if g.booking_id == e.booking_id
    then record g { total = g.total +ℤ e.signed_amount_paise } ∷ groups
    else g ∷ rest

unfoldable pub by_booking : List CommissionEntry → List BookingTotal → List BookingTotal
unfolding add_entry
by_booking [] groups = groups
by_booking (e ∷ entries) groups = by_booking entries (add_entry e groups)

abbrev pub is_outstanding : BookingTotal → Bool
is_outstanding g = ltb_ℤ (pos 0) g.total

abbrev pub seen_before : BookingTotal → BookingTotal → Bool
seen_before a b = ltb a.first_seen b.first_seen

-- `outstandingBookings`
unfoldable pub outstanding_bookings : ℕ → List CommissionEntry → List BookingTotal
unfolding by_booking sort_by
outstanding_bookings broker_id entries =
    let all_entries = sort_by created_before (select (of_broker broker_id) entries) in
    sort_by seen_before (select is_outstanding (by_booking all_entries []))

-- One entry of `grossAllocations`.
pub record GrossAllocation : Type 0 where
  pub booking_id : ℕ
  pub gross_paise : ℤ

-- `v.total < remaining ? v.total : remaining`
abbrev pub take_of : BookingTotal → ℤ → ℤ
take_of g remaining = if ltb_ℤ g.total remaining then g.total else remaining

-- The loop: the allocations, and what remains.
unfoldable pub attribute : List BookingTotal → ℤ → List GrossAllocation × ℤ
attribute [] remaining = ([], remaining)
attribute (g ∷ groups) remaining =
    let take = take_of g remaining in
    let (later, left) = attribute groups (remaining -ℤ take) in
    if leb_ℤ remaining (pos 0)
    then ([], remaining)
    else (record { booking_id = g.booking_id; gross_paise = take } ∷ later, left)

-- `grossAllocations.length === 0`
abbrev pub is_empty : List GrossAllocation → Bool
is_empty [] = true
is_empty (a ∷ rest) = false
