-- ===== src/Transfers/Carry.antt =====
-- `transfer` of apps/api/src/postsales/transfer.service.ts: the balance of the old booking goes over
-- to the new one.
use openestate.Base.{
  ℕ, suc, ◌<◌, ◌≤◌, ◌≡◌, refl, sym, ap, ◌∙◌, arith, Bool, true, false, ◌&&◌, some, List, [], ◌∷◌,
  ◌==◌, ==_iff, ==_refl, if◌then◌else◌, ok, All, All-map, find?, find?-All, find?-update_where,
  find?-append, find?-new, update_where, Bool-cases, inl, inr,
}
use openestate.Base.Int.{ℤ, pos, neg, ◌+ℤ◌, int_laws}
use openestate.Database.{Booking, BookingStatus, LedgerEntry, Db}
use openestate.Ledger.{balance_of}
use openestate.Cancellations.{set_booking_status}
use openestate.Receipts.{fy_start_month_of}
use openestate.Refunds.{find_booking}
use openestate.Transfers.{TransferRequest, is_transferable, fee_for, transfer, new_booking}
use openestate.Transfers.Plan.{plan_transfer_returned}
use openestate.Transfers.Steps.{transfer_inv}
use openestate.Transfers.Opening.{charged, number_of}

-- No row has the id of a booking to come.
abbrev pub BookingsBelow : Db → Type 0
BookingsBelow db =
    All (λ (x : Booking). x.id < db.next_id) db.bookings
    × All (λ (e : LedgerEntry). e.booking_id < db.next_id) db.ledger

-- A booking to come has no balance.
no_balance :
    (n b : ℕ) (rows : List LedgerEntry)
    → n ≤ b
    → All (λ (e : LedgerEntry). e.booking_id < n) rows
    → balance_of b rows ≡ pos 0
no_balance n b [] l h = refl
no_balance n b (e ∷ rows) l (h, hs) =
    let other : (e.booking_id == b) ≡ false = apart e.booking_id b (omega arith) in
    rw (other, no_balance n b rows l hs) (omega int_laws)
  where
    apart : (x y : ℕ) → x < y → (x == y) ≡ false
    apart x y l = ground arith

All-update_where :
    (P : Booking → Type 0) (q : Booking → Bool) (f : Booking → Booking)
    → ((x : Booking) → P x → P (f x))
    → (xs : List Booking) → All P xs
    → All P (update_where q f xs)
All-update_where P q f keep [] h = tt
All-update_where P q f keep (x ∷ xs) (h, hs) = elim (Bool-cases (q x)) [
  | inl c ↦ rw c (keep x h, All-update_where P q f keep xs hs)
  | inr c ↦ rw c (h, All-update_where P q f keep xs hs)
]

-- The three balances that a transfer leaves.
carried :
    (same fresh : Bool) (x carry fee balance : ℤ)
    → (same ≡ true → x ≡ carry)
    → (fresh ≡ true → x ≡ pos 0)
    → (same && fresh) ≡ false
    → balance
      ≡ ((x +ℤ (if same then neg carry else pos 0)) +ℤ (if fresh then carry else pos 0))
        +ℤ (if fresh then fee else pos 0)
    → balance ≡ (if same then pos 0 else (if fresh then carry +ℤ fee else x))
carried true true x carry fee balance s f one b = ground (arith, one)
carried true false x carry fee balance s f one b = rw (b, s refl) (omega int_laws)
carried false true x carry fee balance s f one b = rw (b, f refl) (omega int_laws)
carried false false x carry fee balance s f one b = rw b (omega int_laws)

-- On rows none of which has the id of a booking to come, a transfer that returns was of a BOOKED
-- or ALLOTTED booking, which is TRANSFERRED_OUT afterwards with a balance of zero. The new
-- booking is BOOKED at the same price, and its balance is what the old one had, plus the fee of
-- the rule where it is positive. No other balance moves.
pub transfer_effect :
    (id : ℕ) (dto : TransferRequest) (now to_id : ℕ) (db db' : Db)
    → BookingsBelow db
    → transfer id dto now db ≡ ok (to_id, db')
    → (from : Booking) × (find_booking id db ≡ some from)
      × (is_transferable from.status ≡ true)
      × (find_booking id db' ≡ some (record from { status = BookingStatus.transferred_out }))
      × (new : Booking) × (find_booking to_id db' ≡ some new)
      × (new.status ≡ BookingStatus.booked)
      × (new.agreed_price_paise ≡ from.agreed_price_paise)
      × (fee : ℤ) × (fee_for dto.transfer_fee_rule_id from db ≡ ok (fee, db))
      × ((b : ℕ)
          → balance_of b db'.ledger ≡ (
              if id == b
              then pos 0
              else (if to_id == b
                  then balance_of id db.ledger +ℤ charged fee
                  else balance_of b db.ledger)))
transfer_effect id dto now to_id db db' (below, ledger_below) h =
    let (plan, planned, same_id, bookings, balances) = transfer_inv id dto now to_id db db' h in
    let (_, found, status, carry, fee) = plan_transfer_returned id dto db db plan planned in
    let month = fy_start_month_of db.config in
    let out = set_booking_status id BookingStatus.transferred_out db in
    let new = new_booking (suc db.next_id) plan.from plan.to (number_of month now db) now in
    let (old_below, is_id) =
      find?-All (λ (x : Booking). x.id == id) (λ (x : Booking). x.id < db.next_id) db.bookings below
        found in
    let id_below : id < db.next_id = below_id plan.from.id id db.next_id old_below is_id in
    let missing =
      All-map (λ (x : Booking) l. apart x.id (suc db.next_id) (omega arith)) out.bookings
        (All-update_where (λ (x : Booking). x.id < db.next_id) (λ (x : Booking). x.id == id)
          (λ (x : Booking). record x { status = BookingStatus.transferred_out }) (λ x l. l)
          db.bookings below) in
    (
      plan.from,
      found,
      status,
      ap (find? (λ (x : Booking). x.id == id)) bookings
          ∙ find?-append (λ (x : Booking). x.id == id) out.bookings (new ∷ [])
              (find?-update_where (λ (x : Booking). x.id == id)
                (λ (x : Booking). record x { status = BookingStatus.transferred_out }) (λ x. refl)
                db.bookings found),
      new,
      rw same_id (
          ap (find? (λ (x : Booking). x.id == suc db.next_id)) bookings
          ∙ find?-new (λ (x : Booking). x.id == suc db.next_id) out.bookings new missing
              (==_refl (suc db.next_id))),
      refl,
      refl,
      plan.fee,
      fee,
      λ b.
          rw (same_id, ← carry)
            (carried (id == b) (suc db.next_id == b) (balance_of b db.ledger) plan.carry
              (charged plan.fee) (balance_of b db'.ledger)
              (λ c. ap (λ (k : ℕ). balance_of k db.ledger) (sym ((==_iff id b).0 c)) ∙ sym carry)
              (λ c. no_balance db.next_id b db.ledger (new_below b c) ledger_below)
              (one_of id b id_below) (balances b)),
    )
  where
    apart : (x y : ℕ) → x < y → (x == y) ≡ false
    apart x y l = ground arith

    below_id : (x id n : ℕ) → x < n → (x == id) ≡ true → id < n
    below_id x id n l e = ground arith

    new_below : (b : ℕ) → (suc db.next_id == b) ≡ true → db.next_id ≤ b
    new_below b c = ground arith

    one_of : (id b : ℕ) → id < db.next_id → (id == b && suc db.next_id == b) ≡ false
    one_of id b l = ground arith
