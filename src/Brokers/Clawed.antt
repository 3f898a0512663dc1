-- ===== src/Brokers/Clawed.antt =====
-- `handleBookingCancelled` (apps/api/src/commission/commission.service.ts) and `cancel` of
-- apps/api/src/postsales/booking.controller.ts: what a cancellation leaves of a commission.
use openestate.Base.{
  ℕ, ◌≡◌, refl, ap, ◌∙◌, arith, Bool, true, false, ◌&&◌, not, some, List, ◌==◌, ==_refl, ==_iff,
  if◌then◌else◌, Bool-cases, inl, inr, ok, outcome_cases,
}
use openestate.Base.Int.{ℤ, pos, neg, ◌+ℤ◌, ltb_ℤ, eqb_ℤ, int_laws}
use openestate.Cancellations.{CancellationRequest, cancel}
use openestate.Database.{Booking, Cancellation, Db}
use openestate.Refunds.{find_booking}
use openestate.Brokers.Rows.{
  BrokerRows, ClawbackPolicy, recover, write_off, CommissionEntry, CommissionEntryType,
  clawback_reversal, clawback_recovery, clawback_writeoff, is_payment, create_entry, entry_row,
  sum_where, of_booking, find_broker, NocStatus,
}
use openestate.Brokers.Noc.{
  create_noc, is_granted, noc_approved, is_inactive, assert_approved_or_auto_approve,
  cancel_booking,
}
use openestate.Brokers.Milestones.{any-snoc}
use openestate.Brokers.Posting.{sum_where-snoc}
use openestate.Brokers.Clawback.{
  policy_of, clawback_entry, post_clawback, net_paid, reverse_unearned, recover_paid,
  handle_booking_cancelled,
}

-- What is left on the booking: the recovery of what was paid, where the policy asks for it.
abbrev pub recovered : ClawbackPolicy → ℤ → ℤ
recovered write_off paid = pos 0
recovered recover paid = if ltb_ℤ (pos 0) paid then neg paid else pos 0

-- What one clawback posting does to the sums over a booking.
abbrev Posts : ℕ → ℤ → BrokerRows → BrokerRows → Type 0
Posts b amount rows rows' =
    ((c : ℕ)
      → sum_where (of_booking c) rows'.entries
        ≡ sum_where (of_booking c) rows.entries +ℤ (if b == c then amount else pos 0))
    × (net_paid b rows'.entries ≡ net_paid b rows.entries)
    × (rows'.config ≡ rows.config)
    × (rows'.nocs ≡ rows.nocs)

zero_part : (c : Bool) (x : ℤ) → x ≡ x +ℤ (if c then pos 0 else pos 0)
zero_part true x = omega int_laws
zero_part false x = omega int_laws

Posts-nothing : (b : ℕ) (rows : BrokerRows) → Posts b (pos 0) rows rows
Posts-nothing b rows =
    (λ c. zero_part (b == c) (sum_where (of_booking c) rows.entries), refl, refl, refl)

Posts-entry :
    (now broker_id b : ℕ) (t : CommissionEntryType) (amount : ℤ) (rows : BrokerRows)
    → is_payment t ≡ false
    → Posts b amount rows (create_entry now (clawback_entry broker_id b t amount) rows)
unfolding create_entry
Posts-entry now broker_id b t amount rows h =
    let row = entry_row rows.next_id now (clawback_entry broker_id b t amount) in
    (
      λ c. sum_where-snoc (of_booking c) rows.entries row,
      ap neg (
          rw
            (
              sum_where-snoc (λ e. of_booking b e && is_payment e.entry_type) rows.entries row,
              h,
              ==_refl b,
            )
            (omega int_laws)),
      refl,
      refl,
    )

neg_zero : (x : ℤ) → eqb_ℤ x (pos 0) ≡ true → neg x ≡ pos 0
unfolding neg
neg_zero x h = ground arith

reverse_unearned_returns :
    (now broker_id b : ℕ) (outstanding : ℤ) (rows : BrokerRows)
    → (rows' : BrokerRows) × (reverse_unearned now broker_id b outstanding rows ≡ ok rows')
      × Posts b (neg outstanding) rows rows'
unfolding reverse_unearned post_clawback
reverse_unearned_returns now broker_id b outstanding rows =
    elim (Bool-cases (eqb_ℤ outstanding (pos 0))) [
      | inl c ↦
          let zero : neg outstanding ≡ pos 0 = neg_zero outstanding c in
          (rows, rw c, rw zero (Posts-nothing b rows))
      | inr c ↦ (
        create_entry now (clawback_entry broker_id b clawback_reversal (neg outstanding)) rows,
        rw c,
        Posts-entry now broker_id b clawback_reversal (neg outstanding) rows refl,
      )
    ]

recover_paid_returns :
    (now broker_id b : ℕ) (policy : ClawbackPolicy) (paid : ℤ) (rows : BrokerRows)
    → (rows' : BrokerRows) × (recover_paid now broker_id b policy paid rows ≡ ok rows')
      × Posts b (recovered policy paid) rows rows'
unfolding recover_paid post_clawback
recover_paid_returns now broker_id b write_off paid rows = elim (Bool-cases (ltb_ℤ (pos 0) paid)) [
  | inr c ↦ (rows, rw c, Posts-nothing b rows)
  | inl c ↦ (
    create_entry now (clawback_entry broker_id b clawback_writeoff (pos 0)) rows,
    rw c,
    Posts-entry now broker_id b clawback_writeoff (pos 0) rows refl,
  )
]
recover_paid_returns now broker_id b recover paid rows = elim (Bool-cases (ltb_ℤ (pos 0) paid)) [
  | inr c ↦ (rows, rw c, rw c (Posts-nothing b rows))
  | inl c ↦ (
    create_entry now (clawback_entry broker_id b clawback_recovery (neg paid)) rows,
    rw c,
    rw c (Posts-entry now broker_id b clawback_recovery (neg paid) rows refl),
  )
]

-- The reversal clears the booking before the recovery.
settled :
    (b c : ℕ) (x : ℤ) (entries : List CommissionEntry)
    → sum_where (of_booking c) entries
        +ℤ (if b == c then neg (sum_where (of_booking b) entries) else pos 0)
        +ℤ (if b == c then x else pos 0)
      ≡ (if b == c then x else sum_where (of_booking c) entries)
settled b c x entries = elim (Bool-cases (b == c)) [
  | inr d ↦ rw d (omega int_laws)
  | inl d ↦ let same : b ≡ c = (==_iff b c).0 d in rw (d, same) (omega int_laws)
]

-- The clawback of a cancelled booking always returns. The entries of the booking then add up to
-- zero, or under the policy RECOVER to minus what was paid out on it, if anything was. No sum of
-- another booking moves, and what was paid out on the booking is the same when it is asked again.
pub handle_booking_cancelled_effect :
    (now b broker_id : ℕ) (rows : BrokerRows)
    → (rows' : BrokerRows) × (handle_booking_cancelled now b broker_id rows ≡ ok rows')
      × ((c : ℕ)
          → sum_where (of_booking c) rows'.entries ≡ (
              if b == c
              then recovered (policy_of rows.config) (net_paid b rows.entries)
              else sum_where (of_booking c) rows.entries))
      × (net_paid b rows'.entries ≡ net_paid b rows.entries)
      × (rows'.nocs ≡ rows.nocs)
unfolding handle_booking_cancelled
handle_booking_cancelled_effect now b broker_id rows =
    let outstanding = sum_where (of_booking b) rows.entries in
    let paid = net_paid b rows.entries in
    let policy = policy_of rows.config in
    let (rows1, e1, (sums1, paid1, _, nocs1)) =
      reverse_unearned_returns now broker_id b outstanding rows in
    let (rows2, e2, (sums2, paid2, _, nocs2)) =
      recover_paid_returns now broker_id b policy paid rows1 in
    (
      rows2,
      rw e1 e2,
      λ c. sums2 c ∙ rw (sums1 c) (settled b c (recovered policy paid) rows.entries),
      paid2 ∙ paid1,
      nocs2 ∙ nocs1,
    )

-- The certificate is there once the check passes, and the check leaves the ledger alone.
assert_approved_inv :
    (b broker_id : ℕ) (rows rows' : BrokerRows)
    → assert_approved_or_auto_approve b broker_id rows ≡ ok rows'
    → (noc_approved b rows' ≡ true)
      × (rows'.entries ≡ rows.entries)
      × (rows'.config ≡ rows.config)
      × ((not (noc_approved b rows) && not (is_inactive (find_broker broker_id rows))) ≡ false)
unfolding assert_approved_or_auto_approve
assert_approved_inv b broker_id rows rows' h = elim (Bool-cases (noc_approved b rows)) [
  | inl a ↦ elim (Bool-cases (is_inactive (find_broker broker_id rows))) [
    | inl i ↦
        let same : rows ≡ rows' = cc (rw (a, i) at h) in rw (← same, a) (refl, refl, refl, refl)
    | inr i ↦
        let same : rows ≡ rows' = cc (rw (a, i) at h) in rw (← same, a) (refl, refl, refl, refl)
  ]
  | inr a ↦ elim (Bool-cases (is_inactive (find_broker broker_id rows))) [
    | inl i ↦
        let same : create_noc b broker_id NocStatus.approved rows ≡ rows' = cc (rw (a, i) at h) in
        rw (← same, a, i)
          (
            any-snoc (λ n. n.booking_id == b && is_granted n.status) rows.nocs _ (rw (==_refl b)),
            refl,
            refl,
            refl,
          )
    | inr i ↦ ground (arith, a, i)
  ]
]

-- A cancellation through the controller of a booking with a broker returns only where
-- `cancel` of the cancellation service does, with its result and its rows, and where the broker
-- had an APPROVED certificate or is inactive. An APPROVED certificate stands afterwards, and the
-- commission of the booking is clawed back in the same transaction.
pub cancel_booking_effect :
    (b broker_id now : ℕ) (dto : CancellationRequest) (db db' : Db) (rows rows' : BrokerRows)
    (booking : Booking) (result : Cancellation)
    → find_booking b db ≡ some booking
    → booking.broker_id ≡ some broker_id
    → cancel_booking b dto now db rows ≡ ok (result, db', rows')
    → (cancel b dto now db ≡ ok (result, db'))
      × ((not (noc_approved b rows) && not (is_inactive (find_broker broker_id rows))) ≡ false)
      × (noc_approved b rows' ≡ true)
      × (sum_where (of_booking b) rows'.entries
          ≡ recovered (policy_of rows.config) (net_paid b rows.entries))
unfolding cancel_booking
cancel_booking_effect b broker_id now dto db db' rows rows' booking result f g h =
    elim (outcome_cases (assert_approved_or_auto_approve b broker_id rows)) [
      | inr (e, a) ↦ ground (arith, f, g, a)
      | inl (checked, a) ↦ elim (outcome_cases (cancel b dto now db)) [
        | inr (e, c) ↦ ground (arith, f, g, a, c)
        | inl ((r, after), c) ↦
            let (there, same, terms, allowed) = assert_approved_inv b broker_id rows checked a in
            let (clawed, made, sums, _, nocs) =
              handle_booking_cancelled_effect now b broker_id checked in
            let whole : (r ≡ result) × (after ≡ db') × (clawed ≡ rows') =
              ground (arith, f, g, a, c, made) in
            (
              rw (← whole.0, ← whole.1) c,
              allowed,
              rw (← whole.2, noc_approved, nocs) there,
              rw (← whole.2, sums b, ==_refl b, same, terms),
            )
      ]
    ]
