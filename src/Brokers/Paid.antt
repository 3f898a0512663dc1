-- ===== src/Brokers/Paid.antt =====
-- `pay` (apps/api/src/commission/commission-payment.service.ts): what a payment does to the
-- broker's balance and to each booking, and when it goes through.
use openestate.Base.{
  ℕ, ◌≤◌, ◌<◌, ◌≡◌, refl, ap, ◌∙◌, arith, true, false, ◌&&◌, some, List, ◌==◌, if◌then◌else◌,
  ==_iff, Bool-cases, Option-cases, inl, inr, All, length, ok, find?, find?-update_where,
}
use openestate.Base.Int.{ℤ, pos, ◌-ℤ◌, ◌≤ℤ◌, pos_part, neg_part, ltb_ℤ}
use openestate.Database.{Db}
use openestate.Brokers.Rows.{
  CommissionPayment, BrokerRows, sum_where, of_broker, of_both, balance, is_approved, find_payment,
}
use openestate.Brokers.Requests.{update_payment}
use openestate.Brokers.Attribution.{GrossAllocation, outstanding_bookings, attribute, is_empty}
use openestate.Brokers.Groups.{outstanding_bookings-owed_for, outstanding_bookings-Outstanding}
use openestate.Brokers.Cover.{outstanding_bookings-cover}
use openestate.Brokers.Shares.{
  gross_for, attribute-Positive, attribute-gross_for, attribute_full, attribute_taken,
  attribute_covered,
}
use openestate.Brokers.Payments.{
  PayCommission, tds_of, rule_194_h, tds_shares, post_shares, with_payment, pay,
}
use openestate.Brokers.Posting.{
  post_shares-sum_where, post_shares-payments, taken_broker, taken_booking,
}
use openestate.Brokers.Tax.{tds_shares_returns}

-- The rows after a payment.
abbrev pub paid_rows :
    ℕ
    → ℕ
    → PayCommission
    → CommissionPayment
    → List GrossAllocation
    → List ℤ
    → BrokerRows
    → BrokerRows
paid_rows payment_id now dto payment allocations shares rows =
    update_payment payment_id (with_payment dto)
      (post_shares payment.broker_id now allocations shares rows)

pay_step :
    (payment_id now : ℕ) (dto : PayCommission) (db : Db) (rows : BrokerRows)
    (payment : CommissionPayment) (allocations : List GrossAllocation) (rest : ℤ) (shares : List ℤ)
    → find_payment payment_id rows ≡ some payment
    → is_approved payment.status ≡ true
    → attribute (outstanding_bookings payment.broker_id rows.entries) payment.amount_paise
      ≡ (allocations, rest)
    → is_empty allocations ≡ false
    → ltb_ℤ (pos 0) rest ≡ false
    → tds_shares (tds_of (rule_194_h dto.payment_date db) payment.amount_paise) allocations
      ≡ ok shares
    → pay payment_id now dto db rows
      ≡ ok (paid_rows payment_id now dto payment allocations shares rows)
unfolding pay
pay_step payment_id now dto db rows payment allocations rest shares f q a e r t =
    ground (arith, f, q, a, e, r, t)

abbrev split_of : BrokerRows → CommissionPayment → List GrossAllocation × ℤ
split_of rows payment =
    attribute (outstanding_bookings payment.broker_id rows.entries) payment.amount_paise

-- A payment that returns is of a payment that exists and is APPROVED, and attributes it in full.
pay_inv :
    (payment_id now : ℕ) (dto : PayCommission) (db : Db) (rows rows' : BrokerRows)
    → pay payment_id now dto db rows ≡ ok rows'
    → (payment : CommissionPayment) × (find_payment payment_id rows ≡ some payment)
      × (is_approved payment.status ≡ true)
      × (is_empty (split_of rows payment).0 ≡ false)
      × (ltb_ℤ (pos 0) (split_of rows payment).1 ≡ false)
unfolding pay
pay_inv payment_id now dto db rows rows' h = elim (Option-cases (find_payment payment_id rows)) [
  | inl f ↦ ground (arith, f)
  | inr (payment, f) ↦
      let tests : (is_approved payment.status ≡ true)
          × (is_empty (split_of rows payment).0 ≡ false)
          × (ltb_ℤ (pos 0) (split_of rows payment).1 ≡ false) =
        ground (arith, f) in
      (payment, f, tests.0, tests.1, tests.2)
]

-- Where the tests pass, the payment returns, and its allocations make up its amount.
pay_returned :
    (payment_id now : ℕ) (dto : PayCommission) (db : Db) (rows : BrokerRows)
    (payment : CommissionPayment)
    → find_payment payment_id rows ≡ some payment
    → is_approved payment.status ≡ true
    → is_empty (split_of rows payment).0 ≡ false
    → ltb_ℤ (pos 0) (split_of rows payment).1 ≡ false
    → (shares : List ℤ) × (pay payment_id now dto db rows
        ≡ ok (paid_rows payment_id now dto payment (split_of rows payment).0 shares rows))
      × (length shares ≡ length (split_of rows payment).0)
      × All (λ s. neg_part s ≡ 0) shares
pay_returned payment_id now dto db rows payment f q e r =
    let positive =
      attribute-Positive (outstanding_bookings payment.broker_id rows.entries) payment.amount_paise
        (outstanding_bookings-Outstanding payment.broker_id rows.entries) in
    let tds = tds_of (rule_194_h dto.payment_date db) payment.amount_paise in
    let (shares, made, len, low) = tds_shares_returns tds (split_of rows payment).0 positive e in
    (
      shares,
      pay_step payment_id now dto db rows payment (split_of rows payment).0
          (split_of rows payment).1 shares f q refl e r made,
      len,
      low,
    )

-- What is left of a booking's sum once an allocation within its positive part is taken.
within :
    (x g y : ℤ)
    → pos_part g ≤ pos_part x
    → neg_part g ≡ 0
    → y ≡ x -ℤ g
    → (neg_part y ≡ neg_part x) × (y ≤ℤ x)
unfolding ◌-ℤ◌
within x g y h k e = rw e (ground arith)

-- What a payment takes from a booking of a broker is within what is outstanding on it.
taken_within :
    (x b : ℕ) (rows : BrokerRows) (payment : CommissionPayment)
    → (pos_part (if payment.broker_id == x then gross_for b (split_of rows payment).0 else pos 0)
        ≤ pos_part (sum_where (of_both x b) rows.entries))
      × (neg_part (if payment.broker_id == x then gross_for b (split_of rows payment).0 else pos 0)
          ≡ 0)
taken_within x b rows payment = elim (Bool-cases (payment.broker_id == x)) [
  | inr c ↦ rw (c, if◌then◌else◌) (omega arith, refl)
  | inl c ↦
      let same : payment.broker_id ≡ x = (==_iff payment.broker_id x).0 c in
      let (most, low) =
        attribute-gross_for b (outstanding_bookings payment.broker_id rows.entries)
          payment.amount_paise (outstanding_bookings-Outstanding payment.broker_id rows.entries) in
      let owed = outstanding_bookings-owed_for payment.broker_id b rows.entries in
      rw (c, if◌then◌else◌, ← same) (omega (arith, most, owed), low)
]

-- A commission payment that returns is of a payment that is APPROVED and above zero; it is PAID
-- afterwards. It lowers the balance of its broker by exactly its amount, tax included, and
-- no other broker's. No sum of a broker's entries on a booking grows, and none falls below zero.
pub pay_effect :
    (payment_id now : ℕ) (dto : PayCommission) (db : Db) (rows rows' : BrokerRows)
    → pay payment_id now dto db rows ≡ ok rows'
    → (payment : CommissionPayment) × (find_payment payment_id rows ≡ some payment)
      × (is_approved payment.status ≡ true)
      × (0 < pos_part payment.amount_paise)
      × (find_payment payment_id rows' ≡ some (with_payment dto payment))
      × ((x : ℕ)
          → balance x rows'
            ≡ balance x rows -ℤ (if payment.broker_id == x then payment.amount_paise else pos 0))
      × ((x b : ℕ)
          → (neg_part (sum_where (of_both x b) rows'.entries)
              ≡ neg_part (sum_where (of_both x b) rows.entries))
            × (sum_where (of_both x b) rows'.entries ≤ℤ sum_where (of_both x b) rows.entries))
unfolding balance
pay_effect payment_id now dto db rows rows' h =
    let (payment, f, q, e, r) = pay_inv payment_id now dto db rows rows' h in
    let (shares, made, len, low) = pay_returned payment_id now dto db rows payment f q e r in
    let groups = outstanding_bookings payment.broker_id rows.entries in
    let good = outstanding_bookings-Outstanding payment.broker_id rows.entries in
    let allocations = (split_of rows payment).0 in
    let (whole, above) = attribute_full groups payment.amount_paise good e r in
    let after : rows' ≡ paid_rows payment_id now dto payment allocations shares rows = cc in
    let posted = post_shares payment.broker_id now allocations shares rows in
    (
      payment,
      f,
      q,
      above,
      rw after (
          find?-update_where (λ p. p.id == payment_id) (with_payment dto) (λ p. refl)
            posted.payments
            (ap (λ ps. find? (λ p. p.id == payment_id) ps)
                (post_shares-payments payment.broker_id now allocations shares rows)
              ∙ f)),
      λ x. rw (
        after,
        post_shares-sum_where (λ k _. k == x) payment.broker_id now allocations shares rows len low,
        taken_broker x payment.broker_id allocations,
        whole,
      ),
      λ x b.
          let (most, zero_below) = taken_within x b rows payment in
          let moved =
            post_shares-sum_where (λ k y. (k == x) && (y == b)) payment.broker_id now allocations
              shares rows len low in
          within (sum_where (of_both x b) rows.entries)
            (if payment.broker_id == x then gross_for b allocations else pos 0)
            (sum_where (of_both x b) rows'.entries) most zero_below
            (rw (after, moved, taken_booking x b payment.broker_id allocations)),
    )

parts_le : (a c : ℤ) → a ≤ℤ c → pos_part a ≤ pos_part c
parts_le a c h = ground arith

-- An approved payment above zero that is within its broker's balance always goes through.
pub pay_returns :
    (payment_id now : ℕ) (dto : PayCommission) (db : Db) (rows : BrokerRows)
    (payment : CommissionPayment)
    → find_payment payment_id rows ≡ some payment
    → is_approved payment.status ≡ true
    → 0 < pos_part payment.amount_paise
    → payment.amount_paise ≤ℤ balance payment.broker_id rows
    → (rows' : BrokerRows) × (pay payment_id now dto db rows ≡ ok rows')
unfolding balance
pay_returns payment_id now dto db rows payment f q above covered =
    let groups = outstanding_bookings payment.broker_id rows.entries in
    let good = outstanding_bookings-Outstanding payment.broker_id rows.entries in
    let cover = outstanding_bookings-cover payment.broker_id rows.entries in
    let spent = attribute_covered groups payment.amount_paise good (
      omega (
        arith,
        cover,
        parts_le payment.amount_paise (sum_where (of_broker payment.broker_id) rows.entries)
            covered,
      )) in
    let e = attribute_taken groups payment.amount_paise above spent in
    let (shares, made, _, _) =
      pay_returned payment_id now dto db rows payment f q e (ground (arith, spent)) in
    (paid_rows payment_id now dto payment (split_of rows payment).0 shares rows, made)
