-- ===== src/Receipts/Writes.antt =====
-- The writes of `createReceiptTx` (apps/api/src/postsales/receipt.service.ts) always return, and move
-- the balances by what they post.
use openestate.Base.{
  ℕ, suc, ◌≡◌, refl, ap, ◌∙◌, Bool, true, false, List, [], ◌∷◌, ◌++◌, ◌==◌, if◌then◌else◌,
  Bool-cases, inl, inr,
}
use openestate.Base.Int.{ℤ, pos, neg, ◌+ℤ◌, ltb_ℤ, int_laws}
use openestate.Database.{TdsDeduction, ◌>>=◌, cheque_like, ClearanceStatus}
use openestate.Ledger.{balance_of, entry_row, append_entry, post, post_one}
use openestate.Ledger.Balance.{balance_of-snoc}
use openestate.Ledger.Moves.{Moves, modify-Moves, input_adds, when-Moves, for_each-Moves, rounds}
use openestate.Sequences.{FyNumber}
use openestate.Installments.Moves.{bump_installment-Moves}
use openestate.Receipts.{
  AllocationInput, CreateReceipt, alloc_total, add_by_inst, post_allocation, alloc_entry, bump_sum,
  tds_entry, record_tds, receipt_row, write_receipt, cheque_event,
}

-- The writes: each returns, and moves the balances by what it posts.
module _ (b booking_id receipt_id date : ℕ) where
  post_allocation-Moves :
      (a : AllocationInput)
      → Moves b
          (input_adds b (alloc_entry booking_id receipt_id date a))
          (post_allocation booking_id receipt_id date a)
  unfolding post_allocation post
  post_allocation-Moves a db =
      let rows =
        db.receipt_allocations
        ++ record {
          receipt_id = receipt_id;
          installment_id = a.installment_id;
          amount_paise = a.amount_paise;
        }
          ∷ [] in
      let entry = entry_row db.next_id (alloc_entry booking_id receipt_id date a) in
      (
        tt,
        append_entry entry (record db { next_id = suc db.next_id; receipt_allocations = rows }),
        refl,
        balance_of-snoc b db.ledger entry,
      )

  -- All the credits of a receipt together.
  allocations-rounds :
      (inputs : List AllocationInput)
      → rounds b (λ a. input_adds b (alloc_entry booking_id receipt_id date a)) inputs
        ≡ (if booking_id == b then neg (alloc_total inputs) else pos 0)
  allocations-rounds [] = elim (Bool-cases (booking_id == b)) [
    | inl e ↦ rw e (omega int_laws)
    | inr e ↦ rw e
  ]
  allocations-rounds (a ∷ rest) = elim (Bool-cases (booking_id == b)) [
    | inl e ↦ rw (allocations-rounds rest, e) (omega int_laws)
    | inr e ↦ rw (allocations-rounds rest, e) (omega int_laws)
  ]

bump_sum-Moves : (b : ℕ) (p : ℕ × ℤ) → Moves b (pos 0) (bump_sum p)
unfolding bump_sum
bump_sum-Moves b (id, add) db = bump_installment-Moves b id add db

no_rounds : (b : ℕ) (ps : List (ℕ × ℤ)) → rounds b (λ (p : ℕ × ℤ). pos 0) ps ≡ pos 0
no_rounds b [] = refl
no_rounds b (p ∷ ps) = rw (no_rounds b ps) (omega int_laws)

record_tds-Moves :
    (b : ℕ) (dto : CreateReceipt) (receipt_id : ℕ)
    → Moves b
        (input_adds b (tds_entry dto.booking_id receipt_id dto.receipt_date dto.tds_deducted_paise))
        (record_tds dto receipt_id)
unfolding record_tds post_one
record_tds-Moves b dto receipt_id db =
    let entry =
      entry_row db.next_id
        (tds_entry dto.booking_id receipt_id dto.receipt_date dto.tds_deducted_paise) in
    let deduction : TdsDeduction = record {
      id = suc db.next_id;
      booking_id = dto.booking_id;
      receipt_id = receipt_id;
      deducted_paise = dto.tds_deducted_paise;
      receivable_ledger_entry_id = db.next_id;
    } in
    (
      tt,
      append_entry entry (record db {
        next_id = suc (suc db.next_id);
        tds_deductions = db.tds_deductions ++ deduction ∷ [];
      }),
      refl,
      balance_of-snoc b db.ledger entry,
    )

if_same : {A : Type 0} (c : Bool) (x : A) → (if c then x else x) ≡ x
if_same true x = refl
if_same false x = refl

-- The four parts of the movement together: `k` is whether the booking is the one that is looked
-- at, `w` whether tax was withheld.
sum_up :
    (k w : Bool) (x x1 x2 x3 x4 g t : ℤ)
    → x1 ≡ x +ℤ pos 0
    → x2 ≡ x1 +ℤ (if k then neg g else pos 0)
    → x3 ≡ x2 +ℤ pos 0
    → x4 ≡ x3 +ℤ (if w then (if k then t else pos 0) else pos 0)
    → x4 ≡ x +ℤ (if k then neg g +ℤ (if w then t else pos 0) else pos 0)
sum_up true true x x1 x2 x3 x4 g t a b c d = rw (d, c, b, a) (omega int_laws)
sum_up true false x x1 x2 x3 x4 g t a b c d = rw (d, c, b, a) (omega int_laws)
sum_up false true x x1 x2 x3 x4 g t a b c d = rw (d, c, b, a) (omega int_laws)
sum_up false false x x1 x2 x3 x4 g t a b c d = rw (d, c, b, a) (omega int_laws)

-- What a receipt adds to the balance of its booking: the gross amount is credited, and the tax
-- that was withheld stays owed.
abbrev pub receipt_adds : CreateReceipt → ℤ
receipt_adds dto =
    neg (alloc_total dto.allocations)
    +ℤ (if ltb_ℤ (pos 0) dto.tds_deducted_paise then dto.tds_deducted_paise else pos 0)

pub write_receipt-Moves :
    (b : ℕ) (dto : CreateReceipt) (number : FyNumber)
    → Moves b (if dto.booking_id == b then receipt_adds dto else pos 0) (write_receipt dto number)
unfolding write_receipt
write_receipt-Moves b dto number db =
    let id = db.next_id in
    let receipt = receipt_row id dto number in
    let db0 = record db { next_id = suc id; receipts = db.receipts ++ receipt ∷ [] } in
    let event = cheque_event id ClearanceStatus.received dto.receipt_date in
    let (_, db1, e1, m1) =
      when-Moves b (cheque_like dto.mode) (pos 0) event (modify-Moves b _ (λ d. refl)) db0 in
    let (_, db2, e2, m2) =
      for_each-Moves b (λ a. input_adds b (alloc_entry dto.booking_id id dto.receipt_date a))
        (post_allocation dto.booking_id id dto.receipt_date) dto.allocations
        (post_allocation-Moves b dto.booking_id id dto.receipt_date) db1 in
    let (_, db3, e3, m3) =
      for_each-Moves b (λ (p : ℕ × ℤ). pos 0) bump_sum (add_by_inst dto.allocations)
        (bump_sum-Moves b) db2 in
    let (_, db4, e4, m4) =
      when-Moves b (ltb_ℤ (pos 0) dto.tds_deducted_paise)
        (input_adds b (tds_entry dto.booking_id id dto.receipt_date dto.tds_deducted_paise))
        (record_tds dto id) (record_tds-Moves b dto id) db3 in
    (
      receipt,
      db4,
      rw (e1, ◌>>=◌, e2, e3, e4),
      sum_up (dto.booking_id == b) (ltb_ℤ (pos 0) dto.tds_deducted_paise) (balance_of b db.ledger)
          (balance_of b db1.ledger) (balance_of b db2.ledger) (balance_of b db3.ledger)
          (balance_of b db4.ledger) (alloc_total dto.allocations) dto.tds_deducted_paise
          (m1 ∙ ap (λ x. balance_of b db.ledger +ℤ x) (if_same (cheque_like dto.mode) (pos 0)))
          (m2
            ∙ ap (λ x. balance_of b db1.ledger +ℤ x)
                (allocations-rounds b dto.booking_id id dto.receipt_date dto.allocations))
          (m3 ∙ ap (λ x. balance_of b db2.ledger +ℤ x) (no_rounds b (add_by_inst dto.allocations)))
          m4,
    )
