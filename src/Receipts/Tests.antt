-- ===== src/Receipts/Tests.antt =====
-- The theorem on receipts at a cheque of 6000 paise on the first installment and the second, 60 paise of it withheld as tax.
use openestate.Base.{ℕ, ◌≡◌, refl, err, bad_request, some, [], ◌∷◌, ◌==◌, if◌then◌else◌}
use openestate.Base.Int.{pos, neg, ◌+ℤ◌, ltb_ℤ, ◌≤ℤ◌}
use openestate.Database.{Booking}
use openestate.Ledger.{balance_of}
use openestate.Refunds.{find_booking}
use openestate.Receipts.{alloc_total, create_receipt, check_receipt, load_installments, check_room}
use openestate.Receipts.Samples.{
  on_installment, cheque_of_6000, created_receipt, receipted_db, created,
}
use openestate.Receipts.Posting.{create_receipt_effect}
use openestate.Samples.{booked_db}

-- More than the second installment's amount.
beyond_installment :
    create_receipt
      (record cheque_of_6000 {
        gross_amount_paise = pos 5000;
        allocations = on_installment 12 (pos 2500) ∷ on_installment 12 (pos 2500) ∷ [];
      })
      booked_db
    ≡ err bad_request
unfolding create_receipt check_receipt load_installments check_room ◌+ℤ◌
beyond_installment = refl

create_receipt_effect_example :
    (booking : Booking) × (find_booking 7 booked_db ≡ some booking)
    × (alloc_total cheque_of_6000.allocations ≡ pos 6000)
    × (pos 60 ≤ℤ pos 6000)
    × ((b : ℕ)
        → balance_of b receipted_db.ledger
          ≡ balance_of b booked_db.ledger
            +ℤ (if 7 == b
                then neg (pos 6000) +ℤ (if ltb_ℤ (pos 0) (pos 60) then pos 60 else pos 0)
                else pos 0))
create_receipt_effect_example =
    create_receipt_effect cheque_of_6000 booked_db receipted_db created_receipt created
