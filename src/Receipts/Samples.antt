-- ===== src/Receipts/Samples.antt =====
-- A request to createReceipt (apps/api/src/postsales/receipt.service.ts), and what it leads to: a cheque of 6000 paise on the first installment and the second, 60 paise of it withheld as tax.
use openestate.Base.{ℕ, ◌≡◌, refl, ok, [], ◌∷◌}
use openestate.Base.Int.{ℤ, pos, neg, ◌+ℤ◌}
use openestate.Database.{Db, Receipt, InstallmentStatus, ClearanceStatus, cheque, receipt_kind}
use openestate.Ledger.{entry_row, post, post_one}
use openestate.Sequences.{allocate_for_fy}
use openestate.Receipts.{
  CreateReceipt, AllocationInput, create_receipt, check_receipt, write_receipt, load_installments,
  check_room, check_tds, post_allocation, bump_sum, record_tds, alloc_entry, tds_entry, receipt_row,
}
use openestate.Samples.{booked_db, opening_charge, first_installment, second_installment}

abbrev pub on_installment : ℕ → ℤ → AllocationInput
on_installment id amount = record { installment_id = id; amount_paise = amount }

abbrev pub cheque_of_6000 : CreateReceipt
cheque_of_6000 = record {
  booking_id = 7;
  receipt_date = 1_700_000_000_000;
  mode = cheque;
  gross_amount_paise = pos 6000;
  allocations = on_installment 11 (pos 5000) ∷ on_installment 12 (pos 1000) ∷ [];
  tds_deducted_paise = pos 60;
}

abbrev pub created_receipt : Receipt
created_receipt = receipt_row 100 cheque_of_6000 (record { seq = 1; fy_label = 2023 })

-- The rows after it: the first installment is paid, the second partly.
abbrev pub receipted_db : Db
receipted_db = record booked_db {
  next_id = 105;
  ledger =
      opening_charge
      ∷ entry_row 101 (alloc_entry 7 100 1_700_000_000_000 (on_installment 11 (pos 5000)))
      ∷ entry_row 102 (alloc_entry 7 100 1_700_000_000_000 (on_installment 12 (pos 1000)))
      ∷ entry_row 103 (tds_entry 7 100 1_700_000_000_000 (pos 60))
      ∷ [];
  installments =
      record first_installment { allocated_paise = pos 5000; status = InstallmentStatus.paid }
      ∷ record second_installment {
        allocated_paise = pos 1000;
        status = InstallmentStatus.part_paid;
      }
      ∷ [];
  receipts = created_receipt ∷ [];
  receipt_allocations =
      record { receipt_id = 100; installment_id = 11; amount_paise = pos 5000 }
      ∷ record { receipt_id = 100; installment_id = 12; amount_paise = pos 1000 }
      ∷ [];
  cheque_events =
      record { receipt_id = 100; status = ClearanceStatus.received; event_date = 1_700_000_000_000 }
      ∷ [];
  tds_deductions =
      record {
        id = 104;
        booking_id = 7;
        receipt_id = 100;
        deducted_paise = pos 60;
        receivable_ledger_entry_id = 103;
      }
      ∷ [];
  sequences = record { kind = receipt_kind; scope_label = 2023; next_value = 2 } ∷ [];
}

pub created : create_receipt cheque_of_6000 booked_db ≡ ok (created_receipt, receipted_db)
unfolding create_receipt check_receipt write_receipt load_installments check_room check_tds
    post_allocation bump_sum record_tds post post_one allocate_for_fy neg ◌+ℤ◌
created = refl
