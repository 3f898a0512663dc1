-- ===== src/Reversals/Tests.antt =====
-- The theorems on reversals at the cheque of 6000 paise of Receipts/Samples.antt, with 60 paise of
-- withheld tax.
use openestate.Base.{
  ℕ, ◌≡◌, refl, true, false, some, [], ◌∷◌, ◌++◌, ◌==◌, if◌then◌else◌, ok, err, conflict,
}
use openestate.Base.Int.{pos, neg, ◌+ℤ◌}
use openestate.Database.{
  Db, Receipt, LedgerEntry, LedgerEntryType, ClearanceStatus, cheque_like, is_settled, is_bounced,
  TdsDeduction,
}
use openestate.Installments.{bump_installment}
use openestate.Ledger.{balance_of, entry_row, post_one}
use openestate.Receipts.{alloc_entry, tds_entry}
use openestate.Receipts.Samples.{
  on_installment, cheque_of_6000, created_receipt, receipted_db, created,
}
use openestate.Samples.{booked_db, first_installment, second_installment}
use openestate.Reversals.{
  find_receipt, reverse_receipt, record_cheque_event, with_clearance, record_tds_certificate,
  find_deduction, reverse_receipt_ledger, reverse_entry, reversal_entry, receipt_bounce_entry,
}
use openestate.Reversals.Entries.{live_amount}
use openestate.Reversals.Undo.{reverse_receipt_effect}
use openestate.Reversals.Cheques.{bounce_amount, record_cheque_event_effect}
use openestate.Reversals.RoundTrip.{create_reverse}
use openestate.Reversals.Certificate.{has_certificate, certified_db, record_tds_certificate_effect}

create_reverse_example :
    (db2 : Db) × (reverse_receipt 100 receipted_db ≡ ok (tt, db2))
    × ((b : ℕ) → balance_of b db2.ledger ≡ balance_of b booked_db.ledger)
create_reverse_example =
    create_reverse cheque_of_6000 booked_db receipted_db created_receipt (((tt, tt), tt), tt)
      created

abbrev certified_sample : Db
certified_sample =
    certified_db 104 9
      (record {
        id = 104;
        booking_id = 7;
        receipt_id = 100;
        deducted_paise = pos 60;
        receivable_ledger_entry_id = 103;
      })
      receipted_db

certified : record_tds_certificate 104 9 receipted_db ≡ ok (tt, certified_sample)
unfolding record_tds_certificate post_one neg
certified = refl

record_tds_certificate_effect_example :
    (d : TdsDeduction) × (find_deduction 104 receipted_db ≡ some d)
    × (has_certificate 104 receipted_db ≡ false)
    × ((b : ℕ)
        → balance_of b certified_sample.ledger
          ≡ balance_of b receipted_db.ledger
            +ℤ (if d.booking_id == b then neg d.deducted_paise else pos 0))
    × ((later : ℕ) → record_tds_certificate 104 later certified_sample ≡ err conflict)
record_tds_certificate_effect_example =
    record_tds_certificate_effect 104 9 receipted_db certified_sample certified

abbrev first_credit : LedgerEntry
first_credit = entry_row 101 (alloc_entry 7 100 1_700_000_000_000 (on_installment 11 (pos 5000)))

abbrev second_credit : LedgerEntry
second_credit = entry_row 102 (alloc_entry 7 100 1_700_000_000_000 (on_installment 12 (pos 1000)))

abbrev withheld : LedgerEntry
withheld = entry_row 103 (tds_entry 7 100 1_700_000_000_000 (pos 60))

-- The three entries taken back, and the installments unpaid again.
abbrev undone_by : LedgerEntryType → ℕ → Receipt → Db
undone_by type date receipt = record receipted_db {
  next_id = 108;
  ledger =
      receipted_db.ledger
      ++ entry_row 105 (reversal_entry created_receipt type date first_credit)
        ∷ entry_row 106 (reversal_entry created_receipt type date second_credit)
        ∷ entry_row 107 (reversal_entry created_receipt type date withheld)
        ∷ [];
  installments = first_installment ∷ second_installment ∷ [];
  receipts = receipt ∷ [];
}

abbrev reversed_db : Db
reversed_db =
    undone_by LedgerEntryType.adjustment 1_700_000_000_000
      (record created_receipt { is_reversed = true })

reversed : reverse_receipt 100 receipted_db ≡ ok (tt, reversed_db)
unfolding reverse_receipt reverse_receipt_ledger reverse_entry post_one bump_installment neg ◌+ℤ◌
reversed = refl

reverse_receipt_effect_example :
    (r : Receipt) × (find_receipt 100 receipted_db ≡ some r)
    × (r.is_reversed ≡ false)
    × (is_bounced r.clearance_status ≡ false)
    × (find_receipt 100 reversed_db ≡ some (record r { is_reversed = true }))
    × (reverse_receipt 100 reversed_db ≡ err conflict)
    × ((b : ℕ)
        → balance_of b reversed_db.ledger
          ≡ balance_of b receipted_db.ledger
            +ℤ (if r.booking_id == b then neg (live_amount r.id receipted_db.ledger) else pos 0))
reverse_receipt_effect_example = reverse_receipt_effect 100 receipted_db reversed_db reversed

-- The cheque bounces: the same entries, and the charge of 250 paise.
abbrev bounced_db : Db
bounced_db =
    let undone =
      undone_by LedgerEntryType.bounce_reversal 9
        (with_clearance ClearanceStatus.bounced created_receipt) in
    record undone {
      next_id = 109;
      ledger =
          undone.ledger ++ entry_row 108 (receipt_bounce_entry created_receipt (pos 250) 9) ∷ [];
      cheque_events =
          receipted_db.cheque_events
          ++ record { receipt_id = 100; status = ClearanceStatus.bounced; event_date = 9 } ∷ [];
    }

bounced : record_cheque_event 100 ClearanceStatus.bounced 9 receipted_db ≡ ok (tt, bounced_db)
unfolding record_cheque_event reverse_receipt_ledger reverse_entry post_one bump_installment neg
    ◌+ℤ◌
bounced = refl

record_cheque_event_effect_example :
    (r : Receipt) × (find_receipt 100 receipted_db ≡ some r)
    × (cheque_like r.mode ≡ true)
    × (is_settled r.clearance_status ≡ false)
    × (find_receipt 100 bounced_db ≡ some (with_clearance ClearanceStatus.bounced r))
    × ((b : ℕ)
        → balance_of b bounced_db.ledger
          ≡ balance_of b receipted_db.ledger
            +ℤ (if r.booking_id == b
                then bounce_amount ClearanceStatus.bounced r receipted_db
                else pos 0))
record_cheque_event_effect_example =
    record_cheque_event_effect 100 9 ClearanceStatus.bounced receipted_db bounced_db bounced
