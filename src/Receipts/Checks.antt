-- ===== src/Receipts/Checks.antt =====
-- The checks of `createReceiptTx` (apps/api/src/postsales/receipt.service.ts) write nothing, and
-- what they have established where they pass.
use openestate.Base.{ℕ, ◌≡◌, refl, some, List, [], ◌∷◌, ◌++◌, ok, arith, Option-cases, inl, inr}
use openestate.Base.Int.{ℤ, ◌≤ℤ◌}
use openestate.Database.{Booking, Installment, Db, for_each}
use openestate.Ledger.Moves.{Result-cases, ReadsOnly, for_each-ReadsOnly}
use openestate.Refunds.{find_booking}
use openestate.Receipts.{
  AllocationInput, CreateReceipt, alloc_total, load_installments, find_installment_of, add_by_inst,
  check_room, check_tds, check_receipt,
}

-- The checks write nothing.
load_installments-ReadsOnly :
    (b : ℕ) (inputs : List AllocationInput) (loaded : List Installment)
    → ReadsOnly (load_installments b inputs loaded)
unfolding load_installments
load_installments-ReadsOnly b [] loaded db = refl
load_installments-ReadsOnly b (a ∷ rest) loaded db =
    elim (Option-cases (find_installment_of b a.installment_id db)) [
      | inl e ↦ ground (arith, e, load_installments-ReadsOnly b rest loaded db)
      | inr (inst, e) ↦ ground (
        arith,
        e,
        load_installments-ReadsOnly b rest loaded db,
        load_installments-ReadsOnly b rest (loaded ++ inst ∷ []) db,
      )
    ]

check_room-ReadsOnly : (loaded : List Installment) (p : ℕ × ℤ) → ReadsOnly (check_room loaded p)
unfolding check_room
check_room-ReadsOnly loaded p db = ground arith

check_tds-ReadsOnly : (dto : CreateReceipt) (booking : Booking) → ReadsOnly (check_tds dto booking)
unfolding check_tds
check_tds-ReadsOnly dto booking db = ground arith

-- What the checks have established where they pass; they leave the rows alone.
pub check_receipt_returned :
    (dto : CreateReceipt) (db db' : Db) (booking : Booking)
    → check_receipt dto db ≡ ok (booking, db')
    → (db' ≡ db)
      × (find_booking dto.booking_id db ≡ some booking)
      × (alloc_total dto.allocations ≡ dto.gross_amount_paise)
      × (dto.tds_deducted_paise ≤ℤ dto.gross_amount_paise)
unfolding check_receipt
check_receipt_returned dto db db' booking h =
    elim (Result-cases (load_installments dto.booking_id dto.allocations [] db)) [
      | inr (x, e) ↦ ground (arith, e)
      | inl (loaded, db1, e) ↦
          let same : db1 ≡ db =
            cc (load_installments-ReadsOnly dto.booking_id dto.allocations [] db) in
          elim (Result-cases (for_each (add_by_inst dto.allocations) (check_room loaded) db)) [
            | inr (x, e') ↦ ground (arith, e, e', same)
            | inl (_, db2, e') ↦
                let same' : db2 ≡ db = cc (
                  for_each-ReadsOnly (check_room loaded) (add_by_inst dto.allocations)
                    (check_room-ReadsOnly loaded) db) in
                ground (arith, e, e', same, same', check_tds-ReadsOnly dto booking db)
          ]
    ]
