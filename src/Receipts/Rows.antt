-- ===== src/Receipts/Rows.antt =====
-- The request and the rows of `createReceiptTx` (apps/api/src/postsales/receipt.service.ts), and the
-- sums and searches it makes on them.
use openestate.Base.{
  ℕ, Bool, true, false, ◌&&◌, Option, none, some, List, [], ◌∷◌, ◌==◌, leb, ltb, if◌then◌else◌,
  find?,
}
use openestate.Base.Int.{ℤ, pos, neg, ◌+ℤ◌}
use openestate.Database.{
  LedgerEntryType, ReceiptMode, cheque_like, ClearanceStatus, TdsSection, section_194_ia,
  section_194_h, Installment, Receipt, TdsRule, CompanyConfig, Db,
}
use openestate.Ledger.{EntryInput}
use openestate.Sequences.{FyNumber}

-- `receiptAllocationInputSchema`
pub record AllocationInput : Type 0 where
  pub installment_id : ℕ
  pub amount_paise : ℤ

-- `createReceiptSchema`, without the columns that are only stored.
pub record CreateReceipt : Type 0 where
  pub booking_id : ℕ
  pub receipt_date : ℕ
  pub mode : ReceiptMode
  pub gross_amount_paise : ℤ
  pub allocations : List AllocationInput
  pub tds_deducted_paise : ℤ

-- `allocations.reduce((s, a) => s + a.amountPaise, 0n)`
abbrev pub alloc_total : List AllocationInput → ℤ
alloc_total [] = pos 0
alloc_total (a ∷ rest) = a.amount_paise +ℤ alloc_total rest

abbrev pub find_installment_of : ℕ → ℕ → Db → Option Installment
find_installment_of booking_id id db =
    find? (λ i. i.id == id && i.booking_id == booking_id) db.installments

abbrev pub is_unraised : Option ℕ → Bool
is_unraised none = true
is_unraised (some _) = false

-- `addByInst.set(id, (addByInst.get(id) ?? 0n) + amount)`
abbrev pub add_to : ℕ → ℤ → List (ℕ × ℤ) → List (ℕ × ℤ)
add_to id amount [] = (id, amount) ∷ []
add_to id amount ((j, sum) ∷ rest) =
    if j == id then (j, sum +ℤ amount) ∷ rest else (j, sum) ∷ add_to id amount rest

abbrev pub add_by_inst_from : List AllocationInput → List (ℕ × ℤ) → List (ℕ × ℤ)
add_by_inst_from [] sums = sums
add_by_inst_from (a ∷ rest) sums =
    add_by_inst_from rest (add_to a.installment_id a.amount_paise sums)

abbrev pub add_by_inst : List AllocationInput → List (ℕ × ℤ)
add_by_inst allocations = add_by_inst_from allocations []

-- `effectiveFrom <= date` and `effectiveTo` is NULL or `>= date`
abbrev pub in_force : ℕ → TdsRule → Bool
in_force date rule =
    leb rule.effective_from date
    && elim rule.effective_to [ none ↦ true | some until ↦ leb date until ]

abbrev pub is_194_ia : TdsSection → Bool
is_194_ia section_194_ia = true
is_194_ia section_194_h = false

-- `findFirst` with `orderBy: { effectiveFrom: 'desc' }`, among the rules that pass the test.
abbrev pub latest : (TdsRule → Bool) → List TdsRule → Option TdsRule → Option TdsRule
latest test [] best = best
latest test (r ∷ rules) best = latest test rules (
    if test r
    then elim best [
      | none ↦ some r
      | some b ↦ if ltb b.effective_from r.effective_from then some r else some b
    ]
    else best)

-- `config?.fyStartMonth ?? 4`
abbrev pub fy_start_month_of : Option CompanyConfig → ℕ
fy_start_month_of none = 4
fy_start_month_of (some c) = c.fy_start_month

abbrev pub receipt_row : ℕ → CreateReceipt → FyNumber → Receipt
receipt_row id dto number = record {
  id = id;
  booking_id = dto.booking_id;
  fy_label = number.fy_label;
  seq_value = number.seq;
  receipt_date = dto.receipt_date;
  mode = dto.mode;
  gross_amount_paise = dto.gross_amount_paise;
  clearance_status =
      if cheque_like dto.mode then ClearanceStatus.received else ClearanceStatus.not_applicable;
  is_reversed = false;
  reprint_count = 0;
}

-- The credit of one allocation.
abbrev pub alloc_entry : ℕ → ℕ → ℕ → AllocationInput → EntryInput
alloc_entry booking_id receipt_id date a = record {
  booking_id = booking_id;
  entry_type = LedgerEntryType.receipt_alloc;
  signed_amount_paise = neg a.amount_paise;
  installment_id = some a.installment_id;
  receipt_id = some receipt_id;
  reversal_of_entry_id = none;
  effective_date = date;
}

abbrev pub tds_entry : ℕ → ℕ → ℕ → ℤ → EntryInput
tds_entry booking_id receipt_id date amount = record {
  booking_id = booking_id;
  entry_type = LedgerEntryType.tds_receivable;
  signed_amount_paise = amount;
  installment_id = none;
  receipt_id = some receipt_id;
  reversal_of_entry_id = none;
  effective_date = date;
}
