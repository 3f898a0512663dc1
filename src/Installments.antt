-- ===== src/Installments.antt =====
-- `bumpInstallment` of apps/api/src/postsales/receipt.service.ts: the cached amount that is allocated
-- to an installment, and its status.
pub mod Moves
use openestate.Base.{ℕ, Option, none, some, List, ◌==◌, if◌then◌else◌, find?, update_where}
use openestate.Base.Int.{ℤ, pos, ◌+ℤ◌, ltb_ℤ, leb_ℤ}
use openestate.Database.{InstallmentStatus, Installment, Db, Tx, gets, modify, ◌>>=◌}

abbrev pub find_installment : ℕ → Db → Option Installment
find_installment id db = find? (λ i. i.id == id) db.installments

-- `allocated >= amount ? PAID : allocated > 0n ? PART_PAID : UNPAID`
abbrev pub status_for : ℤ → ℤ → InstallmentStatus
status_for allocated amount =
    if leb_ℤ amount allocated
    then InstallmentStatus.paid
    else (if ltb_ℤ (pos 0) allocated then InstallmentStatus.part_paid else InstallmentStatus.unpaid)

abbrev pub with_allocated : ℤ → InstallmentStatus → Installment → Installment
with_allocated allocated status i = record i { allocated_paise = allocated; status = status }

abbrev pub bump_row : ℤ → Installment → Db → Db
bump_row delta inst db =
    let allocated = inst.allocated_paise +ℤ delta in
    record db {
      installments =
          update_where (λ i. i.id == inst.id)
            (with_allocated allocated (status_for allocated inst.amount_paise)) db.installments;
    }

abbrev pub bump_found : ℤ → Option Installment → Db → Db
bump_found delta none db = db
bump_found delta (some inst) db = bump_row delta inst db

-- Adjust an installment's allocated cache by `delta`, and its status.
unfoldable pub bump_installment : ℕ → ℤ → Tx (Unit {0})
bump_installment id delta = do inst ← gets (find_installment id); modify (bump_found delta inst)
