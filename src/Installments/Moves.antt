-- ===== src/Installments/Moves.antt =====
-- `bumpInstallment` of apps/api/src/postsales/receipt.service.ts posts nothing.
use openestate.Base.{ℕ, ◌≡◌, refl, Option, none, some}
use openestate.Base.Int.{ℤ, pos, int_laws}
use openestate.Database.{Installment, Db}
use openestate.Installments.{find_installment, bump_found, bump_installment}
use openestate.Ledger.Moves.{Moves}

pub bump_found-ledger :
    (delta : ℤ) (found : Option Installment) (db : Db)
    → (bump_found delta found db).ledger ≡ db.ledger
bump_found-ledger delta none db = refl
bump_found-ledger delta (some inst) db = refl

pub bump_found-next_id :
    (delta : ℤ) (found : Option Installment) (db : Db)
    → (bump_found delta found db).next_id ≡ db.next_id
bump_found-next_id delta none db = refl
bump_found-next_id delta (some inst) db = refl

pub bump_found-receipts :
    (delta : ℤ) (found : Option Installment) (db : Db)
    → (bump_found delta found db).receipts ≡ db.receipts
bump_found-receipts delta none db = refl
bump_found-receipts delta (some inst) db = refl

pub bump_installment-Moves : (b id : ℕ) (delta : ℤ) → Moves b (pos 0) (bump_installment id delta)
unfolding bump_installment
bump_installment-Moves b id delta db =
    let found = find_installment id db in
    (tt, bump_found delta found db, refl, rw (bump_found-ledger delta found db) (omega int_laws))
