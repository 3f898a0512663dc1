-- ===== src/Database/Transaction.antt =====
-- A transaction (`withTenantTx`): it reads and writes the rows and returns, or it throws and the
-- rows stay as they were, since the database rolls it back.
use Prim.Native.Nat.{ℕ, suc}
use mathlib.Core.Bool.{Bool, true, false}
use mathlib.Core.Option.{Option, none, some}
use mathlib.Core.List.{List, [], ◌∷◌}
use openestate.Base.{Error, Result, ok, err}
use openestate.Database.Tables.{Db}

abbrev pub Tx : Type 0 → Type 0
Tx A = Db → Result (A × Db)

module _ {A : Type 0} where
  abbrev pub pure : A → Tx A
  pure a db = ok (a, db)

  abbrev pub throw : Error → Tx A
  throw e db = err e

  abbrev pub gets : (Db → A) → Tx A
  gets f db = ok (f db, db)

  -- `if (!row) throw e`
  abbrev pub or_fail : Option A → Error → Tx A
  or_fail none e db = err e
  or_fail (some a) e db = ok (a, db)

  -- A call that may throw and touches no row.
  abbrev pub lift : Result A → Tx A
  lift (ok a) db = ok (a, db)
  lift (err e) db = err e

infixl 5 ◌>>=◌ ◌>>◌
abbrev pub ◌>>=◌ : {A B : Type 0} → Tx A → (A → Tx B) → Tx B
◌>>=◌ m f db = elim (m db) [ ok (a, db') ↦ f a db' | err e ↦ err e ]

abbrev pub ◌>>◌ : {A B : Type 0} → Tx A → Tx B → Tx B
m >> k = m >>= λ _. k

-- `if (c) throw e`
abbrev pub fail_if : Bool → Error → Tx (Unit {0})
fail_if true e db = err e
fail_if false e db = ok (tt, db)

-- `if (c) { … }`
abbrev pub when : Bool → Tx (Unit {0}) → Tx (Unit {0})
when true m db = m db
when false m db = ok (tt, db)

abbrev pub modify : (Db → Db) → Tx (Unit {0})
modify f db = ok (tt, f db)

-- `for (const x of xs) { … }`
abbrev pub for_each : {A : Type 0} → List A → (A → Tx (Unit {0})) → Tx (Unit {0})
for_each [] body db = ok (tt, db)
for_each (x ∷ xs) body db = elim (body x db) [ ok (_, db') ↦ for_each xs body db' | err e ↦ err e ]

-- A database id for a new row.
abbrev pub fresh_id : Tx ℕ
fresh_id db = ok (db.next_id, record db { next_id = suc db.next_id })
