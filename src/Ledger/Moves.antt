-- ===== src/Ledger/Moves.antt =====
-- Transactions that always return and move the balance of a booking by a known amount, and
-- transactions that write nothing, with a rule for each way to put them together.
use openestate.Base.{
  ℕ, suc, ◌≡◌, refl, ◌∙◌, List, [], ◌∷◌, Bool, true, false, if◌then◌else◌, ◌⊎◌, inl, inr, Result,
  ok, err, ◌==◌, Error,
}
use openestate.Base.Int.{ℤ, pos, ◌+ℤ◌, int_laws}
use openestate.Database.{Db, Tx, pure, gets, modify, when, for_each, fresh_id, ◌>>=◌}
use openestate.Ledger.{EntryInput, entry_row, append_entry, post_one, balance_of}
use openestate.Ledger.Balance.{balance_of-snoc}

-- `m` returns on all rows, and moves the balance of booking `b` by `x`.
abbrev pub Moves : ℕ → ℤ → {A : Type 0} → Tx A → Type 0
Moves b x {A} m =
    (db : Db)
    → (a : A) × (db' : Db) × (m db ≡ ok (a, db'))
      × (balance_of b db'.ledger ≡ balance_of b db.ledger +ℤ x)

module _ (b : ℕ) where
  pub >>=-Moves :
      {A B : Type 0} (x y : ℤ) (m : Tx A) (f : A → Tx B)
      → Moves b x m
      → ((a : A) → Moves b y (f a))
      → Moves b (x +ℤ y) (m >>= f)
  >>=-Moves x y m f hm hf db =
      let (a, db1, e, moved) = hm db in
      let (c, db2, e', moved') = hf a db1 in
      (c, db2, rw (e, ◌>>=◌) e', rw (moved', moved) (omega int_laws))

  pub modify-Moves :
      (f : Db → Db) → ((db : Db) → (f db).ledger ≡ db.ledger) → Moves b (pos 0) (modify f)
  modify-Moves f same db = (tt, f db, refl, rw (same db) (omega int_laws))

  pub pure-Moves : {A : Type 0} (a : A) → Moves b (pos 0) (pure a)
  pure-Moves a db = (a, db, refl, omega int_laws)

  pub gets-Moves : {A : Type 0} (f : Db → A) → Moves b (pos 0) (gets f)
  gets-Moves f db = (f db, db, refl, omega int_laws)

  pub fresh_id-Moves : Moves b (pos 0) fresh_id
  fresh_id-Moves db = (db.next_id, record db { next_id = suc db.next_id }, refl, omega int_laws)

  -- What an input adds to the balance once it is posted.
  abbrev pub input_adds : EntryInput → ℤ
  input_adds e = if e.booking_id == b then e.signed_amount_paise else pos 0

  pub post_one-Moves : (e : EntryInput) → Moves b (input_adds e) (post_one e)
  unfolding post_one
  post_one-Moves e db = (
    entry_row db.next_id e,
    append_entry (entry_row db.next_id e) (record db { next_id = suc db.next_id }),
    refl,
    balance_of-snoc b db.ledger (entry_row db.next_id e),
  )

  pub when-Moves :
      (c : Bool) (x : ℤ) (m : Tx (Unit {0}))
      → Moves b x m
      → Moves b (if c then x else pos 0) (when c m)
  when-Moves true x m h db = h db
  when-Moves false x m h db = (tt, db, refl, omega int_laws)

  -- The sum of what each round moves.
  abbrev pub rounds : {A : Type 0} → (A → ℤ) → List A → ℤ
  rounds f [] = pos 0
  rounds f (x ∷ xs) = f x +ℤ rounds f xs

  pub for_each-Moves :
      {A : Type 0} (f : A → ℤ) (body : A → Tx (Unit {0})) (xs : List A)
      → ((x : A) → Moves b (f x) (body x))
      → Moves b (rounds f xs) (for_each xs body)
  for_each-Moves f body [] h db = (tt, db, refl, omega int_laws)
  for_each-Moves f body (x ∷ xs) h db =
      let (_, db1, e, moved) = h x db in
      let (_, db2, e', moved') = for_each-Moves f body xs h db1 in
      (tt, db2, rw (e, for_each) e', rw (moved', moved) (omega int_laws))

pub Result-cases :
    {A : Type 0} (r : Result (A × Db))
    → ((a : A) × (db : Db) × (r ≡ ok (a, db))) ⊎ ((e : Error) × (r ≡ err e))
Result-cases (ok (a, db)) = inl (a, db, refl)
Result-cases (err e) = inr (e, refl)

-- A call that returned, or threw, before another.
pub bind_ok :
    {A C : Type 0} (m : Tx A) (f : A → Tx C) (db : Db) {db1 : Db} {a : A}
    → m db ≡ ok (a, db1)
    → (m >>= f) db ≡ f a db1
bind_ok m f db e = rw (◌>>=◌, e)

pub bind_err :
    {A C : Type 0} (m : Tx A) (f : A → Tx C) (db : Db) {x : Error}
    → m db ≡ err x
    → (m >>= f) db ≡ err x
bind_err m f db e = rw (◌>>=◌, e)

-- The rows after a call: those it left, or the old ones where it threw.
abbrev pub rows_after : {A : Type 0} → Db → Result (A × Db) → Db
rows_after db (ok (a, db')) = db'
rows_after db (err e) = db

-- `m` leaves a part of the rows alone, whether it returns or throws.
abbrev pub Keeps : {A B : Type 0} → (Db → B) → Tx A → Type 0
Keeps part m = (db : Db) → part (rows_after db (m db)) ≡ part db

-- `m` writes nothing.
abbrev pub ReadsOnly : {A : Type 0} → Tx A → Type 0
ReadsOnly m = Keeps (λ db. db) m

module _ {B : Type 0} (part : Db → B) where
  keeps_on :
      {A : Type 0} (db db1 : Db) (r : Result (A × Db))
      → part db1 ≡ part db
      → part (rows_after db1 r) ≡ part db1
      → part (rows_after db r) ≡ part db
  keeps_on db db1 (ok (a, db2)) first second = second ∙ first
  keeps_on db db1 (err e) first second = refl

  pub >>=-Keeps :
      {A C : Type 0} (m : Tx A) (f : A → Tx C)
      → Keeps part m
      → ((a : A) → Keeps part (f a))
      → Keeps part (m >>= f)
  >>=-Keeps {A = A} m f hm hf db = go (m db) (hm db)
    where
      go :
          (r : Result (A × Db))
          → part (rows_after db r) ≡ part db
          → part (rows_after db (elim r [ ok (a, db') ↦ f a db' | err e ↦ err e ])) ≡ part db
      go (err e) same = refl
      go (ok (a, db1)) same = keeps_on db db1 (f a db1) same (hf a db1)

  pub for_each-Keeps :
      {A : Type 0} (body : A → Tx (Unit {0})) (xs : List A)
      → ((x : A) → Keeps part (body x))
      → Keeps part (for_each xs body)
  for_each-Keeps body [] h db = refl
  for_each-Keeps body (x ∷ xs) h db =
      >>=-Keeps (body x) (λ _. for_each xs body) (h x) (λ _. for_each-Keeps body xs h) db

  pub when-Keeps : (c : Bool) (m : Tx (Unit {0})) → Keeps part m → Keeps part (when c m)
  when-Keeps true m h db = h db
  when-Keeps false m h db = refl

pub for_each-ReadsOnly :
    {A : Type 0} (body : A → Tx (Unit {0})) (xs : List A)
    → ((x : A) → ReadsOnly (body x))
    → ReadsOnly (for_each xs body)
for_each-ReadsOnly = for_each-Keeps (λ db. db)
