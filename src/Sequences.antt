-- ===== src/Sequences.antt =====
-- apps/api/src/postsales/number-sequence.service.ts: the gap-free counter of each kind of
-- document and each financial year.
pub mod Gapless
mod Tests
use openestate.Base.{
  ℕ, suc, ◌-◌, ◌+◌, Bool, true, false, ◌&&◌, Option, none, some, List, [], ◌∷◌, ◌++◌, ◌==◌,
  if◌then◌else◌, find?, update_where, any,
}
use openestate.Database.{
  SequenceKind, receipt_kind, booking_kind, NumberSequence, Db, Tx, pure, gets, modify, ◌>>=◌, ◌>>◌,
}
use openestate.Dates.{financial_year_label}

abbrev pub same_kind : SequenceKind → SequenceKind → Bool
same_kind receipt_kind receipt_kind = true
same_kind booking_kind booking_kind = true
same_kind _ _ = false

-- The key of the unique index, `(kind, scope_label)`.
abbrev pub has_key : SequenceKind → ℕ → NumberSequence → Bool
has_key kind scope s = same_kind kind s.kind && s.scope_label == scope

abbrev pub upsert : SequenceKind → ℕ → List NumberSequence → List NumberSequence
upsert kind scope sequences =
    if any (has_key kind scope) sequences
    then update_where (has_key kind scope) (λ s. record s { next_value = s.next_value + 1 })
        sequences
    else sequences ++ record { kind = kind; scope_label = scope; next_value = 2 } ∷ []

-- `RETURNING (next_value - 1)`
abbrev pub returned : Option NumberSequence → ℕ
returned none = 0
returned (some s) = s.next_value - 1

-- `INSERT … ON CONFLICT DO UPDATE SET next_value = next_value + 1 RETURNING next_value - 1`
unfoldable pub allocate : SequenceKind → ℕ → Tx ℕ
allocate kind scope = do
  modify (λ db. record db { sequences = upsert kind scope db.sequences })
  gets (λ db. returned (find? (has_key kind scope) db.sequences))

pub record FyNumber : Type 0 where
  pub seq : ℕ
  pub fy_label : ℕ

unfoldable pub allocate_for_fy : SequenceKind → ℕ → ℕ → Tx FyNumber
unfolding allocate financial_year_label
allocate_for_fy kind date fy_start_month = do
  let label = financial_year_label date fy_start_month
  seq ← allocate kind label
  pure (record { seq = seq; fy_label = label })
