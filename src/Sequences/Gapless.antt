-- ===== src/Sequences/Gapless.antt =====
-- Numbers of one kind and year follow one another without a gap, and no other counter moves
-- (apps/api/src/postsales/number-sequence.service.ts).
use openestate.Base.{
  ℕ, ◌+◌, ◌≡◌, refl, arith, true, false, ◌&&◌, Option, none, some, List, ◌==◌, ==_refl, find?, any,
  ok, Bool-cases, inl, inr, ◌∙◌, ap, any-true, any-false, if◌then◌else◌, find?-new, find?-none,
  find?-update_where, find?-update_disjoint, find?-append_other,
}
use openestate.Database.{SequenceKind, receipt_kind, booking_kind, NumberSequence, Db}
use openestate.Sequences.{same_kind, has_key, upsert, returned, allocate}

abbrev counter_of : Option NumberSequence → ℕ
counter_of none = 1
counter_of (some s) = s.next_value

-- The number that the next allocation gives out: 1 where there is no counter yet.
abbrev pub next_number : SequenceKind → ℕ → List NumberSequence → ℕ
next_number kind scope rows = counter_of (find? (has_key kind scope) rows)

abbrev bumped : NumberSequence → NumberSequence
bumped s = record s { next_value = s.next_value + 1 }

abbrev started : SequenceKind → ℕ → NumberSequence
started kind scope = record { kind = kind; scope_label = scope; next_value = 2 }

key_refl : (kind : SequenceKind) (scope : ℕ) → has_key kind scope (started kind scope) ≡ true
key_refl receipt_kind scope = ==_refl scope
key_refl booking_kind scope = ==_refl scope

-- The counter's row after the upsert: one above the number to give out.
upsert-row :
    (kind : SequenceKind) (scope : ℕ) (rows : List NumberSequence)
    → (s : NumberSequence) × (find? (has_key kind scope) (upsert kind scope rows) ≡ some s)
      × (s.next_value ≡ next_number kind scope rows + 1)
upsert-row kind scope rows = elim (Bool-cases (any (has_key kind scope) rows)) [
  | inl e ↦
      let (s, found) = any-true (has_key kind scope) rows e in
      (
        bumped s,
        rw e (find?-update_where (has_key kind scope) bumped (λ x. refl) rows found),
        rw found,
      )
  | inr e ↦
      let missing = any-false (has_key kind scope) rows e in
      (
        started kind scope,
        rw e (
            find?-new (has_key kind scope) rows (started kind scope) missing (key_refl kind scope)),
        rw (find?-none (has_key kind scope) rows missing),
      )
]

-- A row has one key.
keys_apart :
    (k j : SequenceKind) (a b : ℕ) (s : NumberSequence)
    → (same_kind k j && a == b) ≡ false
    → has_key k a s ≡ true
    → has_key j b s ≡ false
keys_apart k j a b s h e = ground arith

find?-upsert_other :
    (k j : SequenceKind) (a b : ℕ) (rows : List NumberSequence)
    → (same_kind k j && a == b) ≡ false
    → find? (has_key j b) (upsert k a rows) ≡ find? (has_key j b) rows
find?-upsert_other k j a b rows h = elim (Bool-cases (any (has_key k a) rows)) [
  | inl e ↦ rw e (
      find?-update_disjoint (has_key j b) (has_key k a) bumped
        (λ s c. (keys_apart k j a b s h c, keys_apart k j a b s h c)) rows)
  | inr e ↦ rw e (
      find?-append_other (has_key j b) rows (started k a)
        (keys_apart k j a b (started k a) h (key_refl k a)))
]

same_kind_eq : (k j : SequenceKind) → same_kind k j ≡ true → k ≡ j
same_kind_eq receipt_kind receipt_kind h = refl
same_kind_eq receipt_kind booking_kind h = ground arith
same_kind_eq booking_kind receipt_kind h = ground arith
same_kind_eq booking_kind booking_kind h = refl

-- The counter itself, under any spelling of its key.
next_number-upsert :
    (k j : SequenceKind) (a b : ℕ) (rows : List NumberSequence)
    → (same_kind k j && a == b) ≡ true
    → next_number j b (upsert k a rows) ≡ next_number j b rows + 1
next_number-upsert k j a b rows h =
    let kinds : k ≡ j = same_kind_eq k j (ground arith) in
    let scopes : a ≡ b = ground arith in
    let (s, found, e) = upsert-row k a rows in rw (← kinds, ← scopes) (ap counter_of found ∙ e)

-- `allocate` returns the next number of its counter, and moves that counter by one; every other
-- counter stays.
pub allocate_gapless :
    (kind : SequenceKind) (scope : ℕ) (db : Db)
    → (db' : Db) × (allocate kind scope db ≡ ok (next_number kind scope db.sequences, db'))
      × ((j : SequenceKind) (b : ℕ)
          → next_number j b db'.sequences
            ≡ next_number j b db.sequences + (if same_kind kind j && scope == b then 1 else 0))
unfolding allocate
allocate_gapless kind scope db =
    let (s, found, e) = upsert-row kind scope db.sequences in
    (
      record db { sequences = upsert kind scope db.sequences },
      ap (λ (n : ℕ). ok (n, record db { sequences = upsert kind scope db.sequences }))
          (ap returned found ∙ omega (arith, e)),
      λ j b. elim (Bool-cases (same_kind kind j && scope == b)) [
        | inl h ↦ rw h (next_number-upsert kind j scope b db.sequences h)
        | inr h ↦
            rw h (ap counter_of (find?-upsert_other kind j scope b db.sequences h) ∙ omega arith)
      ],
    )
