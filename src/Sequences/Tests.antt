-- ===== src/Sequences/Tests.antt =====
-- Financial years, and the counters of documents (number-sequence.service.ts, finance.ts).
use openestate.Base.{ℕ, ◌+◌, ◌≡◌, refl, ok, ◌&&◌, ◌==◌, if◌then◌else◌}
use openestate.Database.{receipt_kind, SequenceKind, Db}
use openestate.Dates.{utc_month, utc_full_year, financial_year_label}
use openestate.Samples.{booked_db}
use openestate.Sequences.{allocate, same_kind}
use openestate.Sequences.Gapless.{next_number, allocate_gapless}

-- 14 November 2023.
calendar : (utc_month 1_700_000_000_000 ≡ 11) × (utc_full_year 1_700_000_000_000 ≡ 2023)
unfolding utc_month utc_full_year
calendar = (refl, refl)

-- 29 February 2024 falls in 2023-24, and 1 April 2024 in 2024-25.
years :
    (financial_year_label 1_709_164_800_000 4 ≡ 2023)
    × (financial_year_label 1_711_929_600_000 4 ≡ 2024)
unfolding financial_year_label
years = (refl, refl)

allocate_gapless_example :
    (db' : Db) × (allocate receipt_kind 2023 booked_db ≡ ok (1, db'))
    × ((j : SequenceKind) (b : ℕ)
        → next_number j b db'.sequences
          ≡ 1 + (if same_kind receipt_kind j && 2023 == b then 1 else 0))
allocate_gapless_example = allocate_gapless receipt_kind 2023 booked_db
