-- ===== src/Totp/Window.antt =====
-- apps/api/src/auth/totp-lockout.ts: how many codes can be tried within the time of a lockout.
use openestate.Base.{
  ℕ, ◌+◌, ◌≤◌, ◌<◌, ◌≡◌, refl, arith, true, false, Option, none, some, List, [], ◌∷◌, leb, ok, All,
  length, Bool-cases, ◌⊎◌, inl, inr,
}
use openestate.Totp.{
  TotpAttempts, max_failed_totp_attempts, lockout_ms, counted, reserve_totp_attempt, reserve_all,
}

-- The times of a window that is as long as the lockout.
abbrev pub InWindow : ℕ → ℕ → Type 0
InWindow start time = (start ≤ time) × (time < start + lockout_ms)

-- A user who is locked past the window.
locked_tries :
    (start attempts until : ℕ) (times : List ℕ) (last : TotpAttempts)
    → start + lockout_ms ≤ until
    → All (InWindow start) times
    → reserve_all times (record { failed_totp_attempts = attempts; totp_locked_until = some until })
      ≡ ok last
    → length times ≡ 0
unfolding reserve_all reserve_totp_attempt
locked_tries start attempts until [] last l h e = refl
locked_tries start attempts until (t ∷ times) last l ((_, below), h) e =
    let holds : leb until t ≡ false = ground (arith, l, below) in ground (arith, holds, e)

-- A user without a lock, of whom `attempts` are counted.
unlocked_tries :
    (start attempts : ℕ) (times : List ℕ) (last : TotpAttempts)
    → All (InWindow start) times
    → attempts < max_failed_totp_attempts
    → reserve_all times (record { failed_totp_attempts = attempts; totp_locked_until = none })
      ≡ ok last
    → attempts + length times ≤ max_failed_totp_attempts
unfolding reserve_all reserve_totp_attempt
unlocked_tries start attempts [] last h l e = omega (arith, l)
unlocked_tries start attempts (t ∷ times) last ((above, below), h) l e =
    elim (Bool-cases (leb max_failed_totp_attempts (attempts + 1))) [
      | inl c ↦
          let done : length times ≡ 0 =
            locked_tries start (attempts + 1) (t + lockout_ms) times last (omega (arith, above)) h
              (rw c at e) in
          omega (arith, done, l)
      | inr c ↦
          let more =
            unlocked_tries start (attempts + 1) times last h (ground (arith, c)) (rw c at e) in
          omega (arith, more)
    ]

-- The rows that the statement leaves: without a lock fewer than five attempts are counted.
abbrev pub WellCounted : ℕ → Option ℕ → Type 0
WellCounted attempts none = attempts < max_failed_totp_attempts
WellCounted attempts (some until) = Unit

abbrev pub WellFormed : TotpAttempts → Type 0
WellFormed user = WellCounted user.failed_totp_attempts user.totp_locked_until

tries_from :
    (start attempts : ℕ) (lock : Option ℕ) (times : List ℕ) (last : TotpAttempts)
    → WellCounted attempts lock
    → All (InWindow start) times
    → reserve_all times (record { failed_totp_attempts = attempts; totp_locked_until = lock })
      ≡ ok last
    → length times ≤ max_failed_totp_attempts
unfolding reserve_all reserve_totp_attempt
tries_from start attempts none times last w h e =
    let some_tries = unlocked_tries start attempts times last h w e in omega (arith, some_tries)
tries_from start attempts (some until) [] last w h e = omega arith
tries_from start attempts (some until) (t ∷ times) last w ((above, below), h) e =
    elim (Bool-cases (leb until t)) [
      | inl c ↦
          let more = unlocked_tries start 1 times last h (omega arith) (rw c at e) in
          omega (arith, more)
      | inr c ↦ ground (arith, c, e)
    ]

-- For a user whose row has a lock or counts fewer than five attempts, and times within a window
-- that is as long as the lockout: if attempts at these times that all fail are all admitted, they
-- are at most five.
pub tries_bounded :
    (start : ℕ) (times : List ℕ) (user last : TotpAttempts)
    → WellFormed user
    → All (InWindow start) times
    → reserve_all times user ≡ ok last
    → length times ≤ max_failed_totp_attempts
tries_bounded start times user last w h e =
    tries_from start user.failed_totp_attempts user.totp_locked_until times last w h e

counted-WellFormed : (now count : ℕ) → WellFormed (counted now count)
counted-WellFormed now count = elim (Bool-cases (leb max_failed_totp_attempts count)) [
  | inl c ↦ rw c tt
  | inr c ↦ rw c (ground (arith, c))
]

-- A user who is not locked, or whose lock has run out, is admitted, and the row that an attempt
-- leaves has a lock or counts fewer than five attempts.
pub reserve-WellFormed :
    (now : ℕ) (user : TotpAttempts)
    → (user.totp_locked_until ≡ none)
      ⊎ ((until : ℕ) × (user.totp_locked_until ≡ some until) × (until ≤ now))
    → (next : TotpAttempts) × (reserve_totp_attempt now user ≡ ok next) × WellFormed next
unfolding reserve_totp_attempt
reserve-WellFormed now user (inl e) =
    let count = user.failed_totp_attempts + 1 in
    (counted now count, rw e, counted-WellFormed now count)
reserve-WellFormed now user (inr (until, e, l)) =
    let over : leb until now ≡ true = ground (arith, l) in
    (counted now 1, rw (e, over), counted-WellFormed now 1)
