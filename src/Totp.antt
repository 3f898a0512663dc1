-- ===== src/Totp.antt =====
-- apps/api/src/auth/totp-lockout.ts: the lockout of the second factor. An attempt is reserved before
-- its code is checked, in one statement on the user's row.
pub mod Window
mod Tests
use openestate.Base.{
  ℕ, ◌+◌, ◌*◌, Bool, Option, none, some, List, [], ◌∷◌, leb, if◌then◌else◌, Result, ok, err,
  too_many_requests, ◌>>=◌,
}

abbrev pub max_failed_totp_attempts : ℕ
max_failed_totp_attempts = 5

abbrev pub totp_lockout_minutes : ℕ
totp_lockout_minutes = 5

-- The lockout, in milliseconds.
abbrev pub lockout_ms : ℕ
lockout_ms = totp_lockout_minutes * 60_000

-- The columns of a user's row that the lockout reads and writes.
pub record TotpAttempts : Type 0 where
  pub failed_totp_attempts : ℕ
  pub totp_locked_until : Option ℕ

-- `TOTP_ATTEMPTS_CLEARED`
abbrev pub totp_attempts_cleared : TotpAttempts
totp_attempts_cleared = record { failed_totp_attempts = 0; totp_locked_until = none }

-- The row after an attempt that is counted as the `count`th.
abbrev pub counted : ℕ → ℕ → TotpAttempts
counted now count = record {
  failed_totp_attempts = count;
  totp_locked_until = if leb max_failed_totp_attempts count then some (now + lockout_ms) else none;
}

abbrev reserve_by : ℕ → ℕ → Option ℕ → Result TotpAttempts
reserve_by now attempts none = ok (counted now (attempts + 1))
reserve_by now attempts (some until) =
    if leb until now then ok (counted now 1) else err too_many_requests

-- The statement: no row is updated while the lock holds, and the caller then throws 429.
pub reserve_totp_attempt : ℕ → TotpAttempts → Result TotpAttempts
reserve_totp_attempt now user = reserve_by now user.failed_totp_attempts user.totp_locked_until

-- Attempts at several times, each of them failing.
pub reserve_all : List ℕ → TotpAttempts → Result TotpAttempts
unfolding reserve_totp_attempt
reserve_all [] user = ok user
reserve_all (now ∷ times) user = reserve_totp_attempt now user >>= reserve_all times
