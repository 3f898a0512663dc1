-- ===== src/Totp/Tests.antt =====
-- The theorems on the second factor's lockout at five wrong codes, a second apart.
use openestate.Base.{
  ℕ, ◌≤◌, ◌≡◌, refl, arith, none, some, List, [], ◌∷◌, length, ok, err, inl, too_many_requests,
}
use openestate.Totp.{TotpAttempts, totp_attempts_cleared, reserve_totp_attempt, reserve_all}
use openestate.Totp.Window.{WellFormed, tries_bounded, reserve-WellFormed}

abbrev five_times : List ℕ
five_times = 1000 ∷ 2000 ∷ 3000 ∷ 4000 ∷ 5000 ∷ []

abbrev locked_user : TotpAttempts
locked_user = record { failed_totp_attempts = 5; totp_locked_until = some 305_000 }

five_tries : reserve_all five_times totp_attempts_cleared ≡ ok locked_user
unfolding reserve_all reserve_totp_attempt
five_tries = refl

-- The sixth is refused, until the lock has run out.
sixth :
    (reserve_totp_attempt 6000 locked_user ≡ err too_many_requests)
    × (reserve_totp_attempt 305_000 locked_user
        ≡ ok (record { failed_totp_attempts = 1; totp_locked_until = none }))
unfolding reserve_totp_attempt
sixth = (refl, refl)

tries_bounded_example : length five_times ≤ 5
tries_bounded_example =
    tries_bounded 1000 five_times totp_attempts_cleared locked_user (omega arith)
      (
        (omega arith, omega arith),
        (
          (omega arith, omega arith),
          (
            (omega arith, omega arith),
            ((omega arith, omega arith), ((omega arith, omega arith), tt)),
          ),
        ),
      )
      five_tries

reserve-WellFormed_example :
    (next : TotpAttempts) × (reserve_totp_attempt 1000 totp_attempts_cleared ≡ ok next)
    × WellFormed next
reserve-WellFormed_example = reserve-WellFormed 1000 totp_attempts_cleared (inl refl)
