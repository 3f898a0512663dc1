-- ===== src/Sessions/Rotation.antt =====
-- The operations of apps/api/src/auth/token.service.ts. Each write of a user's tokens runs under that
-- user's lock, so an operation is one step here.
use openestate.Base.{
  ℕ, suc, ◌+◌, Bool, true, false, not, ◌&&◌, Option, none, some, List, [], ◌∷◌, ◌++◌, ◌==◌, ltb,
  leb, select, update_where, if◌then◌else◌, Result, ok, thrown, ◌>>=◌, or_throw,
}
use openestate.Sessions.Rows.{
  RefreshToken, SessionUser, TokenRows, Duration, compute_expiry, TokenService, expires_in,
  find_token, owner_of, find_session_user, revoked, new_token,
}

-- The raw token and the id of its row are fresh, and so is a family that none is given for.
unfoldable pub create_refresh_token :
    TokenService → ℕ → ℕ → Option ℕ → Option Duration → TokenRows → TokenRows
create_refresh_token service now user_id family override rows = record rows {
  next_id = suc (suc (suc rows.next_id));
  tokens =
      rows.tokens
      ++ new_token (suc rows.next_id) user_id (service.hash_token rows.next_id)
          (elim family [ none ↦ suc (suc rows.next_id) | some f ↦ f ])
          (compute_expiry now (expires_in service override)) now
        ∷ [];
}

-- What a rotation returns.
pub record Rotated : Type 0 where
  pub user_id : ℕ
  pub new_raw : ℕ
  pub expires_at : ℕ

abbrev pub update_tokens : (RefreshToken → Bool) → ℕ → TokenRows → TokenRows
update_tokens which now rows = record rows { tokens = update_where which (revoked now) rows.tokens }

unfoldable pub rotate_row :
    TokenService → ℕ → Option Duration → RefreshToken → TokenRows → Rotated × TokenRows
rotate_row service now override row rows =
    let used = update_tokens (λ t. t.id == row.id) now rows in
    let expires_at = compute_expiry now (expires_in service override) in
    (
      record { user_id = row.user_id; new_raw = rows.next_id; expires_at = expires_at },
      record used {
        next_id = suc (suc rows.next_id);
        tokens =
            used.tokens
            ++ new_token (suc rows.next_id) row.user_id (service.hash_token rows.next_id) row.family
                expires_at now
              ∷ [];
      },
    )

-- `revokeFamilyById`
abbrev pub in_family : ℕ → RefreshToken → Bool
in_family family t = t.family == family && not t.is_revoked

abbrev pub revoke_family_by_id : ℕ → ℕ → TokenRows → TokenRows
revoke_family_by_id now family rows = update_tokens (in_family family) now rows

-- `revokedAgoMs <= this.reuseGraceMs`; without a time of revocation it is infinite.
abbrev pub in_grace : TokenService → ℕ → RefreshToken → Bool
in_grace service now t = elim t.revoked_at [
  | none ↦ false
  | some at_ms ↦ leb now (at_ms + service.reuse_grace_ms)
]

abbrev pub is_live : ℕ → ℕ → RefreshToken → Bool
is_live now family t = in_family family t && ltb now t.expires_at

-- `orderBy: { createdAt: 'desc' }`: the latest of the rows, the first of equals.
unfoldable pub newest : List RefreshToken → Option RefreshToken → Option RefreshToken
newest [] best = best
newest (t ∷ rest) none = newest rest (some t)
newest (t ∷ rest) (some b) = newest rest (some (if ltb b.created_at t.created_at then t else b))

abbrev pub live_token : ℕ → ℕ → TokenRows → Option RefreshToken
unfolding newest
live_token now family rows = newest (select (is_live now family) rows.tokens) none

abbrev pub rotated : Rotated × TokenRows → Option Rotated × TokenRows
rotated (r, rows) = (some r, rows)

-- A token that is consumed already: within the grace window the live token of its family is rotated,
-- otherwise the family is revoked.
unfoldable pub reuse :
    TokenService → ℕ → Option Duration → RefreshToken → TokenRows → Option Rotated × TokenRows
unfolding newest rotate_row
reuse service now override existing rows =
    let refused : Option Rotated × TokenRows =
      (none, revoke_family_by_id now existing.family rows) in
    elim (in_grace service now existing) [
      | false ↦ refused
      | true ↦ elim (live_token now existing.family rows) [
        | none ↦ refused
        | some live ↦ rotated (rotate_row service now override live rows)
      ]
    ]

unfoldable pub rotate_locked :
    TokenService → ℕ → Option Duration → ℕ → TokenRows → Option Rotated × TokenRows
unfolding reuse rotate_row
rotate_locked service now override hash rows = elim (find_token hash rows) [
  | none ↦ (none, rows)
  | some existing ↦ elim existing.is_revoked [
    | true ↦ reuse service now override existing rows
    | false ↦ elim (ltb existing.expires_at now) [
      | true ↦ (none, update_tokens (λ t. t.id == existing.id) now rows)
      | false ↦ rotated (rotate_row service now override existing rows)
    ]
  ]
]

-- `rotateRefreshToken`: `null` for a token that nobody owns or whose owner is not active. The result
-- carries the authorisation version of the owner.
abbrev pub with_version : ℕ → Option Rotated × TokenRows → Option (Rotated × ℕ) × TokenRows
with_version version (none, rows) = (none, rows)
with_version version (some r, rows) = (some (r, version), rows)

unfoldable pub rotate_refresh_token :
    TokenService → ℕ → Option Duration → ℕ → TokenRows → Option (Rotated × ℕ) × TokenRows
unfolding rotate_locked
rotate_refresh_token service now override raw rows = elim (owner_of (service.hash_token raw) rows) [
  | none ↦ (none, rows)
  | some owner ↦ elim (find_session_user owner rows) [
    | none ↦ (none, rows)
    | some user ↦ elim user.is_active [
      | false ↦ (none, rows)
      | true ↦
          with_version user.authz_version
            (rotate_locked service now override (service.hash_token raw) rows)
    ]
  ]
]

unfoldable pub revoke_family : TokenService → ℕ → ℕ → TokenRows → TokenRows
revoke_family service now raw rows = elim (find_token (service.hash_token raw) rows) [
  | none ↦ rows
  | some existing ↦ revoke_family_by_id now existing.family rows
]

unfoldable pub revoke_all_for_user : ℕ → ℕ → TokenRows → TokenRows
revoke_all_for_user now user_id rows =
    update_tokens (λ t. t.user_id == user_id && not t.is_revoked) now rows

-- `family: { not: current.family }`, where the exception is a token that is found.
abbrev pub excepted : TokenService → Option ℕ → TokenRows → RefreshToken → Bool
excepted service none rows t = false
excepted service (some raw) rows t = elim (find_token (service.hash_token raw) rows) [
  | none ↦ false
  | some current ↦ t.family == current.family
]

abbrev pub next_version : SessionUser → SessionUser
next_version u = record u { authz_version = suc u.authz_version }

-- `endSessions` returns the new authorisation version.
unfoldable pub end_sessions : TokenService → ℕ → ℕ → Option ℕ → TokenRows → Result (ℕ × TokenRows)
end_sessions service now user_id except rows = do
  user ← or_throw (find_session_user user_id rows) thrown
  ok (
    suc user.authz_version,
    update_tokens
        (λ t. t.user_id == user_id && not t.is_revoked && not (excepted service except rows t)) now
        (record rows { users = update_where (λ u. u.id == user_id) next_version rows.users }),
  )
