-- ===== src/Sessions/Logout.antt =====
-- A logout (apps/api/src/auth/token.service.ts): its tokens are refused from then on.
use openestate.Base.{
  ℕ, ◌<◌, ◌≡◌, refl, sym, ap, subst, arith, true, false, Option, none, some, ==_refl, find?-All,
  Bool-cases, Option-cases, inl, inr, All,
}
use openestate.Sessions.Rows.{
  RefreshToken, TokenRows, Duration, TokenService, has_hash, find_token, owner_of,
  find_session_user,
}
use openestate.Sessions.Rotation.{
  Rotated, in_family, in_grace, newest, live_token, reuse, rotate_locked, with_version,
  rotate_refresh_token, revoke_family,
}
use openestate.Sessions.Revoked.{found_update, revoked_family, none_live}
use openestate.Sessions.Ended.{Ended}
use openestate.Sessions.Steps.{TokenSteps, Ended-TokenSteps}

-- A token of a family that is shut is refused.
reuse_refused :
    (service : TokenService) (now : ℕ) (override : Option Duration) (existing : RefreshToken)
    (rows : TokenRows)
    → All (λ t. in_family existing.family t ≡ false) rows.tokens
    → (reuse service now override existing rows).0 ≡ none
unfolding reuse newest
reuse_refused service now override existing rows dead =
    let gone : live_token now existing.family rows ≡ none =
      ap (λ ts. newest ts none) (none_live now existing.family rows.tokens dead) in
    elim (Bool-cases (in_grace service now existing)) [
      | inr c ↦ rw (reuse, c) refl
      | inl c ↦ rw (reuse, c, gone) refl
    ]

with_version-none :
    (version : ℕ) (r : Option Rotated × TokenRows) → r.0 ≡ none → (with_version version r).0 ≡ none
with_version-none version (none, rows) h = refl
with_version-none version (some r, rows) h = cc

rotate_locked_refused :
    (service : TokenService) (now : ℕ) (override : Option Duration) (family hash : ℕ)
    (rows : TokenRows)
    → Ended family hash rows
    → (rotate_locked service now override hash rows).0 ≡ none
unfolding rotate_locked
rotate_locked_refused service now override family hash rows ((dead, (t, c, k)), _) =
    let (off, _) = find?-All (has_hash hash) (λ x. in_family family x ≡ false) rows.tokens dead c in
    let used : t.is_revoked ≡ true = ground (arith, off, k, ==_refl family) in
    rw (rotate_locked, c, used)
      (reuse_refused service now override t rows
        (subst (λ f. All (λ x. in_family f x ≡ false) rows.tokens) (sym k) dead))

rotate_refused :
    (service : TokenService) (now : ℕ) (override : Option Duration) (family raw : ℕ)
    (rows : TokenRows)
    → Ended family (service.hash_token raw) rows
    → (rotate_refresh_token service now override raw rows).0 ≡ none
unfolding rotate_refresh_token
rotate_refused service now override family raw rows ended =
    elim (Option-cases (owner_of (service.hash_token raw) rows)) [
      | inl c ↦ rw (rotate_refresh_token, c) refl
      | inr (owner, c) ↦ elim (Option-cases (find_session_user owner rows)) [
        | inl d ↦ rw (rotate_refresh_token, c, d) refl
        | inr (user, d) ↦ elim (Bool-cases user.is_active) [
          | inr e ↦ rw (rotate_refresh_token, c, d, e) refl
          | inl e ↦
              rw (rotate_refresh_token, c, d, e)
                (with_version-none user.authz_version
                  (rotate_locked service now override (service.hash_token raw) rows)
                  (rotate_locked_refused service now override family (service.hash_token raw) rows
                    ended))
        ]
      ]
    ]

Ended-logout :
    (service : TokenService) (now raw hash : ℕ) (rows : TokenRows) (t member : RefreshToken)
    → find_token (service.hash_token raw) rows ≡ some t
    → find_token hash rows ≡ some member
    → member.family ≡ t.family
    → t.family < rows.next_id
    → Ended t.family hash (revoke_family service now raw rows)
unfolding revoke_family
Ended-logout service now raw hash rows t member h m k low =
    rw (revoke_family, h)
      (
        (
          revoked_family now t.family rows.tokens,
          found_update (in_family t.family) now t.family hash rows.tokens member m k,
        ),
        low,
      )

-- After a logout (`revokeFamily` of a token that is found, whose family is below the id counter), no
-- token that was then in its family is ever accepted by `rotateRefreshToken` again: not within the
-- grace window, and not after any sequence of logins, rotations, logouts and ends of sessions.
pub logout_final :
    (service : TokenService) (logout_at raw member_raw : ℕ) (rows rows' : TokenRows)
    (t member : RefreshToken)
    → find_token (service.hash_token raw) rows ≡ some t
    → find_token (service.hash_token member_raw) rows ≡ some member
    → member.family ≡ t.family
    → t.family < rows.next_id
    → TokenSteps service (revoke_family service logout_at raw rows) rows'
    → (now : ℕ) (override : Option Duration)
    → (rotate_refresh_token service now override member_raw rows').0 ≡ none
logout_final service logout_at raw member_raw rows rows' t member h m k low steps now override =
    rotate_refused service now override t.family member_raw rows' (
      Ended-TokenSteps service t.family (service.hash_token member_raw) steps (
        Ended-logout service logout_at raw (service.hash_token member_raw) rows t member h m k low))
