-- ===== src/Sessions/Ended.antt =====
-- The operations of apps/api/src/auth/token.service.ts keep a revoked family of tokens revoked.
use openestate.Base.{
  ℕ, ◌<◌, ◌≡◌, refl, sym, subst, arith, Bool, false, not, ◌&&◌, Option, none, some, ◌==◌, ltb,
  find?-All, select, update_where, Bool-cases, Option-cases, inl, inr, ok, bind_inv, or_throw,
  thrown,
}
use openestate.Sessions.Rows.{
  RefreshToken, TokenRows, Duration, TokenService, has_hash, find_token, owner_of,
  find_session_user, revoked,
}
use openestate.Sessions.Rotation.{
  create_refresh_token, Rotated, update_tokens, rotate_row, in_family, in_grace, is_live,
  live_token, reuse, rotate_locked, with_version, rotate_refresh_token, revoke_family, excepted,
  end_sessions, next_version,
}
use openestate.Sessions.Revoked.{Shut, Shut-update, Shut-issue, newest_All, live_apart}

-- The family is shut, and its number is not given out again.
abbrev pub Ended : ℕ → ℕ → TokenRows → Type 0
Ended family hash rows = Shut family hash rows.tokens × (family < rows.next_id)

module _ (service : TokenService) (family hash : ℕ) where
  pub Ended-update :
      (which : RefreshToken → Bool) (now : ℕ) (rows : TokenRows)
      → Ended family hash rows
      → Ended family hash (update_tokens which now rows)
  Ended-update which now rows (shut, low) =
      (Shut-update which now family hash rows.tokens shut, low)

  pub Ended-create_refresh_token :
      (now user_id : ℕ) (override : Option Duration) (rows : TokenRows)
      → Ended family hash rows
      → Ended family hash (create_refresh_token service now user_id none override rows)
  unfolding create_refresh_token
  Ended-create_refresh_token now user_id override rows (shut, low) =
      (Shut-issue family hash rows.tokens _ (ground (arith, low)) shut, omega arith)

  pub Ended-rotate_row :
      (now : ℕ) (override : Option Duration) (row : RefreshToken) (rows : TokenRows)
      → (row.family == family) ≡ false
      → Ended family hash rows
      → Ended family hash (rotate_row service now override row rows).1
  unfolding rotate_row
  Ended-rotate_row now override row rows apart (shut, low) = (
    Shut-issue family hash (update_where (λ t. t.id == row.id) (revoked now) rows.tokens) _ apart
        (Shut-update (λ t. t.id == row.id) now family hash rows.tokens shut),
    omega arith,
  )

  pub Ended-reuse :
      (now : ℕ) (override : Option Duration) (existing : RefreshToken) (rows : TokenRows)
      → Ended family hash rows
      → Ended family hash (reuse service now override existing rows).1
  unfolding reuse
  Ended-reuse now override existing rows ended =
      let refused = Ended-update (in_family existing.family) now rows ended in
      elim (Bool-cases (in_grace service now existing)) [
        | inr c ↦ rw (reuse, c) refused
        | inl c ↦ elim (Option-cases (live_token now existing.family rows)) [
          | inl d ↦ rw (reuse, c, d) refused
          | inr (live, d) ↦
              rw (reuse, c, d)
                (Ended-rotate_row now override live rows
                  (newest_All (λ t. (t.family == family) ≡ false)
                    (select (is_live now existing.family) rows.tokens) none live
                    (live_apart now family existing.family rows.tokens ended.0.0) (λ b i. cc) d)
                  ended)
        ]
      ]

  pub Ended-rotate_locked :
      (now : ℕ) (override : Option Duration) (h : ℕ) (rows : TokenRows)
      → Ended family hash rows
      → Ended family hash (rotate_locked service now override h rows).1
  unfolding rotate_locked
  Ended-rotate_locked now override h rows ended = elim (Option-cases (find_token h rows)) [
    | inl c ↦ rw (rotate_locked, c) ended
    | inr (existing, c) ↦ elim (Bool-cases existing.is_revoked) [
      | inl d ↦ rw (rotate_locked, c, d) (Ended-reuse now override existing rows ended)
      | inr d ↦ elim (Bool-cases (ltb existing.expires_at now)) [
        | inl e ↦
            rw (rotate_locked, c, d, e) (Ended-update (λ t. t.id == existing.id) now rows ended)
        | inr e ↦
            rw (rotate_locked, c, d, e)
              (let (off, _) =
                  find?-All (has_hash h) (λ t. in_family family t ≡ false) rows.tokens ended.0.0
                    c in
                Ended-rotate_row now override existing rows (ground (arith, off, d)) ended)
      ]
    ]
  ]

  with_version-rows :
      (version : ℕ) (r : Option Rotated × TokenRows) → (with_version version r).1 ≡ r.1
  with_version-rows version (none, rows) = refl
  with_version-rows version (some r, rows) = refl

  pub Ended-rotate_refresh_token :
      (now : ℕ) (override : Option Duration) (raw : ℕ) (rows : TokenRows)
      → Ended family hash rows
      → Ended family hash (rotate_refresh_token service now override raw rows).1
  unfolding rotate_refresh_token
  Ended-rotate_refresh_token now override raw rows ended =
      elim (Option-cases (owner_of (service.hash_token raw) rows)) [
        | inl c ↦ rw (rotate_refresh_token, c) ended
        | inr (owner, c) ↦ elim (Option-cases (find_session_user owner rows)) [
          | inl d ↦ rw (rotate_refresh_token, c, d) ended
          | inr (user, d) ↦ elim (Bool-cases user.is_active) [
            | inr e ↦ rw (rotate_refresh_token, c, d, e) ended
            | inl e ↦
                rw (rotate_refresh_token, c, d, e)
                  (subst (Ended family hash)
                    (sym (
                      with_version-rows user.authz_version
                        (rotate_locked service now override (service.hash_token raw) rows)))
                    (Ended-rotate_locked now override (service.hash_token raw) rows ended))
          ]
        ]
      ]

  pub Ended-revoke_family :
      (now raw : ℕ) (rows : TokenRows)
      → Ended family hash rows
      → Ended family hash (revoke_family service now raw rows)
  unfolding revoke_family
  Ended-revoke_family now raw rows ended =
      elim (Option-cases (find_token (service.hash_token raw) rows)) [
        | inl c ↦ rw (revoke_family, c) ended
        | inr (t, c) ↦ rw (revoke_family, c) (Ended-update (in_family t.family) now rows ended)
      ]

  pub Ended-end_sessions :
      (now user_id : ℕ) (except : Option ℕ) (version : ℕ) (rows rows' : TokenRows)
      → end_sessions service now user_id except rows ≡ ok (version, rows')
      → Ended family hash rows
      → Ended family hash rows'
  unfolding end_sessions
  Ended-end_sessions now user_id except version rows rows' h ended =
      let (user, _, h1) =
        bind_inv (or_throw (find_session_user user_id rows) thrown) _ (version, rows') h in
      let which : RefreshToken → Bool =
        λ t. t.user_id == user_id && not t.is_revoked && not (excepted service except rows t) in
      let bumped : TokenRows = record rows {
        users = update_where (λ u. u.id == user_id) next_version rows.users;
      } in
      let same : update_tokens which now bumped ≡ rows' = cc in
      subst (Ended family hash) same (Ended-update which now bumped ended)
