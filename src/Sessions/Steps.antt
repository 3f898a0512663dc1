-- ===== src/Sessions/Steps.antt =====
-- Sequences of the operations of apps/api/src/auth/token.service.ts.
use openestate.Base.{ℕ, ◌≡◌, not, ◌&&◌, Option, none, ◌==◌, ok}
use openestate.Sessions.Rows.{TokenRows, Duration, TokenService}
use openestate.Sessions.Rotation.{
  create_refresh_token, rotate_refresh_token, revoke_family, revoke_all_for_user, end_sessions,
}
use openestate.Sessions.Ended.{
  Ended, Ended-create_refresh_token, Ended-end_sessions, Ended-revoke_family,
  Ended-rotate_refresh_token, Ended-update,
}

-- One operation.
pub data TokenStep (service : TokenService) : TokenRows → TokenRows → Type 0 where
  creates :
      {rows : TokenRows} (now user_id : ℕ) (override : Option Duration)
      → TokenStep service rows (create_refresh_token service now user_id none override rows)
  rotates :
      {rows : TokenRows} (now : ℕ) (override : Option Duration) (raw : ℕ)
      → TokenStep service rows (rotate_refresh_token service now override raw rows).1
  revokes :
      {rows : TokenRows} (now raw : ℕ) → TokenStep service rows (revoke_family service now raw rows)
  revokes_all :
      {rows : TokenRows} (now user_id : ℕ)
      → TokenStep service rows (revoke_all_for_user now user_id rows)
  ends :
      {rows rows' : TokenRows} (now user_id : ℕ) (except : Option ℕ) (version : ℕ)
      → end_sessions service now user_id except rows ≡ ok (version, rows')
      → TokenStep service rows rows'

pub data TokenSteps (service : TokenService) : TokenRows → TokenRows → Type 0 where
  no_more : {rows : TokenRows} → TokenSteps service rows rows
  next :
      {rows mid rows' : TokenRows}
      → TokenStep service rows mid
      → TokenSteps service mid rows'
      → TokenSteps service rows rows'

Ended-TokenStep :
    (service : TokenService) (family hash : ℕ) {rows rows' : TokenRows}
    → TokenStep service rows rows'
    → Ended family hash rows
    → Ended family hash rows'
unfolding revoke_all_for_user
Ended-TokenStep service family hash {rows} (creates now user_id override) ended =
    Ended-create_refresh_token service family hash now user_id override rows ended
Ended-TokenStep service family hash {rows} (rotates now override raw) ended =
    Ended-rotate_refresh_token service family hash now override raw rows ended
Ended-TokenStep service family hash {rows} (revokes now raw) ended =
    Ended-revoke_family service family hash now raw rows ended
Ended-TokenStep service family hash {rows} (revokes_all now user_id) ended =
    Ended-update service family hash (λ t. t.user_id == user_id && not t.is_revoked) now rows ended
Ended-TokenStep service family hash {rows} {rows'} (ends now user_id except version h) ended =
    Ended-end_sessions service family hash now user_id except version rows rows' h ended

pub Ended-TokenSteps :
    (service : TokenService) (family hash : ℕ) {rows rows' : TokenRows}
    → TokenSteps service rows rows'
    → Ended family hash rows
    → Ended family hash rows'
Ended-TokenSteps service family hash no_more ended = ended
Ended-TokenSteps service family hash (next s more) ended =
    Ended-TokenSteps service family hash more (Ended-TokenStep service family hash s ended)
