-- ===== src/Sessions/Rows.antt =====
-- The tables of apps/api/src/auth/token.service.ts, and the expiry of a token. A raw token, an id and
-- a hash are natural numbers.
use openestate.Base.{ℕ, ◌+◌, ◌*◌, Bool, true, false, Option, none, some, List, ◌==◌, find?}

pub record RefreshToken : Type 0 where
  pub id : ℕ
  pub user_id : ℕ
  pub token_hash : ℕ
  pub family : ℕ
  pub expires_at : ℕ
  pub is_revoked : Bool
  pub revoked_at : Option ℕ
  pub created_at : ℕ

pub record SessionUser : Type 0 where
  pub id : ℕ
  pub is_active : Bool
  pub authz_version : ℕ

pub record TokenRows : Type 0 where
  pub next_id : ℕ
  pub users : List SessionUser
  pub tokens : List RefreshToken

-- The unit letter of a duration such as `7d`.
pub data DurationUnit : Type 0 where
  seconds minutes hours days : DurationUnit

-- What the pattern matches of a duration, if anything.
abbrev pub Duration : Type 0
Duration = Option (ℕ × DurationUnit)

abbrev pub multiplier : DurationUnit → ℕ
multiplier seconds = 1000
multiplier minutes = 60 * 1000
multiplier hours = 60 * 60 * 1000
multiplier days = 24 * 60 * 60 * 1000

-- `computeExpiry`
abbrev pub compute_expiry : ℕ → Duration → ℕ
compute_expiry now none = now + 7 * 24 * 60 * 60 * 1000
compute_expiry now (some (value, unit)) = now + value * multiplier unit

-- The fields of the class; `hash_token` stands for `hashToken`, whose SHA-256 is the runtime's.
pub record TokenService : Type 0 where
  pub refresh_expires_in : Duration
  pub reuse_grace_ms : ℕ
  pub hash_token : ℕ → ℕ

-- `expiresInOverride ?? this.refreshExpiresIn`
abbrev pub expires_in : TokenService → Option Duration → Duration
expires_in service none = service.refresh_expires_in
expires_in service (some d) = d

abbrev pub has_hash : ℕ → RefreshToken → Bool
has_hash hash t = t.token_hash == hash

abbrev pub find_token : ℕ → TokenRows → Option RefreshToken
find_token hash rows = find? (has_hash hash) rows.tokens

abbrev pub owner_of : ℕ → TokenRows → Option ℕ
owner_of hash rows = elim (find_token hash rows) [ none ↦ none | some t ↦ some t.user_id ]

abbrev pub find_session_user : ℕ → TokenRows → Option SessionUser
find_session_user user_id rows = find? (λ u. u.id == user_id) rows.users

-- `{ isRevoked: true, revokedAt: new Date() }`
abbrev pub revoked : ℕ → RefreshToken → RefreshToken
revoked now t = record t { is_revoked = true; revoked_at = some now }

-- The row that `createRefreshToken` and `rotateRow` create.
abbrev pub new_token : ℕ → ℕ → ℕ → ℕ → ℕ → ℕ → RefreshToken
new_token id user_id hash family expires_at now = record {
  id = id;
  user_id = user_id;
  token_hash = hash;
  family = family;
  expires_at = expires_at;
  is_revoked = false;
  revoked_at = none;
  created_at = now;
}
