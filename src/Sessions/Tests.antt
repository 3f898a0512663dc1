-- ===== src/Sessions/Tests.antt =====
-- A user who logs in, whose browser rotates twice with the same cookie, and who logs out.
use openestate.Base.{◌+◌, ◌≡◌, refl, arith, true, false, none, some, [], ◌∷◌}
use openestate.Sessions.Rows.{RefreshToken, TokenRows, days, TokenService}
use openestate.Sessions.Rotation.{
  create_refresh_token, rotate_row, newest, reuse, rotate_locked, rotate_refresh_token,
  revoke_family,
}
use openestate.Sessions.Steps.{TokenSteps, creates, rotates, no_more, next}
use openestate.Sessions.Logout.{logout_final}

abbrev week_service : TokenService
week_service = record {
  refresh_expires_in = some (7, days);
  reuse_grace_ms = 30_000;
  hash_token = λ raw. raw + 1000;
}

abbrev nobody_in : TokenRows
nobody_in = record {
  next_id = 50;
  users = record { id = 1; is_active = true; authz_version = 4 } ∷ [];
  tokens = [];
}

-- The raw token of the login is 50, its family 52.
abbrev first_token : RefreshToken
first_token = record {
  id = 51;
  user_id = 1;
  token_hash = 1050;
  family = 52;
  expires_at = 604_800_100;
  is_revoked = false;
  revoked_at = none;
  created_at = 100;
}

abbrev logged_in : TokenRows
logged_in = record nobody_in { next_id = 53; tokens = first_token ∷ [] }

login_test : create_refresh_token week_service 100 1 none none nobody_in ≡ logged_in
unfolding create_refresh_token
login_test = refl

-- The token 50 is used at 200 and, within the grace window, once more at 300.
abbrev rotated_once : TokenRows
rotated_once = record logged_in {
  next_id = 55;
  tokens =
      record first_token { is_revoked = true; revoked_at = some 200 }
      ∷ record first_token {
        id = 54;
        token_hash = 1053;
        expires_at = 604_800_200;
        created_at = 200;
      }
      ∷ [];
}

abbrev rotated_twice : TokenRows
rotated_twice = record logged_in {
  next_id = 57;
  tokens =
      record first_token { is_revoked = true; revoked_at = some 200 }
      ∷ record first_token {
        id = 54;
        token_hash = 1053;
        expires_at = 604_800_200;
        created_at = 200;
        is_revoked = true;
        revoked_at = some 300;
      }
      ∷ record first_token {
        id = 56;
        token_hash = 1055;
        expires_at = 604_800_300;
        created_at = 300;
      }
      ∷ [];
}

rotation_test :
    rotate_refresh_token week_service 200 none 50 logged_in
    ≡ (some (record { user_id = 1; new_raw = 53; expires_at = 604_800_200 }, 4), rotated_once)
unfolding rotate_refresh_token rotate_locked rotate_row
rotation_test = refl

grace_test :
    rotate_refresh_token week_service 300 none 50 rotated_once
    ≡ (some (record { user_id = 1; new_raw = 55; expires_at = 604_800_300 }, 4), rotated_twice)
unfolding rotate_refresh_token rotate_locked rotate_row reuse newest
grace_test = refl

-- After the window, the use of a consumed token revokes its family.
abbrev theft_seen : TokenRows
theft_seen = record logged_in {
  next_id = 55;
  tokens =
      record first_token { is_revoked = true; revoked_at = some 200 }
      ∷ record first_token {
        id = 54;
        token_hash = 1053;
        expires_at = 604_800_200;
        created_at = 200;
        is_revoked = true;
        revoked_at = some 30_201;
      }
      ∷ [];
}

theft_test : rotate_refresh_token week_service 30_201 none 50 rotated_once ≡ (none, theft_seen)
unfolding rotate_refresh_token rotate_locked rotate_row reuse newest
theft_test = refl

-- A logout with the token 53, then another login and an attempt with the token 50.
abbrev after_logout : TokenRows
after_logout = revoke_family week_service 250 53 rotated_once

abbrev later_rows : TokenRows
later_rows =
    (rotate_refresh_token week_service 260 none 50
      (create_refresh_token week_service 255 1 none none after_logout)).1

later_steps : TokenSteps week_service after_logout later_rows
later_steps = next (creates 255 1 none) (next (rotates 260 none 50) no_more)

logout_final_example : (rotate_refresh_token week_service 270 none 50 later_rows).0 ≡ none
logout_final_example =
    logout_final week_service 250 53 50 rotated_once later_rows
      (record first_token {
        id = 54;
        token_hash = 1053;
        expires_at = 604_800_200;
        created_at = 200;
      })
      (record first_token { is_revoked = true; revoked_at = some 200 }) refl refl refl (omega arith)
      later_steps 270 none
