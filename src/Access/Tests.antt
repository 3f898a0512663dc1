-- ===== src/Access/Tests.antt =====
-- A company with a super admin and a clerk: what is refused, and the theorems at a sequence of
-- operations.
use openestate.Base.{
  ℕ, ◌≡◌, refl, arith, Bool, true, false, none, some, List, [], ◌∷◌, ok, err, forbidden, zero, suc,
  ◌+◌,
}
use openestate.Access.Rows.{Permission, Role, User, AccessRows, load_permission_keys}
use openestate.Access.Callers.{
  load_current_caller, is_super_admin_role, keys_of_role, assert_caller_active,
  assert_permission_subset, assert_actor_is_super_admin_if_target_is,
  assert_super_admin_not_emptied,
}
use openestate.Access.Roles.{role_created, create_role}
use openestate.Access.Managers.{assert_valid_manager, walk_up}
use openestate.Access.Users.{
  CreateUser, user_created, create_user, with_user, set_active, deactivate, reach_account,
  check_lockout, assert_role_fits_account, assert_role_in_reach,
}
use openestate.Access.Steps.{creates_role, creates_user, deactivates, Reaches, stay, step}
use openestate.Access.Guard.{Safe, Reaches-Safe}

abbrev permission : ℕ → Bool → Permission
permission id in_portal = record { id = id; key = 100 + id; in_portal = in_portal }

abbrev super_role : Role
super_role = record {
  id = 1;
  name = 1;
  slug = 0;
  is_system = true;
  is_portal = false;
  permission_ids = [];
}

abbrev clerk_role : Role
clerk_role = record super_role { id = 2; slug = 5; is_system = false; permission_ids = 1 ∷ [] }

abbrev admin_user : User
admin_user = record {
  id = 10;
  email = 1;
  role_id = 1;
  manager_id = none;
  is_active = true;
  is_portal_account = false;
  authz_version = 0;
}

abbrev clerk_user : User
clerk_user = record admin_user { id = 11; email = 2; role_id = 2; manager_id = some 10 }

abbrev company : AccessRows
company = record {
  next_id = 20;
  permissions = permission 1 false ∷ permission 2 false ∷ permission 3 true ∷ [];
  roles = super_role ∷ clerk_role ∷ [];
  users = admin_user ∷ clerk_user ∷ [];
}

-- The clerk holds one permission and may not give another.
clerk_refused : create_role 7 8 (1 ∷ 2 ∷ []) 11 company ≡ err forbidden
unfolding create_role load_current_caller keys_of_role is_super_admin_role assert_caller_active
    assert_permission_subset load_permission_keys
clerk_refused = refl

-- The only super admin is not deactivated.
last_admin_kept : deactivate 10 10 company ≡ err forbidden
unfolding deactivate reach_account check_lockout assert_super_admin_not_emptied load_current_caller
    keys_of_role is_super_admin_role assert_caller_active assert_role_in_reach
    assert_permission_subset assert_actor_is_super_admin_if_target_is load_permission_keys
last_admin_kept = refl

-- The super admin makes a role with two permissions and an account for it, and deactivates the
-- clerk.
abbrev with_role : AccessRows
with_role = role_created 7 8 (1 ∷ 2 ∷ []) company

abbrev seller : CreateUser
seller = record { email = 3; role_id = 20; manager_id = some 11 }

abbrev with_seller : AccessRows
with_seller = user_created seller with_role

abbrev clerk_off : AccessRows
clerk_off = with_user 11 (set_active false) with_seller

role_made : create_role 7 8 (1 ∷ 2 ∷ []) 10 company ≡ ok with_role
unfolding create_role load_current_caller keys_of_role is_super_admin_role assert_caller_active
    assert_permission_subset load_permission_keys
role_made = refl

seller_made : create_user seller 10 with_role ≡ ok with_seller
unfolding create_user load_current_caller keys_of_role is_super_admin_role assert_caller_active
    assert_valid_manager assert_role_fits_account assert_role_in_reach assert_permission_subset
    assert_actor_is_super_admin_if_target_is load_permission_keys
seller_made = refl

clerk_deactivated : deactivate 11 10 with_seller ≡ ok clerk_off
unfolding deactivate reach_account check_lockout load_current_caller keys_of_role
    is_super_admin_role assert_caller_active assert_role_in_reach assert_permission_subset
    assert_actor_is_super_admin_if_target_is load_permission_keys
clerk_deactivated = refl

three_steps : Reaches company clerk_off
three_steps =
    step 10 (creates_role 7 8 (1 ∷ 2 ∷ []) role_made)
      (step 10 (creates_user seller seller_made) (step 10 (deactivates 11 clerk_deactivated) stay))

company-Safe : Safe company
unfolding is_super_admin_role
company-Safe =
    (((omega arith, (omega arith, tt)), ((refl, tt), (tt, tt))), (super_role, refl, refl, refl))

Reaches-Safe_example : Safe clerk_off
Reaches-Safe_example = Reaches-Safe company clerk_off three_steps company-Safe

-- A line of 22 users, each the manager of the next: the first may be put under the last, which
-- closes a cycle that the walk of 20 hops does not see.
abbrev line : ℕ → List User
line zero = record admin_user { id = 0 } ∷ []
line (suc n) = record admin_user { id = suc n; manager_id = some n } ∷ line n

abbrev long_line : AccessRows
long_line = record company { users = line 21 }

cycle_missed : assert_valid_manager (some 0) (some 21) long_line ≡ ok tt
unfolding assert_valid_manager walk_up
cycle_missed = refl
