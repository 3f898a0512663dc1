-- ===== src/Access/Users.antt =====
-- apps/api/src/users/users.service.ts: accounts are created, edited, deactivated and reactivated.
-- The password's hash, and the reset links that a deactivation consumes, are left out; the end of
-- a user's sessions is the step of `authz_version`.
use openestate.Base.{
  ℕ, suc, Bool, true, false, not, ◌&&◌, Option, none, some, [], ◌∷◌, ◌++◌, ◌==◌, any, update_where,
  if◌then◌else◌, Result, ok, not_found, bad_request, ◌>>=◌, or_throw, throw_if,
}
use openestate.Access.Rows.{Role, User, AccessRows, find_role, find_user, load_permission_keys}
use openestate.Access.Callers.{
  CallerContext, is_super_admin_role, load_current_caller, assert_caller_active,
  assert_permission_subset, assert_actor_is_super_admin_if_target_is,
  assert_super_admin_not_emptied,
}
use openestate.Access.Managers.{assert_valid_manager}

-- A portal account has a portal role, and a staff account a staff role.
unfoldable pub assert_role_fits_account : ℕ → Bool → AccessRows → Result (Unit {0})
assert_role_fits_account role_id is_portal_account rows = do
  role ← or_throw (find_role role_id rows) bad_request
  _ ← throw_if (is_portal_account && not role.is_portal) bad_request
  throw_if (not is_portal_account && role.is_portal) bad_request

-- The two checks on a role that an action touches or grants.
unfoldable pub assert_role_in_reach : CallerContext → Role → AccessRows → Result (Unit {0})
unfolding assert_actor_is_super_admin_if_target_is assert_permission_subset load_permission_keys
assert_role_in_reach caller role rows = do
  _ ← assert_actor_is_super_admin_if_target_is caller role
  assert_permission_subset caller.permission_keys (load_permission_keys role.permission_ids rows)

-- `CreateUserDto`, and `undefined` and NULL for no manager.
pub record CreateUser : Type 0 where
  pub email : ℕ
  pub role_id : ℕ
  pub manager_id : Option ℕ

abbrev pub new_user : ℕ → CreateUser → User
new_user id dto = record {
  id = id;
  email = dto.email;
  role_id = dto.role_id;
  manager_id = dto.manager_id;
  is_active = true;
  is_portal_account = false;
  authz_version = 0;
}

abbrev pub user_created : CreateUser → AccessRows → AccessRows
user_created dto rows = record rows {
  next_id = suc rows.next_id;
  users = rows.users ++ new_user rows.next_id dto ∷ [];
}

unfoldable pub create_user : CreateUser → ℕ → AccessRows → Result AccessRows
unfolding load_current_caller assert_caller_active assert_valid_manager assert_role_fits_account
    assert_role_in_reach
create_user dto caller_id rows = do
  caller ← load_current_caller caller_id rows
  _ ← assert_caller_active caller
  _ ← throw_if (any (λ u. u.email == dto.email) rows.users) bad_request
  _ ← assert_valid_manager none dto.manager_id rows
  _ ← assert_role_fits_account dto.role_id false rows
  role ← or_throw (find_role dto.role_id rows) bad_request
  _ ← assert_role_in_reach caller role rows
  ok (user_created dto rows)

-- `UpdateUserDto`: the role, and the manager that is set or cleared.
pub record UpdateUser : Type 0 where
  pub role_id : Option ℕ
  pub manager_id : Option (Option ℕ)

-- `if (dto.managerId !== undefined)`
abbrev pub check_manager : ℕ → UpdateUser → AccessRows → Result (Unit {0})
check_manager user_id dto rows = elim dto.manager_id [
  | none ↦ ok tt
  | some manager ↦ assert_valid_manager (some user_id) manager rows
]

abbrev pub is_given : Option ℕ → Bool
is_given none = false
is_given (some x) = true

-- `dto.roleId !== undefined && dto.roleId !== user.role.id`
abbrev pub moves_role : UpdateUser → User → Bool
moves_role dto user = elim dto.role_id [ none ↦ false | some r ↦ not (r == user.role_id) ]

-- `if (lockoutCheckNeeded)`
unfoldable pub check_lockout : Bool → ℕ → AccessRows → Result (Unit {0})
unfolding assert_super_admin_not_emptied
check_lockout needed user_id rows =
    if needed then assert_super_admin_not_emptied user_id rows else ok tt

-- `if (dto.roleId !== undefined)`
unfoldable pub check_new_role :
    CallerContext → User → Role → UpdateUser → AccessRows → Result (Unit {0})
unfolding assert_role_fits_account assert_role_in_reach is_super_admin_role check_lockout
check_new_role caller user current_role dto rows = elim dto.role_id [
  | none ↦ ok tt
  | some role_id ↦ do
    _ ← assert_role_fits_account role_id user.is_portal_account rows
    role ← or_throw (find_role role_id rows) bad_request
    _ ← assert_role_in_reach caller role rows
    check_lockout (is_super_admin_role current_role && moves_role dto user) user.id rows
]

abbrev pub user_edit : UpdateUser → User → User
user_edit dto u = record u {
  role_id = elim dto.role_id [ none ↦ u.role_id | some r ↦ r ];
  manager_id = elim dto.manager_id [ none ↦ u.manager_id | some m ↦ m ];
  authz_version = if moves_role dto u then suc u.authz_version else u.authz_version;
}

abbrev pub with_user : ℕ → (User → User) → AccessRows → AccessRows
with_user user_id f rows = record rows { users = update_where (λ u. u.id == user_id) f rows.users }

unfoldable pub update_user : ℕ → UpdateUser → ℕ → AccessRows → Result AccessRows
unfolding load_current_caller assert_caller_active assert_valid_manager assert_role_in_reach
    check_new_role
update_user user_id dto caller_id rows = do
  caller ← load_current_caller caller_id rows
  _ ← assert_caller_active caller
  _ ← throw_if (user_id == caller_id && is_given dto.role_id) bad_request
  user ← or_throw (find_user user_id rows) not_found
  _ ← check_manager user_id dto rows
  current_role ← or_throw (find_role user.role_id rows) bad_request
  _ ← assert_role_in_reach caller current_role rows
  _ ← check_new_role caller user current_role dto rows
  ok (with_user user_id (user_edit dto) rows)

-- The checks that `deactivate` and `reactivate` share: the role of the account.
unfoldable pub reach_account : ℕ → ℕ → AccessRows → Result Role
unfolding load_current_caller assert_caller_active assert_role_in_reach
reach_account user_id caller_id rows = do
  caller ← load_current_caller caller_id rows
  _ ← assert_caller_active caller
  user ← or_throw (find_user user_id rows) not_found
  current_role ← or_throw (find_role user.role_id rows) bad_request
  _ ← assert_role_in_reach caller current_role rows
  ok current_role

abbrev pub set_active : Bool → User → User
set_active active u = record u { is_active = active; authz_version = suc u.authz_version }

unfoldable pub deactivate : ℕ → ℕ → AccessRows → Result AccessRows
unfolding reach_account is_super_admin_role check_lockout
deactivate user_id caller_id rows = do
  current_role ← reach_account user_id caller_id rows
  _ ← check_lockout (is_super_admin_role current_role) user_id rows
  ok (with_user user_id (set_active false) rows)

unfoldable pub reactivate : ℕ → ℕ → AccessRows → Result AccessRows
unfolding reach_account
reactivate user_id caller_id rows = do
  current_role ← reach_account user_id caller_id rows
  ok (with_user user_id (set_active true) rows)
