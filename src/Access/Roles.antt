-- ===== src/Access/Roles.antt =====
-- apps/api/src/roles/roles.service.ts: roles are created, edited and removed. The log of the audit
-- and the constraints of the database on the stored ids are left out.
use openestate.Base.{
  ℕ, suc, Bool, true, false, not, ◌&&◌, Option, none, some, List, [], ◌∷◌, ◌++◌, ◌==◌, any, select,
  update_where, if◌then◌else◌, Result, ok, not_found, bad_request, ◌>>=◌, or_throw, throw_if,
}
use openestate.Access.Rows.{
  super_admin_slug, Role, User, AccessRows, find_role, permissions_of, load_permission_keys,
}
use openestate.Access.Callers.{
  CallerContext, is_super_admin_role, load_current_caller, assert_caller_active,
  assert_permission_subset, assert_actor_is_super_admin_if_target_is,
}

abbrev pub new_role : ℕ → ℕ → ℕ → List ℕ → Role
new_role id name slug permission_ids = record {
  id = id;
  name = name;
  slug = slug;
  is_system = false;
  is_portal = false;
  permission_ids = permission_ids;
}

abbrev pub role_created : ℕ → ℕ → List ℕ → AccessRows → AccessRows
role_created name slug permission_ids rows = record rows {
  next_id = suc rows.next_id;
  roles = rows.roles ++ new_role rows.next_id name slug permission_ids ∷ [];
}

unfoldable pub create_role : ℕ → ℕ → List ℕ → ℕ → AccessRows → Result AccessRows
unfolding load_current_caller assert_caller_active load_permission_keys assert_permission_subset
create_role name slug permission_ids caller_id rows = do
  caller ← load_current_caller caller_id rows
  _ ← assert_caller_active caller
  _ ← throw_if (slug == super_admin_slug) bad_request
  _ ← throw_if (any (λ r. r.slug == slug) rows.roles) bad_request
  _ ← assert_permission_subset caller.permission_keys (load_permission_keys permission_ids rows)
  ok (role_created name slug permission_ids rows)

-- The data of an edit.
pub record RoleEdit : Type 0 where
  pub name : Option ℕ
  pub permission_ids : Option (List ℕ)

-- `data.name !== undefined && data.name !== role.name`
abbrev pub renames : RoleEdit → Role → Bool
renames edit role = elim edit.name [ none ↦ false | some n ↦ not (n == role.name) ]

abbrev pub edits_permissions : RoleEdit → Bool
edits_permissions edit = elim edit.permission_ids [ none ↦ false | some ids ↦ true ]

-- `perms.map((p) => p.key).filter((k) => !k.startsWith('portal.'))`, whether there is one.
abbrev pub not_allowed : RoleEdit → AccessRows → Bool
not_allowed edit rows = elim edit.permission_ids [
  | none ↦ false
  | some ids ↦ any (λ p. not p.in_portal) (permissions_of ids rows)
]

-- `if (data.permissionIds)`
unfoldable pub assert_grants : CallerContext → RoleEdit → AccessRows → Result (Unit {0})
unfolding assert_permission_subset load_permission_keys
assert_grants caller edit rows = elim edit.permission_ids [
  | none ↦ ok tt
  | some ids ↦ assert_permission_subset caller.permission_keys (load_permission_keys ids rows)
]

abbrev pub edited : RoleEdit → Role → Role
edited edit role = record role {
  name = elim edit.name [ none ↦ role.name | some n ↦ n ];
  permission_ids = elim edit.permission_ids [ none ↦ role.permission_ids | some ids ↦ ids ];
}

-- `bumpRole`: the sessions of everyone holding the role end.
abbrev pub bump_user : User → User
bump_user u = record u { authz_version = suc u.authz_version }

abbrev pub bump_role : ℕ → Bool → List User → List User
bump_role role_id needed users =
    if needed then update_where (λ u. u.role_id == role_id) bump_user users else users

abbrev pub role_edited : ℕ → RoleEdit → AccessRows → AccessRows
role_edited role_id edit rows = record rows {
  roles = update_where (λ r. r.id == role_id) (edited edit) rows.roles;
  users = bump_role role_id (edits_permissions edit) rows.users;
}

unfoldable pub update_role : ℕ → RoleEdit → ℕ → AccessRows → Result AccessRows
unfolding load_current_caller assert_caller_active is_super_admin_role load_permission_keys
    assert_actor_is_super_admin_if_target_is assert_permission_subset assert_grants
update_role role_id edit caller_id rows = do
  caller ← load_current_caller caller_id rows
  _ ← assert_caller_active caller
  role ← or_throw (find_role role_id rows) not_found
  _ ← throw_if (role.is_system && renames edit role) bad_request
  _ ← throw_if (is_super_admin_role role && edits_permissions edit) bad_request
  _ ← throw_if (role.is_portal && not_allowed edit rows) bad_request
  _ ← assert_actor_is_super_admin_if_target_is caller role
  _ ←
      assert_permission_subset caller.permission_keys
        (load_permission_keys role.permission_ids rows)
  _ ← assert_grants caller edit rows
  ok (role_edited role_id edit rows)

abbrev pub role_removed : ℕ → AccessRows → AccessRows
role_removed role_id rows = record rows { roles = select (λ r. not (r.id == role_id)) rows.roles }

unfoldable pub remove_role : ℕ → ℕ → AccessRows → Result AccessRows
unfolding load_current_caller assert_caller_active load_permission_keys
    assert_actor_is_super_admin_if_target_is assert_permission_subset
remove_role role_id caller_id rows = do
  caller ← load_current_caller caller_id rows
  _ ← assert_caller_active caller
  role ← or_throw (find_role role_id rows) not_found
  _ ← throw_if role.is_system bad_request
  _ ← throw_if (any (λ u. u.role_id == role_id) rows.users) bad_request
  _ ← assert_actor_is_super_admin_if_target_is caller role
  _ ←
      assert_permission_subset caller.permission_keys
        (load_permission_keys role.permission_ids rows)
  ok (role_removed role_id rows)
