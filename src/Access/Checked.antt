-- ===== src/Access/Checked.antt =====
-- What the operations on roles and accounts (apps/api/src/roles/roles.service.ts and
-- apps/api/src/users/users.service.ts) have checked where they return, and the rows they leave.
use openestate.Base.{
  ℕ, ◌≡◌, ap, ◌∙◌, true, false, ◌&&◌, none, some, List, ◌==◌, bind_inv, or_throw_inv, throw_if_inv,
  ok, or_throw, throw_if, not_found, bad_request, any,
}
use openestate.Access.Rows.{
  Role, User, AccessRows, find_role, find_user, load_permission_keys, super_admin_slug,
}
use openestate.Access.Callers.{
  CallerContext, load_current_caller, assert_caller_active, assert_permission_subset,
  is_super_admin_role, assert_actor_is_super_admin_if_target_is,
}
use openestate.Access.Roles.{
  RoleEdit, role_created, create_role, role_edited, update_role, role_removed, remove_role,
  edits_permissions, assert_grants, renames, not_allowed,
}
use openestate.Access.Users.{
  CreateUser, UpdateUser, user_edit, user_created, create_user, with_user, update_user, set_active,
  reach_account, deactivate, reactivate, assert_role_in_reach, check_lockout,
  assert_role_fits_account, check_new_role, check_manager, is_given,
}
use openestate.Access.Managers.{assert_valid_manager}

-- The caller whom an operation loads, and the rows it leaves.
abbrev Loaded : ℕ → AccessRows → CallerContext → Type 0
Loaded caller_id rows caller = load_current_caller caller_id rows ≡ ok caller

module _ (caller_id : ℕ) (rows rows' : AccessRows) where
  pub create_user_inv :
      (dto : CreateUser)
      → create_user dto caller_id rows ≡ ok rows'
      → (caller : CallerContext) × (role : Role) × Loaded caller_id rows caller
        × (find_role dto.role_id rows ≡ some role)
        × (assert_role_in_reach caller role rows ≡ ok tt)
        × (rows' ≡ user_created dto rows)
  unfolding create_user
  create_user_inv dto h =
      let (caller, c, h1) = bind_inv (load_current_caller caller_id rows) _ rows' h in
      let (_, _, h2) = bind_inv (assert_caller_active caller) _ rows' h1 in
      let (_, _, h3) =
        bind_inv (throw_if (any (λ u. u.email == dto.email) rows.users) bad_request) _ rows' h2 in
      let (_, _, h4) = bind_inv (assert_valid_manager none dto.manager_id rows) _ rows' h3 in
      let (_, _, h5) = bind_inv (assert_role_fits_account dto.role_id false rows) _ rows' h4 in
      let (role, r, h6) = bind_inv (or_throw (find_role dto.role_id rows) bad_request) _ rows' h5 in
      let (_, a, h7) = bind_inv (assert_role_in_reach caller role rows) _ rows' h6 in
      (caller, role, c, or_throw_inv (find_role dto.role_id rows) bad_request role r, a, cc)

  pub create_role_inv :
      (name slug : ℕ) (ids : List ℕ)
      → create_role name slug ids caller_id rows ≡ ok rows'
      → (caller : CallerContext) × Loaded caller_id rows caller
        × ((slug == super_admin_slug) ≡ false)
        × (assert_permission_subset caller.permission_keys (load_permission_keys ids rows) ≡ ok tt)
        × (rows' ≡ role_created name slug ids rows)
  unfolding create_role
  create_role_inv name slug ids h =
      let (caller, c, h1) = bind_inv (load_current_caller caller_id rows) _ rows' h in
      let (_, _, h2) = bind_inv (assert_caller_active caller) _ rows' h1 in
      let (u, s, h3) = bind_inv (throw_if (slug == super_admin_slug) bad_request) _ rows' h2 in
      let (_, _, h4) =
        bind_inv (throw_if (any (λ r. r.slug == slug) rows.roles) bad_request) _ rows' h3 in
      let (_, a, h5) =
        bind_inv (assert_permission_subset caller.permission_keys (load_permission_keys ids rows)) _
          rows' h4 in
      (caller, c, throw_if_inv (slug == super_admin_slug) bad_request u s, a, cc)

  pub update_role_inv :
      (role_id : ℕ) (edit : RoleEdit)
      → update_role role_id edit caller_id rows ≡ ok rows'
      → (caller : CallerContext) × (role : Role) × Loaded caller_id rows caller
        × (find_role role_id rows ≡ some role)
        × ((is_super_admin_role role && edits_permissions edit) ≡ false)
        × (assert_grants caller edit rows ≡ ok tt)
        × (rows' ≡ role_edited role_id edit rows)
  unfolding update_role
  update_role_inv role_id edit h =
      let (caller, c, h1) = bind_inv (load_current_caller caller_id rows) _ rows' h in
      let (_, _, h2) = bind_inv (assert_caller_active caller) _ rows' h1 in
      let (role, r, h3) = bind_inv (or_throw (find_role role_id rows) not_found) _ rows' h2 in
      let (_, _, h4) =
        bind_inv (throw_if (role.is_system && renames edit role) bad_request) _ rows' h3 in
      let (u, s, h5) =
        bind_inv (throw_if (is_super_admin_role role && edits_permissions edit) bad_request) _ rows'
          h4 in
      let (_, _, h6) =
        bind_inv (throw_if (role.is_portal && not_allowed edit rows) bad_request) _ rows' h5 in
      let (_, _, h7) = bind_inv (assert_actor_is_super_admin_if_target_is caller role) _ rows' h6 in
      let (_, _, h8) =
        bind_inv
          (assert_permission_subset caller.permission_keys
            (load_permission_keys role.permission_ids rows))
          _ rows' h7 in
      let (_, g, h9) = bind_inv (assert_grants caller edit rows) _ rows' h8 in
      (
        caller,
        role,
        c,
        or_throw_inv (find_role role_id rows) not_found role r,
        throw_if_inv (is_super_admin_role role && edits_permissions edit) bad_request u s,
        g,
        cc,
      )

  pub remove_role_inv :
      (role_id : ℕ)
      → remove_role role_id caller_id rows ≡ ok rows'
      → (role : Role) × (find_role role_id rows ≡ some role)
        × (role.is_system ≡ false)
        × (rows' ≡ role_removed role_id rows)
  unfolding remove_role
  remove_role_inv role_id h =
      let (caller, _, h1) = bind_inv (load_current_caller caller_id rows) _ rows' h in
      let (_, _, h2) = bind_inv (assert_caller_active caller) _ rows' h1 in
      let (role, r, h3) = bind_inv (or_throw (find_role role_id rows) not_found) _ rows' h2 in
      let (u, s, h4) = bind_inv (throw_if role.is_system bad_request) _ rows' h3 in
      let (_, _, h5) =
        bind_inv (throw_if (any (λ x. x.role_id == role_id) rows.users) bad_request) _ rows' h4 in
      let (_, _, h6) = bind_inv (assert_actor_is_super_admin_if_target_is caller role) _ rows' h5 in
      let (_, _, h7) =
        bind_inv
          (assert_permission_subset caller.permission_keys
            (load_permission_keys role.permission_ids rows))
          _ rows' h6 in
      (
        role,
        or_throw_inv (find_role role_id rows) not_found role r,
        throw_if_inv role.is_system bad_request u s,
        cc,
      )

  pub update_user_inv :
      (user_id : ℕ) (dto : UpdateUser)
      → update_user user_id dto caller_id rows ≡ ok rows'
      → (caller : CallerContext) × (user : User) × (role : Role) × Loaded caller_id rows caller
        × (find_user user_id rows ≡ some user)
        × (find_role user.role_id rows ≡ some role)
        × (check_new_role caller user role dto rows ≡ ok tt)
        × (rows' ≡ with_user user_id (user_edit dto) rows)
  unfolding update_user
  update_user_inv user_id dto h =
      let (caller, c, h1) = bind_inv (load_current_caller caller_id rows) _ rows' h in
      let (_, _, h2) = bind_inv (assert_caller_active caller) _ rows' h1 in
      let (_, _, h3) =
        bind_inv (throw_if (user_id == caller_id && is_given dto.role_id) bad_request) _ rows' h2 in
      let (user, u, h4) = bind_inv (or_throw (find_user user_id rows) not_found) _ rows' h3 in
      let (_, _, h5) = bind_inv (check_manager user_id dto rows) _ rows' h4 in
      let (role, r, h6) =
        bind_inv (or_throw (find_role user.role_id rows) bad_request) _ rows' h5 in
      let (_, _, h7) = bind_inv (assert_role_in_reach caller role rows) _ rows' h6 in
      let (_, n, h8) = bind_inv (check_new_role caller user role dto rows) _ rows' h7 in
      (
        caller,
        user,
        role,
        c,
        or_throw_inv (find_user user_id rows) not_found user u,
        or_throw_inv (find_role user.role_id rows) bad_request role r,
        n,
        cc,
      )

  reach_account_inv :
      (user_id : ℕ) (role : Role)
      → reach_account user_id caller_id rows ≡ ok role
      → (user : User) × (find_user user_id rows ≡ some user)
        × (find_role user.role_id rows ≡ some role)
  unfolding reach_account
  reach_account_inv user_id role h =
      let (caller, _, h1) = bind_inv (load_current_caller caller_id rows) _ role h in
      let (_, _, h2) = bind_inv (assert_caller_active caller) _ role h1 in
      let (user, u, h3) = bind_inv (or_throw (find_user user_id rows) not_found) _ role h2 in
      let (own, r, h4) = bind_inv (or_throw (find_role user.role_id rows) bad_request) _ role h3 in
      let (_, _, h5) = bind_inv (assert_role_in_reach caller own rows) _ role h4 in
      let same : own ≡ role = cc in
      (
        user,
        or_throw_inv (find_user user_id rows) not_found user u,
        or_throw_inv (find_role user.role_id rows) bad_request own r ∙ ap some same,
      )

  pub deactivate_inv :
      (user_id : ℕ)
      → deactivate user_id caller_id rows ≡ ok rows'
      → (user : User) × (role : Role) × (find_user user_id rows ≡ some user)
        × (find_role user.role_id rows ≡ some role)
        × (check_lockout (is_super_admin_role role) user_id rows ≡ ok tt)
        × (rows' ≡ with_user user_id (set_active false) rows)
  unfolding deactivate
  deactivate_inv user_id h =
      let (role, a, h1) = bind_inv (reach_account user_id caller_id rows) _ rows' h in
      let (_, l, h2) =
        bind_inv (check_lockout (is_super_admin_role role) user_id rows) _ rows' h1 in
      let (user, u, r) = reach_account_inv user_id role a in (user, role, u, r, l, cc)

  pub reactivate_inv :
      (user_id : ℕ)
      → reactivate user_id caller_id rows ≡ ok rows'
      → rows' ≡ with_user user_id (set_active true) rows
  unfolding reactivate
  reactivate_inv user_id h =
      let (role, _, h1) = bind_inv (reach_account user_id caller_id rows) _ rows' h in cc
