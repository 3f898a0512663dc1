-- ===== src/Access/RoleGrants.antt =====
-- The edits of roles (apps/api/src/roles/roles.service.ts) grant nothing that their caller does not
-- hold.
use openestate.Base.{
  ℕ, ◌≡◌, refl, sym, ap, ◌∙◌, arith, Bool, true, false, ◌&&◌, ◌||◌, none, List, ◌==◌, Option-cases,
  inl, inr, find?, ok,
}
use openestate.Access.Rows.{Role, User, AccessRows, contains, find_role, load_permission_keys}
use openestate.Access.Callers.{
  CallerContext, keys_of_role, load_current_caller, assert_permission_subset, is_super_admin_role,
}
use openestate.Access.Roles.{
  RoleEdit, edited, bump_user, bump_role, new_role, role_created, create_role, role_edited,
  update_role, role_removed, remove_role, edits_permissions, assert_grants,
}
use openestate.Access.Subset.{Subset-contains, assert_permission_subset_passed, keys_of_role_plain}
use openestate.Access.Holdings.{
  role_holds, found_holds, role_id_of, holds, caller_holds, find?-snoc_cases, role_id_of-kept,
  find_role-edited, find_role-dropped,
}
use openestate.Access.Checked.{create_role_inv, update_role_inv, remove_role_inv}
use openestate.Access.Grants.{or_left, or_right, roles_grant, keys_of_role_same, found_holds_same}

-- A role that is found with the keys of a subset check holds what the caller holds.
granted-holds :
    (caller_id k : ℕ) (rows : AccessRows) (caller : CallerContext) (ids : List ℕ)
    → load_current_caller caller_id rows ≡ ok caller
    → assert_permission_subset caller.permission_keys (load_permission_keys ids rows) ≡ ok tt
    → contains k (load_permission_keys ids rows) ≡ true
    → holds caller_id k rows ≡ true
granted-holds caller_id k rows caller ids c a h =
    sym (caller_holds caller_id k rows caller c)
    ∙ Subset-contains caller.permission_keys k (load_permission_keys ids rows)
        (assert_permission_subset_passed caller.permission_keys (load_permission_keys ids rows) a) h

new_role_plain :
    (id name slug : ℕ) (ids : List ℕ) → is_super_admin_role (new_role id name slug ids) ≡ false
unfolding is_super_admin_role
new_role_plain id name slug ids = refl

edited_plain :
    (edit : RoleEdit) (role : Role)
    → (is_super_admin_role role && edits_permissions edit) ≡ false
    → edits_permissions edit ≡ true
    → is_super_admin_role (edited edit role) ≡ false
unfolding is_super_admin_role
edited_plain edit role h e = ground (arith, e)

-- An edit that leaves the permissions alone leaves the keys.
edited_keys :
    (edit : RoleEdit) (role : Role) (rows : AccessRows)
    → edit.permission_ids ≡ none
    → keys_of_role (edited edit role) rows ≡ keys_of_role role rows
unfolding keys_of_role is_super_admin_role
edited_keys edit role rows n = rw n

-- `bumpRole` keeps the role of each user.
bumped_roles :
    (role_id : ℕ) (needed : Bool) (x : ℕ) (users : List User)
    → role_id_of (find? (λ u. u.id == x) (bump_role role_id needed users))
      ≡ role_id_of (find? (λ u. u.id == x) users)
bumped_roles role_id false x users = refl
bumped_roles role_id true x users =
    role_id_of-kept (λ u. u.role_id == role_id) bump_user (λ u. (refl, refl)) x users

not_held : ¬ (false ≡ true)
not_held h = cc

module _ (caller_id x k : ℕ) (rows rows' : AccessRows) where
  pub create_role-grants :
      (name slug : ℕ) (ids : List ℕ)
      → create_role name slug ids caller_id rows ≡ ok rows'
      → holds x k rows' ≡ true
      → (holds x k rows || holds caller_id k rows) ≡ true
  create_role-grants name slug ids h held =
      let (caller, c, s, a, made) = create_role_inv caller_id rows rows' name slug ids h in
      let after = role_created name slug ids rows in
      let now : holds x k after ≡ true = rw (← made) held in
      let own = new_role rows.next_id name slug ids in
      roles_grant x k (holds caller_id k rows) rows after refl
        (λ r e. elim (find?-snoc_cases (λ q. q.id == r) rows.roles own) [
          | inl same ↦
              or_left (role_holds r k rows) (holds caller_id k rows) (role_holds r k after)
                (ap (found_holds k after) same
                  ∙ found_holds_same k rows after (find_role r rows) refl)
                e
          | inr new ↦ or_right (role_holds r k rows) (holds caller_id k rows) (
              granted-holds caller_id k rows caller ids c a (
                sym (
                  ap (contains k) (
                    keys_of_role_same own rows after refl
                    ∙ keys_of_role_plain own rows (new_role_plain rows.next_id name slug ids)))
                ∙ sym (ap (found_holds k after) new)
                ∙ e))
        ])
        now

  -- The role after an edit holds what it held, or what the caller holds.
  edited-holds :
      (edit : RoleEdit) (role : Role) (caller : CallerContext)
      → load_current_caller caller_id rows ≡ ok caller
      → (is_super_admin_role role && edits_permissions edit) ≡ false
      → assert_grants caller edit rows ≡ ok tt
      → contains k (keys_of_role (edited edit role) rows) ≡ true
      → (contains k (keys_of_role role rows) || holds caller_id k rows) ≡ true
  unfolding assert_grants
  edited-holds edit role caller c s g e = elim (Option-cases edit.permission_ids) [
    | inl n ↦
        or_left (contains k (keys_of_role role rows)) (holds caller_id k rows)
          (contains k (keys_of_role (edited edit role) rows))
          (ap (contains k) (edited_keys edit role rows n)) e
    | inr (ids, n) ↦ or_right (contains k (keys_of_role role rows)) (holds caller_id k rows) (
        granted-holds caller_id k rows caller ids c (rw n at g) (
          sym (
            ap (contains k) (
              keys_of_role_plain (edited edit role) rows
                (edited_plain edit role s (rw (edits_permissions, n)))
              ∙ rw n))
          ∙ e))
  ]

  pub update_role-grants :
      (role_id : ℕ) (edit : RoleEdit)
      → update_role role_id edit caller_id rows ≡ ok rows'
      → holds x k rows' ≡ true
      → (holds x k rows || holds caller_id k rows) ≡ true
  update_role-grants role_id edit h held =
      let (caller, role, c, f, s, g, made) = update_role_inv caller_id rows rows' role_id edit h in
      let after = role_edited role_id edit rows in
      let now : holds x k after ≡ true = rw (← made) held in
      roles_grant x k (holds caller_id k rows) rows after
        (bumped_roles role_id (edits_permissions edit) x rows.users)
        (λ r e. elim (find_role-edited role_id (edited edit) role (λ q. refl) r rows.roles f) [
          | inl same ↦
              or_left (role_holds r k rows) (holds caller_id k rows) (role_holds r k after)
                (ap (found_holds k after) same
                  ∙ found_holds_same k rows after (find_role r rows) refl)
                e
          | inr (new, old) ↦ rw (ap (found_holds k rows) old) (
              edited-holds edit role caller c s g (
                sym (ap (contains k) (keys_of_role_same (edited edit role) rows after refl))
                ∙ sym (ap (found_holds k after) new)
                ∙ e))
        ])
        now

  pub remove_role-grants :
      (role_id : ℕ)
      → remove_role role_id caller_id rows ≡ ok rows'
      → holds x k rows' ≡ true
      → (holds x k rows || holds caller_id k rows) ≡ true
  remove_role-grants role_id h held =
      let (role, f, s, made) = remove_role_inv caller_id rows rows' role_id h in
      let after = role_removed role_id rows in
      let now : holds x k after ≡ true = rw (← made) held in
      roles_grant x k (holds caller_id k rows) rows after refl
        (λ r e. elim (find_role-dropped role_id r rows.roles) [
          | inl same ↦
              or_left (role_holds r k rows) (holds caller_id k rows) (role_holds r k after)
                (ap (found_holds k after) same
                  ∙ found_holds_same k rows after (find_role r rows) refl)
                e
          | inr gone ↦ absurd (not_held (sym (ap (found_holds k after) gone) ∙ e))
        ])
        now
