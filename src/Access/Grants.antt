-- ===== src/Access/Grants.antt =====
-- The operations on roles and accounts (apps/api/src/roles/roles.service.ts and
-- apps/api/src/users/users.service.ts) grant nothing that their caller does not hold.
use openestate.Base.{
  ℕ, ◌≡◌, refl, sym, ap, ◌∙◌, arith, Bool, true, ◌||◌, Option, none, some, ◌==◌, Option-cases,
  bind_inv, or_throw_inv, inl, inr, find?, ok, or_throw, bad_request,
}
use openestate.Access.Rows.{
  Role, User, AccessRows, contains, find_role, find_user, load_permission_keys,
}
use openestate.Access.Callers.{CallerContext, keys_of_role, load_current_caller}
use openestate.Access.Users.{
  CreateUser, UpdateUser, new_user, user_edit, user_created, create_user, with_user, update_user,
  set_active, check_new_role, assert_role_in_reach, assert_role_fits_account,
}
use openestate.Access.Subset.{Subset-contains, reach-Subset}
use openestate.Access.Holdings.{
  by_role, role_holds, found_holds, role_id_of, holds, caller_holds, find?-snoc_cases,
  role_id_of-kept, role_id_of-edited,
}
use openestate.Access.Checked.{create_user_inv, update_user_inv}

-- The keys of a role depend on the table of permissions only.
pub keys_of_role_same :
    (role : Role) (rows rows' : AccessRows)
    → rows'.permissions ≡ rows.permissions
    → keys_of_role role rows' ≡ keys_of_role role rows
unfolding keys_of_role load_permission_keys
keys_of_role_same role rows rows' same = rw same

pub found_holds_same :
    (k : ℕ) (rows rows' : AccessRows) (o : Option Role)
    → rows'.permissions ≡ rows.permissions
    → found_holds k rows' o ≡ found_holds k rows o
found_holds_same k rows rows' none same = refl
found_holds_same k rows rows' (some role) same =
    ap (contains k) (keys_of_role_same role rows rows' same)

by_role_same :
    (k : ℕ) (rows rows' : AccessRows) (o : Option ℕ)
    → rows'.roles ≡ rows.roles
    → rows'.permissions ≡ rows.permissions
    → by_role k rows' o ≡ by_role k rows o
by_role_same k rows rows' none same keys = refl
by_role_same k rows rows' (some r) same keys =
    ap (λ roles. found_holds k rows' (find? (λ x. x.id == r) roles)) same
    ∙ found_holds_same k rows rows' (find_role r rows) keys

-- A user whose role stays, or is a new one, where roles and permissions stay.
kept_user :
    (x k : ℕ) (rows rows' : AccessRows)
    → rows'.roles ≡ rows.roles
    → rows'.permissions ≡ rows.permissions
    → role_id_of (find_user x rows') ≡ role_id_of (find_user x rows)
    → holds x k rows' ≡ holds x k rows
unfolding holds
kept_user x k rows rows' roles keys same =
    ap (by_role k rows') same ∙ by_role_same k rows rows' (role_id_of (find_user x rows)) roles keys

given_user :
    (x k r : ℕ) (role : Role) (rows rows' : AccessRows)
    → rows'.roles ≡ rows.roles
    → rows'.permissions ≡ rows.permissions
    → role_id_of (find_user x rows') ≡ some r
    → find_role r rows ≡ some role
    → holds x k rows' ≡ contains k (keys_of_role role rows)
unfolding holds
given_user x k r role rows rows' roles keys given f =
    ap (by_role k rows') given
    ∙ by_role_same k rows rows' (some r) roles keys
    ∙ ap (found_holds k rows) f

-- A key that is held either way.
pub or_left : (a b c : Bool) → c ≡ a → c ≡ true → (a || b) ≡ true
or_left a b c same h = ground arith

pub or_right : (a b : Bool) → b ≡ true → (a || b) ≡ true
or_right a b h = ground arith

-- Roles change and users keep theirs: what a user holds is what a role holds.
pub roles_grant :
    (x k : ℕ) (by : Bool) (rows rows' : AccessRows)
    → role_id_of (find_user x rows') ≡ role_id_of (find_user x rows)
    → ((r : ℕ) → role_holds r k rows' ≡ true → (role_holds r k rows || by) ≡ true)
    → holds x k rows' ≡ true
    → (holds x k rows || by) ≡ true
unfolding holds
roles_grant x k by rows rows' same grants h = go (role_id_of (find_user x rows)) (rw same at h)
  where
    go : (o : Option ℕ) → by_role k rows' o ≡ true → (by_role k rows o || by) ≡ true
    go none e = cc
    go (some r) e = grants r e

-- A role within reach holds what the caller holds.
reach-holds :
    (caller_id k : ℕ) (rows : AccessRows) (caller : CallerContext) (role : Role)
    → load_current_caller caller_id rows ≡ ok caller
    → assert_role_in_reach caller role rows ≡ ok tt
    → contains k (keys_of_role role rows) ≡ true
    → holds caller_id k rows ≡ true
reach-holds caller_id k rows caller role c a h =
    sym (caller_holds caller_id k rows caller c)
    ∙ Subset-contains caller.permission_keys k (keys_of_role role rows)
        (reach-Subset caller_id rows caller role c a) h

module _ (caller_id x k : ℕ) (rows rows' : AccessRows) where
  pub create_user-grants :
      (dto : CreateUser)
      → create_user dto caller_id rows ≡ ok rows'
      → holds x k rows' ≡ true
      → (holds x k rows || holds caller_id k rows) ≡ true
  create_user-grants dto h held =
      let (caller, role, c, r, a, made) = create_user_inv caller_id rows rows' dto h in
      let now : holds x k (user_created dto rows) ≡ true = rw (← made) held in
      elim (find?-snoc_cases (λ u. u.id == x) rows.users (new_user rows.next_id dto)) [
        | inl same ↦
            or_left (holds x k rows) (holds caller_id k rows) (holds x k (user_created dto rows))
              (kept_user x k rows (user_created dto rows) refl refl (ap role_id_of same)) now
        | inr new ↦ or_right (holds x k rows) (holds caller_id k rows) (
            reach-holds caller_id k rows caller role c a (
              sym (
                given_user x k dto.role_id role rows (user_created dto rows) refl refl
                  (ap role_id_of new) r)
              ∙ now))
      ]

  -- The role that an edit of an account gives.
  new_role_checked :
      (caller : CallerContext) (user : User) (own : Role) (dto : UpdateUser) (r : ℕ)
      → dto.role_id ≡ some r
      → check_new_role caller user own dto rows ≡ ok tt
      → (role : Role) × (find_role r rows ≡ some role)
        × (assert_role_in_reach caller role rows ≡ ok tt)
  unfolding check_new_role
  new_role_checked caller user own dto r given h =
      let h0 = rw given at h in
      let (_, _, h1) = bind_inv (assert_role_fits_account r user.is_portal_account rows) _ tt h0 in
      let (role, f, h2) = bind_inv (or_throw (find_role r rows) bad_request) _ tt h1 in
      let (_, a, h3) = bind_inv (assert_role_in_reach caller role rows) _ tt h2 in
      (role, or_throw_inv (find_role r rows) bad_request role f, a)

  pub update_user-grants :
      (user_id : ℕ) (dto : UpdateUser)
      → update_user user_id dto caller_id rows ≡ ok rows'
      → holds x k rows' ≡ true
      → (holds x k rows || holds caller_id k rows) ≡ true
  update_user-grants user_id dto h held =
      let (caller, user, own, c, _, _, n, made) =
        update_user_inv caller_id rows rows' user_id dto h in
      let after = with_user user_id (user_edit dto) rows in
      let now : holds x k after ≡ true = rw (← made) held in
      elim (Option-cases dto.role_id) [
        | inl none_given ↦
            or_left (holds x k rows) (holds caller_id k rows) (holds x k after)
              (kept_user x k rows after refl refl (
                role_id_of-kept (λ u. u.id == user_id) (user_edit dto) (λ u. (refl, rw none_given))
                  x rows.users))
              now
        | inr (r, given) ↦
            let (role, f, a) = new_role_checked caller user own dto r given n in
            elim (role_id_of-edited (λ u. u.id == user_id) dto r given x rows.users) [
              | inl same ↦
                  or_left (holds x k rows) (holds caller_id k rows) (holds x k after)
                    (kept_user x k rows after refl refl same) now
              | inr new ↦ or_right (holds x k rows) (holds caller_id k rows) (
                  reach-holds caller_id k rows caller role c a
                    (sym (given_user x k r role rows after refl refl new f) ∙ now))
            ]
      ]

  -- Switching an account on or off grants nothing at all.
  pub set_active-grants :
      (user_id : ℕ) (active : Bool)
      → rows' ≡ with_user user_id (set_active active) rows
      → holds x k rows' ≡ true
      → (holds x k rows || holds caller_id k rows) ≡ true
  set_active-grants user_id active made held =
      let after = with_user user_id (set_active active) rows in
      let now : holds x k after ≡ true = rw (← made) held in
      or_left (holds x k rows) (holds caller_id k rows) (holds x k after)
        (kept_user x k rows after refl refl (
          role_id_of-kept (λ u. u.id == user_id) (set_active active) (λ u. (refl, refl)) x
            rows.users))
        now
