-- ===== src/Access/Guard.antt =====
-- No sequence of the operations on roles and accounts leaves a company without an active super
-- admin.
use openestate.Base.{
  ℕ, ◌≡◌, refl, Bool, true, false, not, ◌&&◌, some, ◌==◌, ==_iff, if◌then◌else◌, Bool-cases,
  Option-cases, bind_inv, inl, inr, ok, or_throw, bad_request, find?, List,
}
use openestate.Access.Rows.{Role, User, AccessRows, find_role}
use openestate.Access.Callers.{CallerContext, is_super_admin_role, assert_super_admin_not_emptied}
use openestate.Access.Users.{
  UpdateUser, user_edit, set_active, update_user, deactivate, check_lockout, check_new_role,
  assert_role_fits_account, assert_role_in_reach,
}
use openestate.Access.Checked.{
  create_user_inv, create_role_inv, update_role_inv, remove_role_inv, update_user_inv,
  deactivate_inv, reactivate_inv,
}
use openestate.Access.Distinct.{
  DistinctUsers, user_created-DistinctUsers, with_user-DistinctUsers, role_created-DistinctUsers,
  role_edited-DistinctUsers,
}
use openestate.Access.SuperAdmin.{
  Guarded, user_created-Guarded, role_created-Guarded, role_edited-Guarded, role_removed-Guarded,
  found_passes,
}
use openestate.Access.Lockout.{activated-Guarded, checked-Guarded, edited_user-Guarded}
use openestate.Access.Steps.{
  Step, creates_role, updates_role, removes_role, creates_user, updates_user, deactivates,
  reactivates, Reaches, stay, step,
}

-- The ids of users differ, and an active user has the super_admin role.
abbrev pub Safe : AccessRows → Type 0
Safe rows = DistinctUsers rows × Guarded rows

check_lockout_inv :
    (user_id : ℕ) (needed : Bool) (rows : AccessRows)
    → check_lockout needed user_id rows ≡ ok tt
    → needed ≡ true
    → assert_super_admin_not_emptied user_id rows ≡ ok tt
unfolding check_lockout
check_lockout_inv user_id needed rows h n = rw (n, if◌then◌else◌) at h

-- The check that an edit of an account ends with.
lockout_checked :
    (caller : CallerContext) (user : User) (own : Role) (dto : UpdateUser) (r : ℕ)
    (rows : AccessRows)
    → dto.role_id ≡ some r
    → check_new_role caller user own dto rows ≡ ok tt
    → check_lockout (is_super_admin_role own && not (r == user.role_id)) user.id rows ≡ ok tt
unfolding check_new_role
lockout_checked caller user own dto r rows given h =
    let h0 = rw given at h in
    let (_, _, h1) = bind_inv (assert_role_fits_account r user.is_portal_account rows) _ tt h0 in
    let (role, _, h2) = bind_inv (or_throw (find_role r rows) bad_request) _ tt h1 in
    let (_, _, h3) = bind_inv (assert_role_in_reach caller role rows) _ tt h2 in h3

found_under :
    (id : ℕ) (users : List User) (u : User) → find? (λ v. v.id == id) users ≡ some u → u.id ≡ id
found_under id users u h = (==_iff u.id id).0 (found_passes (λ v. v.id == id) users u h)

update_user-Guarded :
    (caller_id user_id : ℕ) (dto : UpdateUser) (rows rows' : AccessRows)
    → update_user user_id dto caller_id rows ≡ ok rows'
    → DistinctUsers rows
    → Guarded rows
    → Guarded rows'
update_user-Guarded caller_id user_id dto rows rows' h d g =
    let (caller, user, own, _, uf, rf, n, made) =
      update_user_inv caller_id rows rows' user_id dto h in
    elim (Option-cases dto.role_id) [
      | inl none_given ↦
          rw made
            (edited_user-Guarded user_id (user_edit dto) rows user d uf (rw none_given) refl g)
      | inr (r, given) ↦
          let lock = lockout_checked caller user own dto r rows given n in
          elim (Bool-cases (r == user.role_id)) [
            | inl c ↦
                let same : r ≡ user.role_id = (==_iff r user.role_id).0 c in
                rw made (
                  edited_user-Guarded user_id (user_edit dto) rows user d uf (rw given same) refl g)
            | inr c ↦ rw made (
                checked-Guarded user_id (user_edit dto) rows user own d uf rf
                  (λ s. rw (found_under user_id rows.users user uf) at (
                    check_lockout_inv user.id (is_super_admin_role own && not (r == user.role_id))
                      rows lock (rw (s, c))))
                  g)
          ]
    ]

deactivate-Guarded :
    (caller_id user_id : ℕ) (rows rows' : AccessRows)
    → deactivate user_id caller_id rows ≡ ok rows'
    → DistinctUsers rows
    → Guarded rows
    → Guarded rows'
deactivate-Guarded caller_id user_id rows rows' h d g =
    let (user, own, uf, rf, lock, made) = deactivate_inv caller_id rows rows' user_id h in
    rw made (
      checked-Guarded user_id (set_active false) rows user own d uf rf
        (λ s. check_lockout_inv user_id (is_super_admin_role own) rows lock s) g)

Step-Safe :
    (caller_id : ℕ) (rows rows' : AccessRows) → Step caller_id rows rows' → Safe rows → Safe rows'
Step-Safe c rows rows' (creates_role name slug ids e) (d, g) =
    let (_, _, _, _, made) = create_role_inv c rows rows' name slug ids e in
    rw made
      (role_created-DistinctUsers name slug ids rows d, role_created-Guarded name slug ids rows g)
Step-Safe c rows rows' (updates_role r edit e) (d, g) =
    let (_, _, _, _, _, _, made) = update_role_inv c rows rows' r edit e in
    rw made (role_edited-DistinctUsers r edit rows d, role_edited-Guarded r edit rows g)
Step-Safe c rows rows' (removes_role r e) (d, g) =
    let (role, f, s, made) = remove_role_inv c rows rows' r e in
    rw made (d, role_removed-Guarded r role rows f s g)
Step-Safe c rows rows' (creates_user dto e) (d, g) =
    let (_, _, _, _, _, made) = create_user_inv c rows rows' dto e in
    rw made (user_created-DistinctUsers dto rows d, user_created-Guarded dto rows g)
Step-Safe c rows rows' (updates_user u dto e) (d, g) =
    let (_, _, _, _, _, _, _, made) = update_user_inv c rows rows' u dto e in
    (
      rw made (with_user-DistinctUsers u (user_edit dto) rows (λ x. refl) d),
      update_user-Guarded c u dto rows rows' e d g,
    )
Step-Safe c rows rows' (deactivates u e) (d, g) =
    let (_, _, _, _, _, made) = deactivate_inv c rows rows' u e in
    (
      rw made (with_user-DistinctUsers u (set_active false) rows (λ x. refl) d),
      deactivate-Guarded c u rows rows' e d g,
    )
Step-Safe c rows rows' (reactivates u e) (d, g) =
    let made = reactivate_inv c rows rows' u e in
    rw made
      (with_user-DistinctUsers u (set_active true) rows (λ x. refl) d, activated-Guarded u rows g)

-- However roles and accounts are created, edited, removed, deactivated and reactivated, and by
-- whichever callers: the ids of users stay distinct, and where an active user had the super_admin
-- role at the start, an active user has it afterwards.
pub Reaches-Safe : (rows rows' : AccessRows) → Reaches rows rows' → Safe rows → Safe rows'
Reaches-Safe rows _ stay h = h
Reaches-Safe rows rows' (step caller_id one rest) h =
    Reaches-Safe _ rows' rest (Step-Safe caller_id rows _ one h)
