-- ===== src/Access/SuperAdmin.antt =====
-- `assertSuperAdminNotEmptied` (apps/api/src/common/permission-subset.util.ts): the operations on
-- roles and accounts keep an active user in the super_admin role.
use openestate.Base.{
  ℕ, ◌≡◌, refl, sym, subst, ◌∙◌, arith, Bool, true, false, not, ◌&&◌, some, List, [], ◌∷◌, ◌==◌,
  ==_iff, Bool-cases, inl, inr, find?, find?-hit, find?-miss, any, any-true, any-append,
  any-update_where, find?-append, find?-update_kept, find?-select_found,
}
use openestate.Access.Rows.{Role, User, AccessRows, find_role}
use openestate.Access.Callers.{is_super_admin_role}
use openestate.Access.Roles.{
  RoleEdit, edited, bump_user, bump_role, new_role, role_created, role_edited, role_removed,
  edits_permissions,
}
use openestate.Access.Users.{CreateUser, new_user, user_created}

-- An active user of the role.
abbrev pub active_in : Role → User → Bool
active_in role u = u.role_id == role.id && u.is_active

-- There is a super_admin role, it is the one under its id, and an active user has it.
abbrev pub Guarded : AccessRows → Type 0
Guarded rows =
    (role : Role) × (find? is_super_admin_role rows.roles ≡ some role)
    × (find_role role.id rows ≡ some role)
    × (any (active_in role) rows.users ≡ true)

pub user_created-Guarded :
    (dto : CreateUser) (rows : AccessRows) → Guarded rows → Guarded (user_created dto rows)
user_created-Guarded dto rows (role, f, g, h) =
    (role, f, g, any-append (active_in role) rows.users (new_user rows.next_id dto ∷ []) h)

pub role_created-Guarded :
    (name slug : ℕ) (ids : List ℕ) (rows : AccessRows)
    → Guarded rows
    → Guarded (role_created name slug ids rows)
role_created-Guarded name slug ids rows (role, f, g, h) =
    let own = new_role rows.next_id name slug ids in
    (
      role,
      find?-append is_super_admin_role rows.roles (own ∷ []) f,
      find?-append (λ r. r.id == role.id) rows.roles (own ∷ []) g,
      h,
    )

pub found_passes :
    {A : Type 0} (p : A → Bool) (xs : List A) (x : A) → find? p xs ≡ some x → p x ≡ true
found_passes p [] x h = cc
found_passes p (y ∷ xs) x h = elim (Bool-cases (p y)) [
  | inl c ↦ let same : y ≡ x = cc (find?-hit p y xs c) in subst (λ z. p z ≡ true) same c
  | inr c ↦ found_passes p xs x (sym (find?-miss p y xs c) ∙ h)
]

bump_kept :
    (c : Bool) (role : Role) (u : User)
    → active_in role u ≡ true
    → active_in role (elim c as (λ _. User) [ true ↦ bump_user u | false ↦ u ]) ≡ true
bump_kept true role u h = h
bump_kept false role u h = h

bumped_any :
    (role : Role) (role_id : ℕ) (needed : Bool) (users : List User)
    → any (active_in role) users ≡ true
    → any (active_in role) (bump_role role_id needed users) ≡ true
bumped_any role role_id false users h = h
bumped_any role role_id true users h =
    let (u, f) = any-true (active_in role) users h in
    any-update_where (active_in role) (λ v. v.role_id == role_id) bump_user users u f
      (bump_kept (u.role_id == role_id) role u (found_passes (active_in role) users u f))

pub role_edited-Guarded :
    (role_id : ℕ) (edit : RoleEdit) (rows : AccessRows)
    → Guarded rows
    → Guarded (role_edited role_id edit rows)
unfolding is_super_admin_role
role_edited-Guarded role_id edit rows (role, f, g, h) =
    let same_test =
      find?-update_kept is_super_admin_role (λ r. r.id == role_id) (edited edit) (λ r. refl)
        rows.roles in
    let same_id =
      find?-update_kept (λ r. r.id == role.id) (λ r. r.id == role_id) (edited edit) (λ r. refl)
        rows.roles in
    let users = bumped_any role role_id (edits_permissions edit) rows.users h in
    elim (Bool-cases (role.id == role_id)) [
      | inl c ↦ (edited edit role, same_test ∙ rw (f, c), same_id ∙ rw (g, c), users)
      | inr c ↦ (role, same_test ∙ rw (f, c), same_id ∙ rw (g, c), users)
    ]

not_system :
    (role removed : Role)
    → removed ≡ role
    → removed.is_system ≡ false
    → ¬ (is_super_admin_role role ≡ true)
unfolding is_super_admin_role
not_system role removed same s h = ground (arith, same, s, h)

pub role_removed-Guarded :
    (role_id : ℕ) (removed : Role) (rows : AccessRows)
    → find_role role_id rows ≡ some removed
    → removed.is_system ≡ false
    → Guarded rows
    → Guarded (role_removed role_id rows)
unfolding is_super_admin_role
role_removed-Guarded role_id removed rows r s (role, f, g, h) =
    let super = found_passes is_super_admin_role rows.roles role f in
    elim (Bool-cases (role.id == role_id)) [
      | inl c ↦
          let same_id : role.id ≡ role_id = (==_iff role.id role_id).0 c in
          let same : some removed ≡ some role = sym r ∙ rw (← same_id) g in
          absurd (not_system role removed (cc) s super)
      | inr c ↦ (
        role,
        find?-select_found is_super_admin_role (λ q. not (q.id == role_id)) rows.roles role f
            (rw c),
        find?-select_found (λ q. q.id == role.id) (λ q. not (q.id == role_id)) rows.roles role g
            (rw c),
        h,
      )
    ]
