-- ===== src/Access/Lockout.antt =====
-- `assertSuperAdminNotEmptied` (apps/api/src/common/permission-subset.util.ts): an account that is
-- edited, deactivated or reactivated leaves an active user in the super_admin role.
use openestate.Base.{
  ℕ, ◌≡◌, sym, ◌∙◌, arith, Bool, true, false, some, ◌==◌, ==_iff, Bool-cases, inl, inr, find?, any,
  any-true, any_implies, any-update_where, ok,
}
use openestate.Access.Rows.{Role, User, AccessRows, find_role, find_user}
use openestate.Access.Callers.{
  is_super_admin_role, other_super_admin, assert_super_admin_not_emptied,
}
use openestate.Access.Distinct.{DistinctUsers, find?-Distinct}
use openestate.Access.Users.{with_user, set_active}
use openestate.Access.SuperAdmin.{Guarded, active_in, found_passes}

-- The check found another active super admin, whom no edit of the account touches.
other_kept :
    (user_id : ℕ) (f : User → User) (rows : AccessRows) (role : Role)
    → find? is_super_admin_role rows.roles ≡ some role
    → assert_super_admin_not_emptied user_id rows ≡ ok tt
    → any (active_in role) (with_user user_id f rows).users ≡ true
unfolding assert_super_admin_not_emptied
other_kept user_id f rows role r h =
    let others : any (other_super_admin role user_id) rows.users ≡ true = ground (arith, r, h) in
    let (w, found) = any-true (other_super_admin role user_id) rows.users others in
    let passes = found_passes (other_super_admin role user_id) rows.users w found in
    let apart : (w.id == user_id) ≡ false = ground (arith, passes) in
    any_implies (other_super_admin role user_id) (active_in role) (λ u e. ground (arith, e))
      (with_user user_id f rows).users
      (any-update_where (other_super_admin role user_id) (λ u. u.id == user_id) f rows.users w found
        (rw apart passes))

-- The user who was active in the role is not the one who is edited.
unaffected :
    (user_id : ℕ) (f : User → User) (rows : AccessRows) (role : Role) (u : User)
    → find? (active_in role) rows.users ≡ some u
    → active_in role (elim (u.id == user_id) [ true ↦ f u | false ↦ u ]) ≡ true
    → any (active_in role) (with_user user_id f rows).users ≡ true
unaffected user_id f rows role u found h =
    any-update_where (active_in role) (λ v. v.id == user_id) f rows.users u found h

pub activated-Guarded :
    (user_id : ℕ) (rows : AccessRows)
    → Guarded rows
    → Guarded (with_user user_id (set_active true) rows)
activated-Guarded user_id rows (role, f, g, h) =
    let (u, found) = any-true (active_in role) rows.users h in
    let passes = found_passes (active_in role) rows.users u found in
    (
      role,
      f,
      g,
      unaffected user_id (set_active true) rows role u found
          (still_active (u.id == user_id) role u passes),
    )
  where
    still_active :
        (c : Bool) (role : Role) (u : User)
        → active_in role u ≡ true
        → active_in role (elim c as (λ _. User) [ true ↦ set_active true u | false ↦ u ]) ≡ true
    still_active true role u e = ground (arith, e)
    still_active false role u e = e

both : (b : Bool) → b ≡ false → ¬ (b ≡ true)
both b h k = cc

-- A user that a search finds under an id is the one that the id finds.
same_user :
    (user_id : ℕ) (p : User → Bool) (rows : AccessRows) (user u : User)
    → DistinctUsers rows
    → find_user user_id rows ≡ some user
    → find? p rows.users ≡ some u
    → (u.id == user_id) ≡ true
    → u ≡ user
same_user user_id p rows user u d uf found c =
    let same_id : u.id ≡ user_id = (==_iff u.id user_id).0 c in
    let same : some u ≡ some user = sym (find?-Distinct p rows.users u d.1 found) ∙ rw same_id uf in
    cc

-- An active super admin is not an account whose role is another.
not_counted :
    (user_id : ℕ) (rows : AccessRows) (user : User) (own role : Role) (u : User)
    → DistinctUsers rows
    → find_user user_id rows ≡ some user
    → find_role user.role_id rows ≡ some own
    → find? is_super_admin_role rows.roles ≡ some role
    → find_role role.id rows ≡ some role
    → is_super_admin_role own ≡ false
    → find? (active_in role) rows.users ≡ some u
    → active_in role u ≡ true
    → (u.id == user_id) ≡ false
not_counted user_id rows user own role u d uf rf r g s found passes =
    elim (Bool-cases (u.id == user_id)) [
      | inr c ↦ c
      | inl c ↦
          let same = same_user user_id (active_in role) rows user u d uf found c in
          let in_role : u.role_id ≡ role.id = ground (arith, passes) in
          let same_role : some own ≡ some role = sym rf ∙ rw (← same, in_role) g in
          let is_own : own ≡ role = cc in
          absurd (
            both (is_super_admin_role own) s
              (rw is_own (found_passes is_super_admin_role rows.roles role r)))
    ]

-- An edit of an account whose role is super_admin runs the check; of another it does not matter.
pub checked-Guarded :
    (user_id : ℕ) (f : User → User) (rows : AccessRows) (user : User) (own : Role)
    → DistinctUsers rows
    → find_user user_id rows ≡ some user
    → find_role user.role_id rows ≡ some own
    → (is_super_admin_role own ≡ true → assert_super_admin_not_emptied user_id rows ≡ ok tt)
    → Guarded rows
    → Guarded (with_user user_id f rows)
checked-Guarded user_id f rows user own d uf rf check (role, r, g, h) =
    elim (Bool-cases (is_super_admin_role own)) [
      | inl s ↦ (role, r, g, other_kept user_id f rows role r (check s))
      | inr s ↦
          let (u, found) = any-true (active_in role) rows.users h in
          let passes = found_passes (active_in role) rows.users u found in
          let other : (u.id == user_id) ≡ false =
            not_counted user_id rows user own role u d uf rf r g s found passes in
          (role, r, g, unaffected user_id f rows role u found (rw other passes))
    ]

-- An edit that leaves the role of the account alone.
pub edited_user-Guarded :
    (user_id : ℕ) (f : User → User) (rows : AccessRows) (user : User)
    → DistinctUsers rows
    → find_user user_id rows ≡ some user
    → (f user).role_id ≡ user.role_id
    → (f user).is_active ≡ user.is_active
    → Guarded rows
    → Guarded (with_user user_id f rows)
edited_user-Guarded user_id f rows user d uf same_role same_state (role, r, g, h) =
    let (u, found) = any-true (active_in role) rows.users h in
    let passes = found_passes (active_in role) rows.users u found in
    elim (Bool-cases (u.id == user_id)) [
      | inr c ↦ (role, r, g, unaffected user_id f rows role u found (rw c passes))
      | inl c ↦
          let same = same_user user_id (active_in role) rows user u d uf found c in
          (
            role,
            r,
            g,
            unaffected user_id f rows role u found
                (rw c (rw same (rw (same_role, same_state) (rw same at passes)))),
          )
    ]
