-- ===== src/Access/Steps.antt =====
-- Sequences of the operations on roles and accounts, each by some caller, and what no sequence can
-- do: obtain a permission that nobody held.
use openestate.Base.{ℕ, ◌≡◌, true, false, ◌||◌, List, ok}
use openestate.Access.Rows.{AccessRows}
use openestate.Access.Roles.{RoleEdit, create_role, update_role, remove_role}
use openestate.Access.Users.{
  CreateUser, UpdateUser, create_user, update_user, deactivate, reactivate,
}
use openestate.Access.Holdings.{holds}
use openestate.Access.Checked.{deactivate_inv, reactivate_inv}
use openestate.Access.Grants.{create_user-grants, update_user-grants, set_active-grants}
use openestate.Access.RoleGrants.{create_role-grants, update_role-grants, remove_role-grants}

-- One operation that returned, by a caller.
pub data Step (caller_id : ℕ) : AccessRows → AccessRows → Type 0 where
  creates_role :
      {rows rows' : AccessRows} (name slug : ℕ) (ids : List ℕ)
      → create_role name slug ids caller_id rows ≡ ok rows'
      → Step caller_id rows rows'
  updates_role :
      {rows rows' : AccessRows} (role_id : ℕ) (edit : RoleEdit)
      → update_role role_id edit caller_id rows ≡ ok rows'
      → Step caller_id rows rows'
  removes_role :
      {rows rows' : AccessRows} (role_id : ℕ)
      → remove_role role_id caller_id rows ≡ ok rows'
      → Step caller_id rows rows'
  creates_user :
      {rows rows' : AccessRows} (dto : CreateUser)
      → create_user dto caller_id rows ≡ ok rows'
      → Step caller_id rows rows'
  updates_user :
      {rows rows' : AccessRows} (user_id : ℕ) (dto : UpdateUser)
      → update_user user_id dto caller_id rows ≡ ok rows'
      → Step caller_id rows rows'
  deactivates :
      {rows rows' : AccessRows} (user_id : ℕ)
      → deactivate user_id caller_id rows ≡ ok rows'
      → Step caller_id rows rows'
  reactivates :
      {rows rows' : AccessRows} (user_id : ℕ)
      → reactivate user_id caller_id rows ≡ ok rows'
      → Step caller_id rows rows'

-- What a sequence of operations reaches.
pub data Reaches : AccessRows → AccessRows → Type 0 where
  stay : {rows : AccessRows} → Reaches rows rows
  step :
      {rows mid rows' : AccessRows} (caller_id : ℕ)
      → Step caller_id rows mid
      → Reaches mid rows'
      → Reaches rows rows'

-- One operation gives a user no permission but those that the user or the caller held.
pub Step-holds :
    (caller_id x k : ℕ) (rows rows' : AccessRows)
    → Step caller_id rows rows'
    → holds x k rows' ≡ true
    → (holds x k rows || holds caller_id k rows) ≡ true
Step-holds c x k rows rows' (creates_role name slug ids e) =
    create_role-grants c x k rows rows' name slug ids e
Step-holds c x k rows rows' (updates_role r edit e) = update_role-grants c x k rows rows' r edit e
Step-holds c x k rows rows' (removes_role r e) = remove_role-grants c x k rows rows' r e
Step-holds c x k rows rows' (creates_user dto e) = create_user-grants c x k rows rows' dto e
Step-holds c x k rows rows' (updates_user u dto e) = update_user-grants c x k rows rows' u dto e
Step-holds c x k rows rows' (deactivates u e) =
    let (_, _, _, _, _, made) = deactivate_inv c rows rows' u e in
    set_active-grants c x k rows rows' u false made
Step-holds c x k rows rows' (reactivates u e) =
    set_active-grants c x k rows rows' u true (reactivate_inv c rows rows' u e)
