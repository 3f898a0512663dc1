-- ===== src/Access/Callers.antt =====
-- apps/api/src/common/permission-subset.util.ts: nobody acts on, or grants, more than they hold.
use openestate.Base.{
  ℕ, Bool, true, false, not, ◌&&◌, none, some, List, [], ◌∷◌, ◌==◌, find?, any, select,
  if◌then◌else◌, Result, ok, thrown, ◌>>=◌, or_throw, throw_if, forbidden,
}
use openestate.Access.Rows.{
  super_admin_slug, Role, User, AccessRows, contains, find_role, find_user, load_permission_keys,
  all_keys,
}

pub record CallerContext : Type 0 where
  pub id : ℕ
  pub role : Role
  pub is_active : Bool
  pub permission_keys : List ℕ

unfoldable pub is_super_admin_role : Role → Bool
is_super_admin_role r = r.is_system && r.slug == super_admin_slug

-- The permissions of a role: every one that exists for super_admin, its own for another.
unfoldable pub keys_of_role : Role → AccessRows → List ℕ
unfolding is_super_admin_role load_permission_keys
keys_of_role role rows =
    if is_super_admin_role role
    then all_keys rows
    else load_permission_keys role.permission_ids rows

abbrev pub context_of : User → Role → AccessRows → CallerContext
context_of user role rows = record {
  id = user.id;
  role = role;
  is_active = user.is_active;
  permission_keys = keys_of_role role rows;
}

-- `findUniqueOrThrow`; a user always has a role.
unfoldable pub load_current_caller : ℕ → AccessRows → Result CallerContext
load_current_caller caller_id rows = do
  user ← or_throw (find_user caller_id rows) thrown
  role ← or_throw (find_role user.role_id rows) thrown
  ok (context_of user role rows)

unfoldable pub assert_caller_active : CallerContext → Result (Unit {0})
assert_caller_active caller = throw_if (not caller.is_active) forbidden

-- `targetPermissionKeys.filter((k) => !callerSet.has(k))`
abbrev pub missing_keys : List ℕ → List ℕ → List ℕ
missing_keys caller_keys target_keys = select (λ k. not (contains k caller_keys)) target_keys

abbrev pub is_some_missing : List ℕ → Bool
is_some_missing [] = false
is_some_missing (k ∷ ks) = true

unfoldable pub assert_permission_subset : List ℕ → List ℕ → Result (Unit {0})
assert_permission_subset caller_keys target_keys =
    throw_if (is_some_missing (missing_keys caller_keys target_keys)) forbidden

unfoldable pub assert_actor_is_super_admin_if_target_is : CallerContext → Role → Result (Unit {0})
unfolding is_super_admin_role
assert_actor_is_super_admin_if_target_is caller target_role =
    throw_if (is_super_admin_role target_role && not (is_super_admin_role caller.role)) forbidden

-- The active users of the super_admin role but for one; no such role is nothing to protect.
abbrev pub other_super_admin : Role → ℕ → User → Bool
other_super_admin role exclude_user_id u =
    u.role_id == role.id && u.is_active && not (u.id == exclude_user_id)

unfoldable pub assert_super_admin_not_emptied : ℕ → AccessRows → Result (Unit {0})
unfolding is_super_admin_role
assert_super_admin_not_emptied exclude_user_id rows = elim (find? is_super_admin_role rows.roles) [
  | none ↦ ok tt
  | some role ↦ throw_if (not (any (other_super_admin role exclude_user_id) rows.users)) forbidden
]
