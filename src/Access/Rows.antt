-- ===== src/Access/Rows.antt =====
-- The tables of accounts (packages/db/prisma/schema.prisma). Names, slugs, e-mail addresses and
-- permission keys are numbers; `in_portal` says that a key starts with `portal.`.
use openestate.Base.{ℕ, Bool, Option, List, ◌==◌, find?, any, select, map}

-- The slug `super_admin`
abbrev pub super_admin_slug : ℕ
super_admin_slug = 0

pub record Permission : Type 0 where
  pub id : ℕ
  pub key : ℕ
  pub in_portal : Bool

-- A role with the permissions of its `role_permissions` rows.
pub record Role : Type 0 where
  pub id : ℕ
  pub name : ℕ
  pub slug : ℕ
  pub is_system : Bool
  pub is_portal : Bool
  pub permission_ids : List ℕ

pub record User : Type 0 where
  pub id : ℕ
  pub email : ℕ
  pub role_id : ℕ
  pub manager_id : Option ℕ
  pub is_active : Bool
  pub is_portal_account : Bool
  pub authz_version : ℕ

pub record AccessRows : Type 0 where
  pub next_id : ℕ
  pub permissions : List Permission
  pub roles : List Role
  pub users : List User

-- `xs.includes(x)`, and a set's `has`
abbrev pub contains : ℕ → List ℕ → Bool
contains x xs = any (λ y. y == x) xs

abbrev pub find_role : ℕ → AccessRows → Option Role
find_role id rows = find? (λ r. r.id == id) rows.roles

abbrev pub find_user : ℕ → AccessRows → Option User
find_user id rows = find? (λ u. u.id == id) rows.users

-- `permission.findMany({ where: { id: { in: ids } } })`
abbrev pub permissions_of : List ℕ → AccessRows → List Permission
permissions_of ids rows = select (λ p. contains p.id ids) rows.permissions

-- The keys of permissions, by their ids.
unfoldable pub load_permission_keys : List ℕ → AccessRows → List ℕ
load_permission_keys ids rows = map (λ p. p.key) (permissions_of ids rows)

-- `permission.findMany({ select: { key: true } })`
abbrev pub all_keys : AccessRows → List ℕ
all_keys rows = map (λ p. p.key) rows.permissions
