-- ===== src/Access/Holdings.antt =====
-- Which permissions a user holds, and how changes of the rows of users and roles move them.
use openestate.Base.{
  ℕ, ◌≡◌, refl, ap, arith, Bool, true, false, not, Option, none, some, List, [], ◌∷◌, ◌++◌, ◌==◌,
  ==_iff, Bool-cases, Option-cases, inl, inr, ◌⊎◌, select, find?, update_where, ok,
  find?-update_kept, find?-update_where, find?-update_disjoint, find?-select_kept,
  find?-select_dropped,
}
use openestate.Access.Rows.{Role, User, AccessRows, contains, find_role, find_user}
use openestate.Access.Callers.{CallerContext, keys_of_role, load_current_caller}
use openestate.Access.Users.{UpdateUser, user_edit}
use openestate.Access.Subset.{load_current_caller_inv}

-- Whether the role that an id names holds a key, and whether a user does by their role.
abbrev pub found_holds : ℕ → AccessRows → Option Role → Bool
found_holds k rows none = false
found_holds k rows (some role) = contains k (keys_of_role role rows)

abbrev pub role_holds : ℕ → ℕ → AccessRows → Bool
role_holds role_id k rows = found_holds k rows (find_role role_id rows)

abbrev pub role_id_of : Option User → Option ℕ
role_id_of none = none
role_id_of (some u) = some u.role_id

abbrev pub by_role : ℕ → AccessRows → Option ℕ → Bool
by_role k rows none = false
by_role k rows (some role_id) = role_holds role_id k rows

unfoldable pub holds : ℕ → ℕ → AccessRows → Bool
holds user_id k rows = by_role k rows (role_id_of (find_user user_id rows))

-- What a caller may grant is what they hold.
pub caller_holds :
    (caller_id k : ℕ) (rows : AccessRows) (caller : CallerContext)
    → load_current_caller caller_id rows ≡ ok caller
    → contains k caller.permission_keys ≡ holds caller_id k rows
unfolding holds
caller_holds caller_id k rows caller h =
    let (user, role, f, g, made) = load_current_caller_inv caller_id rows caller h in
    rw (made, f, role_id_of, g)

-- Appending, editing or dropping a row changes what an id finds to the new row at most.
pub find?-snoc_cases :
    {A : Type 0} (p : A → Bool) (xs : List A) (y : A)
    → (find? p (xs ++ y ∷ []) ≡ find? p xs) ⊎ (find? p (xs ++ y ∷ []) ≡ some y)
find?-snoc_cases p [] y = elim (Bool-cases (p y)) [
  | inl c ↦ inr (rw (find?, c))
  | inr c ↦ inl (rw (find?, c))
]
find?-snoc_cases p (x ∷ xs) y = elim (Bool-cases (p x)) [
  | inl c ↦ inl (rw (find?, c))
  | inr c ↦ rw (find?, c) (find?-snoc_cases p xs y)
]

-- An edit of the users that keeps ids and roles keeps the role of each.
pub role_id_of-kept :
    (q : User → Bool) (f : User → User)
    → ((u : User) → ((f u).id ≡ u.id) × ((f u).role_id ≡ u.role_id))
    → (x : ℕ) (users : List User)
    → role_id_of (find? (λ u. u.id == x) (update_where q f users))
      ≡ role_id_of (find? (λ u. u.id == x) users)
role_id_of-kept q f keep x users =
    rw (find?-update_kept (λ u. u.id == x) q f (λ u. ap (λ i. i == x) (keep u).0) users)
      (elim (Option-cases (find? (λ u. u.id == x) users)) [
        | inl n ↦ rw n
        | inr (u, n) ↦ rw n (kept_role (q u) u)
      ])
  where
    kept_role :
        (c : Bool) (u : User)
        → some (elim c as (λ _. User) [ true ↦ f u | false ↦ u ]).role_id ≡ some u.role_id
    kept_role true u = ap some (keep u).1
    kept_role false u = refl

-- An edit of a user changes the role of a user to the given one at most.
edited_role :
    (c : Bool) (dto : UpdateUser) (r : ℕ) (u : User)
    → dto.role_id ≡ some r
    → (some (elim c as (λ _. User) [ true ↦ user_edit dto u | false ↦ u ]).role_id ≡ some u.role_id)
      ⊎ (some (elim c as (λ _. User) [ true ↦ user_edit dto u | false ↦ u ]).role_id ≡ some r)
edited_role true dto r u given = inr (rw given)
edited_role false dto r u given = inl refl

pub role_id_of-edited :
    (q : User → Bool) (dto : UpdateUser) (r : ℕ)
    → dto.role_id ≡ some r
    → (x : ℕ) (users : List User)
    → (role_id_of (find? (λ u. u.id == x) (update_where q (user_edit dto) users))
        ≡ role_id_of (find? (λ u. u.id == x) users))
      ⊎ (role_id_of (find? (λ u. u.id == x) (update_where q (user_edit dto) users)) ≡ some r)
role_id_of-edited q dto r given x users =
    rw (find?-update_kept (λ u. u.id == x) q (user_edit dto) (λ u. refl) users)
      (elim (Option-cases (find? (λ u. u.id == x) users)) [
        | inl n ↦ rw n (inl refl)
        | inr (u, n) ↦ rw n (edited_role (q u) dto r u given)
      ])

-- An edit of a role that keeps ids changes what an id finds to the edited role at most.
pub find_role-edited :
    (role_id : ℕ) (f : Role → Role) (role : Role)
    → ((r : Role) → (f r).id ≡ r.id)
    → (x : ℕ) (roles : List Role) → find? (λ r. r.id == role_id) roles ≡ some role
    → (find? (λ r. r.id == x) (update_where (λ r. r.id == role_id) f roles)
        ≡ find? (λ r. r.id == x) roles)
      ⊎ ((find? (λ r. r.id == x) (update_where (λ r. r.id == role_id) f roles) ≡ some (f role))
          × (find? (λ r. r.id == x) roles ≡ some role))
find_role-edited role_id f role keep x roles h = elim (Bool-cases (x == role_id)) [
  | inl e ↦
      let same : x ≡ role_id = (==_iff x role_id).0 e in
      inr (
        rw same (
            find?-update_where (λ r. r.id == role_id) f (λ r. ap (λ i. i == role_id) (keep r)) roles
              h),
        rw same h,
      )
  | inr e ↦ inl (
      find?-update_disjoint (λ r. r.id == x) (λ r. r.id == role_id) f
        (λ r c. (ground arith, rw (keep r) (ground arith))) roles)
]

-- Dropping a role leaves nothing under its id, and the others as they are.
pub find_role-dropped :
    (role_id x : ℕ) (roles : List Role)
    → (find? (λ r. r.id == x) (select (λ r. not (r.id == role_id)) roles)
        ≡ find? (λ r. r.id == x) roles)
      ⊎ (find? (λ r. r.id == x) (select (λ r. not (r.id == role_id)) roles) ≡ none)
find_role-dropped role_id x roles = elim (Bool-cases (x == role_id)) [
  | inl e ↦ inr (
      find?-select_dropped (λ r. r.id == x) (λ r. not (r.id == role_id)) (λ r c. ground arith)
        roles)
  | inr e ↦
      inl (
        find?-select_kept (λ r. r.id == x) (λ r. not (r.id == role_id)) (λ r c. ground arith) roles)
]
