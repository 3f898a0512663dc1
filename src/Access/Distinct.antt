-- ===== src/Access/Distinct.antt =====
-- The ids of users differ, and the operations on roles and accounts keep that.
use openestate.Base.{
  Distinct, ℕ, suc, ◌<◌, ◌≡◌, refl, sym, ap, subst, ◌∙◌, arith, Bool, false, some, List, [], ◌∷◌,
  ◌++◌, ◌==◌, ==_refl, Bool-cases, inl, inr, map, find?, find?-hit, find?-miss, update_where, All,
}
use openestate.Access.Rows.{User, AccessRows}
use openestate.Access.Roles.{
  RoleEdit, bump_user, bump_role, role_created, role_edited, edits_permissions,
}
use openestate.Access.Users.{CreateUser, new_user, user_created, with_user}

abbrev pub user_ids : AccessRows → List ℕ
user_ids rows = map (λ u. u.id) rows.users

abbrev pub DistinctUsers : AccessRows → Type 0
DistinctUsers rows = All (λ i. i < rows.next_id) (user_ids rows) × Distinct (user_ids rows)

found_id :
    (p : User → Bool) (P : ℕ → Type 0) (users : List User) (u : User)
    → All P (map (λ v. v.id) users)
    → find? p users ≡ some u
    → P u.id
found_id p P [] u h f = cc
found_id p P (v ∷ users) u (h, hs) f = elim (Bool-cases (p v)) [
  | inl c ↦ let same : v ≡ u = cc (find?-hit p v users c) in subst (λ w. P w.id) same h
  | inr c ↦ found_id p P users u hs (sym (find?-miss p v users c) ∙ f)
]

-- A user that a search finds is the one under its id.
pub find?-Distinct :
    (p : User → Bool) (users : List User) (u : User)
    → Distinct (map (λ v. v.id) users)
    → find? p users ≡ some u
    → find? (λ v. v.id == u.id) users ≡ some u
find?-Distinct p [] u d h = cc
find?-Distinct p (v ∷ users) u (new, d) h = elim (Bool-cases (p v)) [
  | inl c ↦
      let same : v ≡ u = cc (find?-hit p v users c) in
      find?-hit (λ w. w.id == u.id) v users (rw same (==_refl u.id)) ∙ ap some same
  | inr c ↦
      let rest = sym (find?-miss p v users c) ∙ h in
      find?-miss (λ w. w.id == u.id) v users
        (found_id p (λ j. (v.id == j) ≡ false) users u new rest)
      ∙ find?-Distinct p users u d rest
]

-- An edit of the users that keeps ids.
ids_kept :
    (q : User → Bool) (f : User → User)
    → ((u : User) → (f u).id ≡ u.id)
    → (users : List User) → map (λ u. u.id) (update_where q f users) ≡ map (λ u. u.id) users
ids_kept q f keep [] = refl
ids_kept q f keep (u ∷ users) = elim (Bool-cases (q u)) [
  | inl c ↦ ground (arith, c, keep u, ids_kept q f keep users)
  | inr c ↦ ground (arith, c, ids_kept q f keep users)
]

apart-snoc :
    (i n : ℕ) (ids : List ℕ)
    → i < n
    → All (λ j. (i == j) ≡ false) ids
    → All (λ j. (i == j) ≡ false) (ids ++ n ∷ [])
apart-snoc i n [] l h = (ground arith, tt)
apart-snoc i n (j ∷ ids) l (h, hs) = (h, apart-snoc i n ids l hs)

Distinct-snoc :
    (ids : List ℕ) (n : ℕ)
    → All (λ i. i < n) ids
    → Distinct ids
    → All (λ i. i < suc n) (ids ++ n ∷ []) × Distinct (ids ++ n ∷ [])
Distinct-snoc [] n h d = ((omega arith, tt), (tt, tt))
Distinct-snoc (i ∷ ids) n (h, hs) (a, d) =
    let (below, apart) = Distinct-snoc ids n hs d in
    ((omega (arith, h), below), (apart-snoc i n ids h a, apart))

ids-append :
    (users : List User) (u : User)
    → map (λ v. v.id) (users ++ u ∷ []) ≡ map (λ v. v.id) users ++ u.id ∷ []
ids-append [] u = refl
ids-append (v ∷ users) u = ap (λ ids. v.id ∷ ids) (ids-append users u)

-- The ids stay distinct.
pub user_created-DistinctUsers :
    (dto : CreateUser) (rows : AccessRows)
    → DistinctUsers rows
    → DistinctUsers (user_created dto rows)
user_created-DistinctUsers dto rows (below, apart) =
    rw (ids-append rows.users (new_user rows.next_id dto))
      (Distinct-snoc (user_ids rows) rows.next_id below apart)

pub with_user-DistinctUsers :
    (user_id : ℕ) (f : User → User) (rows : AccessRows)
    → ((u : User) → (f u).id ≡ u.id)
    → DistinctUsers rows
    → DistinctUsers (with_user user_id f rows)
with_user-DistinctUsers user_id f rows keep h =
    rw (ids_kept (λ u. u.id == user_id) f keep rows.users) h

below_suc : (n : ℕ) (ids : List ℕ) → All (λ i. i < n) ids → All (λ i. i < suc n) ids
below_suc n [] h = tt
below_suc n (i ∷ ids) (h, hs) = (omega (arith, h), below_suc n ids hs)

pub role_created-DistinctUsers :
    (name slug : ℕ) (ids : List ℕ) (rows : AccessRows)
    → DistinctUsers rows
    → DistinctUsers (role_created name slug ids rows)
role_created-DistinctUsers name slug ids rows (below, apart) =
    (below_suc rows.next_id (user_ids rows) below, apart)

pub role_edited-DistinctUsers :
    (role_id : ℕ) (edit : RoleEdit) (rows : AccessRows)
    → DistinctUsers rows
    → DistinctUsers (role_edited role_id edit rows)
role_edited-DistinctUsers role_id edit rows h = elim (Bool-cases (edits_permissions edit)) [
  | inl e ↦
      rw (bump_role, e, ids_kept (λ u. u.role_id == role_id) bump_user (λ u. refl) rows.users) h
  | inr e ↦ rw (bump_role, e) h
]
