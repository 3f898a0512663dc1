-- ===== src/Access/Subset.antt =====
-- `assertPermissionSubset` and `assertActorIsSuperAdminIfTargetIs`
-- (apps/api/src/common/permission-subset.util.ts): what has been established where they pass.
use openestate.Base.{
  ℕ, ◌≡◌, ap, ◌∙◌, arith, true, false, not, ◌&&◌, some, List, [], ◌∷◌, ◌==◌, ==_iff, if◌then◌else◌,
  Bool-cases, Option-cases, inl, inr, All, any, select, ok, throw_if, ◌>>=◌,
}
use openestate.Access.Rows.{
  Role, User, AccessRows, contains, find_role, find_user, load_permission_keys, all_keys,
}
use openestate.Access.Callers.{
  CallerContext, context_of, is_super_admin_role, keys_of_role, load_current_caller, missing_keys,
  is_some_missing, assert_permission_subset, assert_actor_is_super_admin_if_target_is,
}
use openestate.Access.Users.{assert_role_in_reach}

-- Every key of the first list is in the second.
abbrev pub Subset : List ℕ → List ℕ → Type 0
Subset keys of = All (λ k. contains k of ≡ true) keys

subset_from : (of keys : List ℕ) → is_some_missing (missing_keys of keys) ≡ false → Subset keys of
subset_from of [] h = tt
subset_from of (k ∷ keys) h = elim (Bool-cases (contains k of)) [
  | inl c ↦ (c, subset_from of keys (rw (select, c) at h))
  | inr c ↦ ground (arith, c)
]

pub assert_permission_subset_passed :
    (of keys : List ℕ) → assert_permission_subset of keys ≡ ok tt → Subset keys of
unfolding assert_permission_subset
assert_permission_subset_passed of keys h =
    elim (Bool-cases (is_some_missing (missing_keys of keys))) [
      | inl c ↦ ground (arith, c)
      | inr c ↦ subset_from of keys c
    ]

-- A key of the smaller list is one of the larger.
pub Subset-contains :
    (of : List ℕ) (k : ℕ) (keys : List ℕ)
    → Subset keys of
    → contains k keys ≡ true
    → contains k of ≡ true
Subset-contains of k [] h c = cc
Subset-contains of k (x ∷ keys) (h, hs) c = elim (Bool-cases (x == k)) [
  | inl e ↦ let same : x ≡ k = (==_iff x k).0 e in rw (← same) h
  | inr e ↦ Subset-contains of k keys hs (rw (any, e) at c)
]

Subset-refl_from :
    (of keys : List ℕ) → ((k : ℕ) → contains k keys ≡ true → contains k of ≡ true) → Subset keys of
Subset-refl_from of [] h = tt
Subset-refl_from of (k ∷ keys) h =
    (h k (ground arith), Subset-refl_from of keys (λ x c. h x (ground (arith, c))))

pub Subset_refl : (keys : List ℕ) → Subset keys keys
Subset_refl keys = Subset-refl_from keys keys (λ k c. c)

pub load_current_caller_inv :
    (caller_id : ℕ) (rows : AccessRows) (caller : CallerContext)
    → load_current_caller caller_id rows ≡ ok caller
    → (user : User) × (role : Role) × (find_user caller_id rows ≡ some user)
      × (find_role user.role_id rows ≡ some role)
      × (caller ≡ context_of user role rows)
unfolding load_current_caller
load_current_caller_inv caller_id rows caller h = elim (Option-cases (find_user caller_id rows)) [
  | inl f ↦ ground (arith, f)
  | inr (user, f) ↦ elim (Option-cases (find_role user.role_id rows)) [
    | inl g ↦ ground (arith, f, g)
    | inr (role, g) ↦ (user, role, f, g, ground (arith, f, g))
  ]
]

pub keys_of_role_super :
    (role : Role) (rows : AccessRows)
    → is_super_admin_role role ≡ true
    → keys_of_role role rows ≡ all_keys rows
unfolding keys_of_role
keys_of_role_super role rows h = rw (h, if◌then◌else◌)

pub keys_of_role_plain :
    (role : Role) (rows : AccessRows)
    → is_super_admin_role role ≡ false
    → keys_of_role role rows ≡ load_permission_keys role.permission_ids rows
unfolding keys_of_role
keys_of_role_plain role rows h = rw (h, if◌then◌else◌)

-- The subset check of an action within reach.
reach_checked :
    (caller : CallerContext) (role : Role) (rows : AccessRows)
    → assert_role_in_reach caller role rows ≡ ok tt
    → ((is_super_admin_role role && not (is_super_admin_role caller.role)) ≡ false)
      × Subset (load_permission_keys role.permission_ids rows) caller.permission_keys
unfolding assert_role_in_reach assert_actor_is_super_admin_if_target_is
reach_checked caller role rows h =
    elim (Bool-cases (is_super_admin_role role && not (is_super_admin_role caller.role))) [
      | inl c ↦ ground (arith, c)
      | inr c ↦ (
        c,
        assert_permission_subset_passed caller.permission_keys
            (load_permission_keys role.permission_ids rows) (rw (throw_if, ◌>>=◌, c) at h),
      )
    ]

-- An action within reach grants or touches no key that the caller does not hold.
pub reach-Subset :
    (caller_id : ℕ) (rows : AccessRows) (caller : CallerContext) (role : Role)
    → load_current_caller caller_id rows ≡ ok caller
    → assert_role_in_reach caller role rows ≡ ok tt
    → Subset (keys_of_role role rows) caller.permission_keys
reach-Subset caller_id rows caller role h r =
    let (user, own, f, g, made) = load_current_caller_inv caller_id rows caller h in
    let (super_only, within) = reach_checked caller role rows r in
    elim (Bool-cases (is_super_admin_role role)) [
      | inl s ↦
          let own_super : is_super_admin_role own ≡ true = ground (arith, s, made) in
          let keys : caller.permission_keys ≡ all_keys rows =
            ap (λ c. c.permission_keys) made ∙ keys_of_role_super own rows own_super in
          rw (keys_of_role_super role rows s, keys) (Subset_refl (all_keys rows))
      | inr s ↦ rw (keys_of_role_plain role rows s) within
    ]
