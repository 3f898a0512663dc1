-- ===== src/Access/Managers.antt =====
-- `assertValidManager` (apps/api/src/users/users.service.ts): the manager of a user exists, and is
-- neither the user nor, as far as 20 hops up, below the user.
use openestate.Base.{
  ℕ, zero, suc, Bool, false, Option, none, some, ◌==◌, if◌then◌else◌, Result, ok, err, bad_request,
  ◌>>=◌, or_throw, throw_if,
}
use openestate.Access.Rows.{AccessRows, find_user}

-- `row?.managerId ?? null`
abbrev pub manager_of : ℕ → AccessRows → Option ℕ
manager_of id rows = elim (find_user id rows) [ none ↦ none | some u ↦ u.manager_id ]

abbrev pub max_hops : ℕ
max_hops = 20

-- The loop, on the hops that are left.
unfoldable pub walk_up : ℕ → ℕ → Option ℕ → AccessRows → Result (Unit {0})
walk_up zero user_id current rows = ok tt
walk_up (suc hops) user_id none rows = ok tt
walk_up (suc hops) user_id (some current) rows =
    let rest = walk_up hops user_id (manager_of current rows) rows in
    if current == user_id then err bad_request else rest

abbrev pub same_user : Option ℕ → ℕ → Bool
same_user none id = false
same_user (some user_id) id = id == user_id

-- `user_id` is `none` for a user who is being created.
unfoldable pub assert_valid_manager : Option ℕ → Option ℕ → AccessRows → Result (Unit {0})
unfolding walk_up
assert_valid_manager user_id none rows = ok tt
assert_valid_manager user_id (some candidate_id) rows = do
  _ ← throw_if (same_user user_id candidate_id) bad_request
  candidate ← or_throw (find_user candidate_id rows) bad_request
  elim user_id [ none ↦ ok tt | some id ↦ walk_up max_hops id candidate.manager_id rows ]
